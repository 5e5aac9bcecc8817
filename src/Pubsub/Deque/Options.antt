-- ===== src/Pubsub/Deque/Options.antt =====
-- The options of pubsub/deque.go and the deque that they make.
use fun.Prelude.{
  ℕ, ◌≡◌, ◌⊎◌, inl, inr, Bool, true, false, ◌&&◌, ◌||◌, not, Option, none, some, List, [],
  if◌then◌else◌, refl, arith, ◌==◌, Option-cases,
}
use mathlib.Core.Path.{subst}
use fun.Prelude.Int.{ℤ, pos, negsuc, pos_part, ltb_ℤ}
use fun.Pubsub.Errors.{Error}
use fun.Pubsub.Tracker.{Floats, QueueOptions, Tracker, no_limit, hard, validate, new_tracker, len}
use fun.Pubsub.Tracker.Limits.{
  IsValid, limit, new_tracker-IsValid, Request, Within, serve_all, serve_all-Within,
}
use fun.Pubsub.Deque.{Deque, make_deque}
use fun.Pubsub.Deque.Holds.{Holds, make_deque-Holds}

-- `DequeOptions`, with `none` for a nil `QueueOptions`.
pub record DequeOptions (F : Floats) : Type 0 where
  pub unlimited : Bool
  pub capacity : ℤ
  pub queue_options : Option (QueueOptions F)

pub data OptionsError : Type 0 where
  impossible : OptionsError
  unexpected_capacity negative_capacity : ℤ → OptionsError
  bad_queue_options : Error → OptionsError

abbrev is_zero : ℤ → Bool
is_zero (pos n) = n == 0
is_zero (negsuc n) = false

abbrev is_nil : {A : Type 0} → Option A → Bool
is_nil none = true
is_nil (some a) = false

module _ {F : Floats} where
  -- `Validate`: an error, or the options, whose queue options have their defaults filled in.
  unfoldable pub validate_options : DequeOptions F → OptionsError ⊎ DequeOptions F
  validate_options o =
      if o.unlimited && (not (is_zero o.capacity) || not (is_nil o.queue_options))
      then inl impossible
      else elim o.queue_options [
        | some p ↦
            if not (is_zero o.capacity)
            then inl (unexpected_capacity o.capacity)
            else (elim (validate p) [
              | inl e ↦ inl (bad_queue_options e)
              | inr p' ↦ inr (record o { queue_options = some p' })
            ])
        | none ↦
            if o.unlimited
            then inr o
            else if ltb_ℤ o.capacity (pos 0)
            then inl (negative_capacity o.capacity)
            else inr o
      ]

  -- The tracker that `NewDeque` puts in place, for options that it has validated.
  unfoldable pub tracker_of : DequeOptions F → Tracker F
  tracker_of o = elim o.queue_options [
    | some p ↦ new_tracker p
    | none ↦ if ltb_ℤ (pos 0) o.capacity then hard (pos_part o.capacity) 0 else no_limit 0
  ]

  -- `NewDeque`
  unfoldable pub new_deque : {A : Type 0} → A → DequeOptions F → OptionsError ⊎ Deque F A
  unfolding validate_options tracker_of
  new_deque zero_value o = elim (validate_options o) [
    | inl e ↦ inl e
    | inr o' ↦ inr (make_deque zero_value (tracker_of o'))
  ]

  -- The most items that the options let the deque hold.
  unfoldable pub asked_limit : DequeOptions F → Option ℕ
  asked_limit o = elim o.queue_options [
    | some p ↦ some (pos_part p.hard_limit)
    | none ↦ if ltb_ℤ (pos 0) o.capacity then some (pos_part o.capacity) else none
  ]

  -- What `NewDeque` relies on of the tracker.
  record Fit (t : Tracker F) (n : Option ℕ) : Type 0 where
    fit : IsValid t
    empty : len t ≡ 0
    bound : limit t ≡ n

  queue_options_cases :
      (o o' : DequeOptions F) (p : QueueOptions F)
      → o.queue_options ≡ some p
      → validate_options o ≡ inr o'
      → (p' : QueueOptions F) × (validate p ≡ inr p') × (o'.queue_options ≡ some p')
  unfolding validate_options
  queue_options_cases o o' p e v = go (validate p) refl
    where
      go :
          (r : Error ⊎ QueueOptions F)
          → validate p ≡ r
          → (p' : QueueOptions F) × (validate p ≡ inr p') × (o'.queue_options ≡ some p')
      go (inl err) w = absurd (ground arith)
      go (inr p') w = (p', w, ground arith)

  tracker_of-some :
      (o o' : DequeOptions F) (p : QueueOptions F)
      → o.queue_options ≡ some p
      → validate_options o ≡ inr o'
      → Fit (tracker_of o') (asked_limit o)
  unfolding tracker_of asked_limit
  tracker_of-some o o' p e v =
      let (p', w, e') = queue_options_cases o o' p e v in
      let (f, z, l) = new_tracker-IsValid p {v = p'} w in
      rw (e, e', tracker_of, asked_limit) (record { fit = f; empty = z; bound = l })

  tracker_of-none :
      (o o' : DequeOptions F)
      → o.queue_options ≡ none
      → validate_options o ≡ inr o'
      → Fit (tracker_of o') (asked_limit o)
  unfolding validate_options tracker_of asked_limit
  tracker_of-none o o' e v = ground arith

  tracker_of-Fit :
      (o o' : DequeOptions F) → validate_options o ≡ inr o' → Fit (tracker_of o') (asked_limit o)
  tracker_of-Fit o o' v = elim (Option-cases o.queue_options) [
    | inl e ↦ tracker_of-none o o' e v
    | inr (p, e) ↦ tracker_of-some o o' p e v
  ]

  new_deque_cases :
      {A : Type 0} (z : A) (o : DequeOptions F) (q : Deque F A)
      → new_deque z o ≡ inr q
      → (o' : DequeOptions F) × (validate_options o ≡ inr o') × (q ≡ make_deque z (tracker_of o'))
  unfolding new_deque
  new_deque_cases z o q e = go (validate_options o) refl
    where
      go :
          (r : OptionsError ⊎ DequeOptions F)
          → validate_options o ≡ r
          → (o' : DequeOptions F) × (validate_options o ≡ inr o')
            × (q ≡ make_deque z (tracker_of o'))
      go (inl err) w = let f : new_deque z o ≡ inl err = rw (new_deque, w) in absurd (cc (e, f))
      go (inr o') w =
          let f : new_deque z o ≡ inr (make_deque z (tracker_of o')) = rw (new_deque, w) in
          (o', w, cc (e, f))

  -- A deque that `NewDeque` makes holds nothing. The limit of its tracker is the hard limit of the queue
  -- options, else the capacity if it is positive, else there is none; and whatever the tracker adds and
  -- removes from then on, it never counts more items than that.
  pub new_deque_lem :
      {A : Type 0} (z : A) (o : DequeOptions F) (q : Deque F A) (rs : List Request)
      → new_deque z o ≡ inr q
      → Holds q []
        × (limit q.tracker ≡ asked_limit o)
        × Within (asked_limit o) (len (serve_all q.tracker rs))
  unfolding make_deque
  new_deque_lem z o q rs e =
      let (o', v, s) = new_deque_cases z o q e in
      let f = tracker_of-Fit o o' v in
      rw s (
        make_deque-Holds z (tracker_of o') f.empty f.fit,
        f.bound,
        subst (λ n. Within n (len (serve_all (tracker_of o') rs))) f.bound
            (serve_all-Within (tracker_of o') rs f.fit),
      )
