-- ===== src/Pubsub/Tracker/Limits.antt =====
-- What a tracker guarantees: the length stays within the quota and the quota within the hard limit.
use fun.Prelude.{
  ℕ, Option, Option-cases, refl, sym, ◌∙◌, List, [], ◌∷◌, ◌==◌, if◌then◌else◌, Bool-cases, inl,
  some, ◌↔◌, ◌+◌, ◌≤◌, ◌<◌, ◌≡◌, ◌≢◌, ◌⊎◌, inr, none, arith,
}
use mathlib.Core.Path.{subst}
use fun.Prelude.Int.{pos_part}
use fun.Pubsub.Errors.{queue_full}
use fun.Pubsub.Tracker.{
  Floats, QueueOptions, Quota, Tracker, no_limit, hard, quota, validate, new_tracker, len, cap, add,
  remove,
}

-- The length never passes the quota, which never passes the hard limit nor falls to zero.
pub record WithinQuota {F : Floats} (t : Quota F) : Type 0 where
  pub within : t.length ≤ t.soft_quota
  pub limited : t.soft_quota ≤ t.hard_limit
  pub positive : 0 < t.soft_quota

abbrev pub IsValid : {F : Floats} → Tracker F → Type 0
IsValid (no_limit n) = Unit
IsValid (hard c n) = n ≤ c
IsValid (quota t) = WithinQuota t

-- The number of items that a tracker never lets its queue pass.
abbrev pub limit : {F : Floats} → Tracker F → Option ℕ
limit (no_limit n) = none
limit (hard c n) = some c
limit (quota t) = some t.hard_limit

-- What a queue asks of its tracker.
pub data Request : Type 0 where
  adds removes : Request

-- At most so many, if there is a bound.
abbrev pub Within : Option ℕ → ℕ → Type 0
Within none n = Unit
Within (some k) n = n ≤ k

module _ {F : Floats} where
  -- Options that `Validate` passes, with its defaults filled in, make a tracker that is valid and empty,
  -- with the hard limit that was asked for.
  pub new_tracker-IsValid :
      (o : QueueOptions F) {v : QueueOptions F}
      → validate o ≡ inr v
      → IsValid (new_tracker v)
        × (len (new_tracker v) ≡ 0)
        × (limit (new_tracker v) ≡ some (pos_part o.hard_limit))
  unfolding validate new_tracker
  new_tracker-IsValid o h = ground arith

  pub add-IsValid : (t : Tracker F) → IsValid t → IsValid (add t).1
  unfolding add
  add-IsValid (no_limit n) v = tt
  add-IsValid (hard c n) v = ground arith
  add-IsValid (quota t) v = ground arith

  pub remove-IsValid : (t : Tracker F) → IsValid t → 0 < len t → IsValid (remove t)
  unfolding remove
  remove-IsValid (no_limit n) v h = ground arith
  remove-IsValid (hard c n) v h = ground arith
  remove-IsValid (quota t) v h = ground arith

  -- A refused item leaves the tracker as it was, and one that is let in is counted.
  pub add_lem :
      (t : Tracker F)
      → ((add t).0 ≡ none) × (len (add t).1 ≡ len t + 1) ⊎ (((add t).0 ≢ none) × ((add t).1 ≡ t))
  unfolding add
  add_lem (no_limit n) = ground arith
  add_lem (hard c n) = ground arith
  add_lem (quota t) = ground arith

  -- Below the capacity an item is always let in.
  pub add-below_cap : (t : Tracker F) → len t < cap t → (add t).0 ≡ none
  unfolding add
  add-below_cap (no_limit n) h = ground arith
  add-below_cap (hard c n) h = ground arith
  add-below_cap (quota t) h = ground arith

  pub len-remove : (t : Tracker F) → 0 < len t → len (remove t) + 1 ≡ len t
  unfolding remove
  len-remove (no_limit n) h = ground arith
  len-remove (hard c n) h = ground arith
  len-remove (quota t) h = ground arith

  -- A tracker with a quota reports a full queue exactly when it holds as many items as the hard limit.
  pub add_full_iff :
      (t : Quota F)
      → WithinQuota t
      → ((add (quota t)).0 ≡ some queue_full) ↔ (t.length ≡ t.hard_limit)
  unfolding add
  add_full_iff t v = ground arith

  -- A request as the queues make it: nothing is removed from an empty queue.
  serve : Tracker F → Request → Tracker F
  serve t adds = (add t).1
  serve t removes = if len t == 0 then t else remove t

  pub serve_all : Tracker F → List Request → Tracker F
  unfolding serve
  serve_all t [] = t
  serve_all t (r ∷ rs) = serve_all (serve t r) rs

  serve-IsValid : (t : Tracker F) (r : Request) → IsValid t → IsValid (serve t r)
  unfolding serve
  serve-IsValid t adds v = add-IsValid t v
  serve-IsValid t removes v = elim (Bool-cases (len t == 0)) [
    | inl e ↦ rw e v
    | inr e ↦ rw e (remove-IsValid t v (ground arith))
  ]

  limit-serve : (t : Tracker F) (r : Request) → limit (serve t r) ≡ limit t
  unfolding serve add remove
  limit-serve (no_limit n) adds = refl
  limit-serve (no_limit n) removes = ground arith
  limit-serve (hard c n) adds = ground arith
  limit-serve (hard c n) removes = ground arith
  limit-serve (quota t) adds = ground arith
  limit-serve (quota t) removes = ground arith

  serve_all-IsValid :
      (t : Tracker F) (rs : List Request)
      → IsValid t
      → IsValid (serve_all t rs) × (limit (serve_all t rs) ≡ limit t)
  unfolding serve_all
  serve_all-IsValid t [] v = (v, refl)
  serve_all-IsValid t (r ∷ rs) v =
      let rest = serve_all-IsValid (serve t r) rs (serve-IsValid t r v) in
      (rest.0, rest.1 ∙ limit-serve t r)

  len-le-limit : (t : Tracker F) (n : ℕ) → IsValid t → limit t ≡ some n → len t ≤ n
  len-le-limit (no_limit m) n v e = cc
  len-le-limit (hard c m) n v e = ground arith
  len-le-limit (quota t) n v e = ground arith

  -- Whatever a tracker adds and removes, it stays within its limit, if it has one.
  pub serve_all-Within :
      (t : Tracker F) (rs : List Request) → IsValid t → Within (limit t) (len (serve_all t rs))
  serve_all-Within t rs v =
      let all = serve_all-IsValid t rs v in
      elim (Option-cases (limit t)) [
        | inl e ↦ subst (λ n. Within n (len (serve_all t rs))) (sym e) tt
        | inr (n, e) ↦
            subst (λ n. Within n (len (serve_all t rs))) (sym e)
              (len-le-limit (serve_all t rs) n all.0 (all.1 ∙ e))
      ]

  -- A queue whose options `Validate` passes never counts more items than their hard limit, whatever it
  -- adds and removes, though the soft quota moves with the traffic.
  pub hard_limit_kept :
      (o : QueueOptions F) {v : QueueOptions F} (rs : List Request)
      → validate o ≡ inr v
      → len (serve_all (new_tracker v) rs) ≤ pos_part o.hard_limit
  hard_limit_kept o {v} rs h =
      let new = new_tracker-IsValid o h in
      let all = serve_all-IsValid (new_tracker v) rs new.0 in
      len-le-limit (serve_all (new_tracker v) rs) (pos_part o.hard_limit) all.0 (all.1 ∙ new.2)
