-- ===== src/Pubsub/Queue/Wakeups.antt =====
-- No wake-up of pubsub/queue.go is lost: what sleeps on a condition variable has nothing to do.
use fun.Prelude.{
  ◌<◌, ◌≡◌, refl, ◌⊎◌, inl, inr, true, false, Option, none, some, ◌∷◌, arith, ◌==◌, Bool-cases,
}
use mathlib.Core.Path.{subst}
use fun.Pubsub.Errors.{ContextError, Error}
use fun.Pubsub.Tracker.{Floats, Tracker, len}
use fun.Pubsub.Tracker.Limits.{IsValid}
use fun.Pubsub.Queue.{
  Ptr, Queue, Outcome, ok, panic, Turn, make_queue, pop, pop_front, unlink, iterator_waiter,
  pop_wake,
}
use fun.Pubsub.Queue.Blocking.{wait_pop_turn, drain, drain_turn, shutdown}
use fun.Pubsub.Queue.Iterate.{iterator_wait_turn, after, position}
use fun.Pubsub.Queue.Steps.{
  left_by, Step, Reach, made, next, Held, Reach-Held, wait_push_cases, wait_pop_cases,
  pop_front_cases,
}
use fun.Pubsub.Queue.Asleep.{
  NoneLost, push-NoneLost, unlink-NoneLost, pop_wake-NoneLost, drain_turn-NoneLost, drain-NoneLost,
  close-NoneLost, then_close-NoneLost,
}

module _ {F : Floats} {A : Type 0} where
  iterator_wait_cases :
      (ctx : Option ContextError) (q : Queue F A) (cursor : Option Ptr)
      → (left_by (iterator_wait_turn ctx q cursor) ≡ q)
        ⊎ ((q.closed ≡ false)
            × (after q (position q cursor) ≡ none)
            × (left_by (iterator_wait_turn ctx q cursor)
                ≡ record q { nupdates = iterator_waiter (position q cursor) ∷ q.nupdates }))
  unfolding iterator_wait_turn
  iterator_wait_cases ctx q cursor = ground arith

  shutdown-NoneLost :
      (ctx : Option ContextError) (q : Queue F A) → NoneLost q → NoneLost (left_by (shutdown ctx q))
  unfolding shutdown
  shutdown-NoneLost ctx q n = then_close-NoneLost (drain ctx q) (drain-NoneLost ctx q n)

  wait_pop-NoneLost :
      (z : A) (ctx : Option ContextError) (q : Queue F A) (t : Turn F A (Error ⊎ A))
      → Held q
      → wait_pop_turn z ctx q ≡ ok t
      → NoneLost q
      → NoneLost (left_by t)
  wait_pop-NoneLost z ctx q t (ps, h) w n = elim (wait_pop_cases z ctx q t w) [
    | inl e ↦ rw e n
    | inr (inl (c, l, (a, e))) ↦
        let (p, rest, at, left) = pop_front_cases z q (left_by t) a ps h l e in
        rw left (unlink-NoneLost z q p l n)
    | inr (inr (c, l, e)) ↦
        rw e (record { items_ok = ((c, l), n.items_ok); updates_ok = n.updates_ok })
  ]

  pop-stays :
      (z : A) (q : Queue F A)
      → (q.closed ≡ true) ⊎ ((len q.tracker == 0) ≡ true)
      → pop z q ≡ ok (none, q)
  unfolding pop
  pop-stays z q h = ground arith

  pop-takes :
      (z : A) (q r : Queue F A) (a : A)
      → q.closed ≡ false
      → (len q.tracker == 0) ≡ false
      → pop_front z q ≡ ok (a, r)
      → pop z q ≡ ok (some a, pop_wake (len q.tracker) r)
  unfolding pop
  pop-takes z q r a c l e = ground arith

  pop-panics :
      (z : A) (q : Queue F A)
      → q.closed ≡ false
      → (len q.tracker == 0) ≡ false
      → pop_front z q ≡ panic
      → pop z q ≡ panic
  unfolding pop
  pop-panics z q c l e = ground arith

  pop_cases :
      (z : A) (q q' : Queue F A) (o : Option A)
      → pop z q ≡ ok (o, q')
      → (q' ≡ q)
        ⊎ ((0 < len q.tracker)
            × ((a : A) × (r : Queue F A) × (pop_front z q ≡ ok (a, r))
                × (q' ≡ pop_wake (len q.tracker) r)))
  pop_cases z q q' o e = elim (Bool-cases q.closed) [
    | inl c ↦ inl (ground (arith, pop-stays z q (inl c)))
    | inr c ↦ elim (Bool-cases (len q.tracker == 0)) [
      | inl l ↦ inl (ground (arith, pop-stays z q (inr l)))
      | inr l ↦ inr (ground arith, go c l (pop_front z q) refl)
    ]
  ]
    where
      go :
          q.closed ≡ false
          → (len q.tracker == 0) ≡ false
          → (r : Outcome (A × Queue F A)) → pop_front z q ≡ r
          → (a : A) × (r : Queue F A) × (pop_front z q ≡ ok (a, r))
            × (q' ≡ pop_wake (len q.tracker) r)
      go c l panic p = absurd (cc (e, pop-panics z q c l p))
      go c l (ok (a, r)) p = (a, r, p, cc (e, pop-takes z q r a c l p))

  pop-NoneLost :
      (z : A) (q q' : Queue F A) (o : Option A)
      → Held q
      → pop z q ≡ ok (o, q')
      → NoneLost q
      → NoneLost q'
  pop-NoneLost z q q' o (ps, h) w n = elim (pop_cases z q q' o w) [
    | inl e ↦ rw e n
    | inr (l, (a, r, e, same)) ↦
        let (p, rest, at, left) = pop_front_cases z q r a ps h l e in
        rw (same, left)
          (pop_wake-NoneLost (len q.tracker) (unlink z q p) (unlink-NoneLost z q p l n))
  ]

  pub Step-NoneLost : (z : A) {q q' : Queue F A} → Step z q q' → Held q → NoneLost q → NoneLost q'
  Step-NoneLost z (Step.pushes q x) h n = push-NoneLost q x h.0 n
  Step-NoneLost z (Step.pops {q} {q'} o e) h n = pop-NoneLost z q q' o h e n
  Step-NoneLost z (Step.closes q) h n = close-NoneLost q
  Step-NoneLost z (Step.wait_pushes ctx q x) h n = elim (wait_push_cases ctx q x) [
    | inl e ↦ rw e n
    | inr (inl e) ↦ rw e (push-NoneLost q x h.0 n)
    | inr (inr (d, c, l, e)) ↦
        rw e (record { items_ok = n.items_ok; updates_ok = ((d, c, l), n.updates_ok) })
  ]
  Step-NoneLost z (Step.wait_pops ctx {q} t e same) h n =
      subst NoneLost same (wait_pop-NoneLost z ctx q t h e n)
  Step-NoneLost z (Step.drains ctx q) h n = drain-NoneLost ctx q n
  Step-NoneLost z (Step.drain_resumes ctx q l) h n = drain_turn-NoneLost ctx q n
  Step-NoneLost z (Step.shutdowns ctx q) h n = shutdown-NoneLost ctx q n
  Step-NoneLost z (Step.shutdown_resumes ctx q l) h n =
      then_close-NoneLost (drain_turn ctx q) (drain_turn-NoneLost ctx q n)
  Step-NoneLost z (Step.iterates ctx q cursor) h n = elim (iterator_wait_cases ctx q cursor) [
    | inl e ↦ rw e n
    | inr (c, a, e) ↦ rw e (record { items_ok = n.items_ok; updates_ok = ((c, a), n.updates_ok) })
  ]
  Step-NoneLost z (Step.cancel_wakes_empty q) h n = record {
    items_ok = tt;
    updates_ok = n.updates_ok;
  }
  Step-NoneLost z (Step.cancel_wakes_updates q) h n = record {
    items_ok = n.items_ok;
    updates_ok = tt;
  }

  -- In every state that a queue reaches from a valid empty tracker, each operation that sleeps on a
  -- condition variable would find nothing to do if it woke, unless its context has ended.
  pub no_lost_wakeup :
      (z : A) (t : Tracker F) {q : Queue F A} → IsValid t → len t ≡ 0 → Reach z t q → NoneLost q
  unfolding make_queue
  no_lost_wakeup z t v e made = record { items_ok = tt; updates_ok = tt }
  no_lost_wakeup z t v e (next r s) =
      Step-NoneLost z s (Reach-Held z t v e r) (no_lost_wakeup z t v e r)
