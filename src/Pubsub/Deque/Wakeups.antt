-- ===== src/Pubsub/Deque/Wakeups.antt =====
-- No wake-up of pubsub/deque.go is lost: what sleeps on a condition variable has nothing to do.
use fun.Prelude.{
  ◌≡◌, refl, ap, length, ◌∙◌, ◌⊎◌, inl, inr, Bool, true, ◌||◌, Option, List, [], arith, ◌==◌,
}
use mathlib.Core.Path.{subst}
use fun.Links.{Ptr}
use fun.Pubsub.Errors.{ContextError, Error}
use fun.Pubsub.Tracker.{Floats, Tracker, len}
use fun.Pubsub.Tracker.Limits.{IsValid}
use fun.Pubsub.Deque.{Direction, pop_waiter, iterator_waiter, Deque, ok, make_deque}
use fun.Pubsub.Deque.Waits.{Turn, wait_pop_turn, drain_turn, iterator_turn}
use fun.Pubsub.Deque.Holds.{Holds}
use fun.Pubsub.Deque.Ends.{end, at_end}
use fun.Pubsub.Deque.Steps.{
  left_by, Step, Reach, made, next, Held, deque_Reach-Held, wait_pop_cases, iterator_cases,
}
use fun.Pubsub.Deque.Asleep.{
  NoneLost, booked-NoneLost, fall_asleep-NoneLost, add_item-NoneLost, pop-NoneLost,
  force_push-NoneLost, drain_turn-NoneLost, drain-NoneLost, close-NoneLost, then_close-NoneLost,
  shutdown-NoneLost, wait_push-NoneLost,
}

module _ {F : Floats} {A : Type 0} where
  -- A deque whose end is the root has no items.
  root_end-empty :
      (q : Deque F A) (side : Direction) (ps : List Ptr)
      → Holds q ps
      → ((q.cells (end q side)).is_root || end q side == q.root) ≡ true
      → len q.tracker ≡ 0
  root_end-empty q side ps h r = elim (at_end q side ps h) [
    | inl e ↦ h.counted ∙ ap length e
    | inr a ↦ absurd (ground (arith, h.live (end q side) a.here, a.here, h.apart))
  ]

  wait_pop-NoneLost :
      (z : A) (ctx : Option ContextError) (q : Deque F A) (side : Direction)
      (t : Turn F A (Error ⊎ Option A))
      → wait_pop_turn z ctx side q ≡ ok t
      → Held q
      → NoneLost q
      → NoneLost (left_by t)
  wait_pop-NoneLost z ctx q side t w (ps, h) n = elim (wait_pop_cases z ctx q side t w) [
    | inl e ↦ rw e n
    | inr (inl (o, e)) ↦ pop-NoneLost z q (left_by t) (end q side) o e n
    | inr (inr (c, r, e)) ↦
        rw e
          (fall_asleep-NoneLost q side (pop_waiter side) (refl, c, root_end-empty q side ps h r) n)
  ]

  iterator-NoneLost :
      (ctx : Option ContextError) (q : Deque F A) (blocking : Bool) (side : Direction)
      (cursor : Ptr)
      → NoneLost q
      → NoneLost (left_by (iterator_turn ctx blocking side cursor q))
  iterator-NoneLost ctx q blocking side cursor n =
      elim (iterator_cases ctx q blocking side cursor) [
        | inl e ↦ rw e n
        | inr (c, r, e) ↦
            rw e (fall_asleep-NoneLost q side (iterator_waiter side cursor) (refl, c, r) n)
      ]

  Step-NoneLost : (z : A) {q q' : Deque F A} → Step z q q' → Held q → NoneLost q → NoneLost q'
  Step-NoneLost z (Step.pushes q side x) h n = add_item-NoneLost q x side n
  Step-NoneLost z (Step.pops {q} {q'} side o e) h n = pop-NoneLost z q q' (end q side) o e n
  Step-NoneLost z (Step.force_pushes {q} {q'} side x a e) h n =
      force_push-NoneLost z q q' x side a e h n
  Step-NoneLost z (Step.closes q) h n = close-NoneLost q
  Step-NoneLost z (Step.wait_pushes ctx q side x) h n = wait_push-NoneLost ctx q side x n
  Step-NoneLost z (Step.wait_pops ctx {q} side t e same) h n =
      subst NoneLost same (wait_pop-NoneLost z ctx q side t e h n)
  Step-NoneLost z (Step.drains ctx q) h n = drain-NoneLost ctx q n
  Step-NoneLost z (Step.drain_resumes ctx q l) h n = drain_turn-NoneLost ctx q n
  Step-NoneLost z (Step.shutdowns ctx q) h n = shutdown-NoneLost ctx q n
  Step-NoneLost z (Step.shutdown_resumes ctx q l) h n =
      then_close-NoneLost (drain_turn ctx q) (drain_turn-NoneLost ctx q n)
  Step-NoneLost z (Step.iterates ctx q b side cursor) h n = iterator-NoneLost ctx q b side cursor n
  Step-NoneLost z (Step.cancel_wakes_front q) h n =
      booked-NoneLost q [] q.nback q.updates q.drainers tt n.back_ok n.updates_ok
  Step-NoneLost z (Step.cancel_wakes_back q) h n =
      booked-NoneLost q q.nfront [] q.updates q.drainers n.front_ok tt n.updates_ok
  Step-NoneLost z (Step.cancel_wakes_updates q) h n =
      booked-NoneLost q q.nfront q.nback [] q.drainers n.front_ok n.back_ok tt

  -- In every state that a deque reaches from a valid empty tracker, each operation that sleeps on a
  -- condition variable would find nothing to do if it woke, unless its context has ended.
  pub deque_no_lost_wakeup :
      (z : A) (t : Tracker F) {q : Deque F A} → IsValid t → len t ≡ 0 → Reach z t q → NoneLost q
  unfolding make_deque
  deque_no_lost_wakeup z t v e made = record { front_ok = tt; back_ok = tt; updates_ok = tt }
  deque_no_lost_wakeup z t v e (next r s) =
      Step-NoneLost z s (deque_Reach-Held z t v e r) (deque_no_lost_wakeup z t v e r)
