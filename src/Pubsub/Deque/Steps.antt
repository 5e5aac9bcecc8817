-- ===== src/Pubsub/Deque/Steps.antt =====
-- All that goroutines and contexts do to a deque, as a step relation: a step is what one of them does
-- while it holds the mutex. Every state that is reached holds its elements.
use fun.Prelude.{
  ◌+◌, ◌-◌, ◌||◌, ℕ, ◌<◌, ◌≤◌, ◌≡◌, ◌⊎◌, inl, inr, Bool, true, false, Option, none, some, List, [],
  ◌∷◌, arith, ◌==◌,
}
use mathlib.Core.Path.{subst}
use fun.Links.{Ptr}
use fun.Pubsub.Errors.{ContextError, Error}
use fun.Pubsub.Tracker.{Floats, Tracker, len, cap}
use fun.Pubsub.Tracker.Limits.{IsValid}
use fun.Pubsub.Deque.{
  Direction, dq_next, dq_prev, Waiter, push_waiter, drain_waiter, pop_waiter, iterator_waiter,
  Deque, ok, make_deque, add_item, pop, force_push, close,
}
use fun.Pubsub.Deque.Waits.{
  Turn, done, asleep, wait_push_turn, wait_pop_turn, drain_turn, drain, then_close, shutdown,
  fall_asleep, neighbor, iterator_turn,
}
use fun.Pubsub.Deque.Holds.{Holds, make_deque-Holds, close-Holds}
use fun.Pubsub.Deque.Refine.{push_refines}
use fun.Pubsub.Deque.Ends.{end, pop_refines}
use fun.Pubsub.Deque.Model.{other}
use fun.Pubsub.Deque.Run.{force_push_refines}

module _ {F : Floats} {A : Type 0} where
  -- The deque that a turn leaves.
  abbrev pub left_by : {R : Type 0} → Turn F A R → Deque F A
  left_by (done r q) = q
  left_by (asleep q) = q

  pub data Step (z : A) : Deque F A → Deque F A → Type 0 where
    pushes : (q : Deque F A) (side : Direction) (x : A) → Step z q (add_item q x side).1
    pops :
        {q q' : Deque F A} (side : Direction) (o : Option A)
        → pop z q (end q side) ≡ ok (o, q')
        → Step z q q'
    force_pushes :
        {q q' : Deque F A} (side : Direction) (x : A) (e : Option Error)
        → force_push z q x side (other side) ≡ ok (e, q')
        → Step z q q'
    closes : (q : Deque F A) → Step z q (close q)
    wait_pushes :
        (ctx : Option ContextError) (q : Deque F A) (side : Direction) (x : A)
        → Step z q (left_by (wait_push_turn ctx q x side))
    wait_pops :
        (ctx : Option ContextError) {q q' : Deque F A} (side : Direction)
        (t : Turn F A (Error ⊎ Option A))
        → wait_pop_turn z ctx side q ≡ ok t
        → left_by t ≡ q'
        → Step z q q'
    drains : (ctx : Option ContextError) (q : Deque F A) → Step z q (left_by (drain ctx q))
    drain_resumes :
        (ctx : Option ContextError) (q : Deque F A)
        → 0 < q.drainers
        → Step z q (left_by (drain_turn ctx q))
    shutdowns : (ctx : Option ContextError) (q : Deque F A) → Step z q (left_by (shutdown ctx q))
    shutdown_resumes :
        (ctx : Option ContextError) (q : Deque F A)
        → 0 < q.drainers
        → Step z q (left_by (then_close (drain_turn ctx q)))
    iterates :
        (ctx : Option ContextError) (q : Deque F A) (blocking : Bool) (side : Direction)
        (cursor : Ptr)
        → Step z q (left_by (iterator_turn ctx blocking side cursor q))
    -- The function that `wakeOnCancel` runs when a context ends.
    cancel_wakes_front : (q : Deque F A) → Step z q (record q { nfront = [] })
    cancel_wakes_back : (q : Deque F A) → Step z q (record q { nback = [] })
    cancel_wakes_updates : (q : Deque F A) → Step z q (record q { updates = [] })

  -- What a deque with this tracker can become.
  pub data Reach (z : A) (t : Tracker F) : Deque F A → Type 0 where
    made : Reach z t (make_deque z t)
    next : {q q' : Deque F A} → Reach z t q → Step z q q' → Reach z t q'

  -- The deque holds some elements.
  abbrev pub Held : Deque F A → Type 0
  Held q = (ps : List Ptr) × Holds q ps

  -- Who sleeps and who drains is not part of the representation.
  booked-Holds :
      (q : Deque F A) (fs bs us : List Waiter) (d : ℕ) (ps : List Ptr)
      → Holds q ps
      → Holds (record q { nfront = fs; nback = bs; updates = us; drainers = d }) ps
  booked-Holds q fs bs us d ps h = record {
    chain = h.chain;
    distinct = h.distinct;
    apart = h.apart;
    live = λ p i.
        let k = h.live p i in
        record { not_nil = k.not_nil; old = k.old; no_root = k.no_root; kept = k.kept };
    root_not_nil = h.root_not_nil;
    root_old = h.root_old;
    root_is = h.root_is;
    root_kept = h.root_kept;
    counted = h.counted;
    limits_ok = h.limits_ok;
  }

  pub drain_turn_cases :
      (ctx : Option ContextError) (q : Deque F A)
      → (left_by (drain_turn ctx q) ≡ record q { drainers = q.drainers - 1 })
        ⊎ ((q.closed ≡ false)
            × (0 < len q.tracker)
            × (left_by (drain_turn ctx q) ≡ record q { updates = drain_waiter ∷ q.updates }))
  unfolding drain_turn
  drain_turn_cases ctx q = ground arith

  pub drain_cases :
      (ctx : Option ContextError) (q : Deque F A)
      → (left_by (drain ctx q) ≡ q)
        ⊎ (left_by (drain ctx q)
            ≡ left_by (drain_turn none (record q { drainers = q.drainers + 1; updates = [] })))
  unfolding drain
  drain_cases ctx q = ground arith

  drain_turn-Holds :
      (ctx : Option ContextError) (q : Deque F A) (ps : List Ptr)
      → Holds q ps
      → Holds (left_by (drain_turn ctx q)) ps
  drain_turn-Holds ctx q ps h = elim (drain_turn_cases ctx q) [
    | inl e ↦ rw e (booked-Holds q q.nfront q.nback q.updates (q.drainers - 1) ps h)
    | inr (c, l, e) ↦
        rw e (booked-Holds q q.nfront q.nback (drain_waiter ∷ q.updates) q.drainers ps h)
  ]

  drain-Holds :
      (ctx : Option ContextError) (q : Deque F A) (ps : List Ptr)
      → Holds q ps
      → Holds (left_by (drain ctx q)) ps
  drain-Holds ctx q ps h = elim (drain_cases ctx q) [
    | inl e ↦ rw e h
    | inr e ↦ rw e (
        drain_turn-Holds none (record q { drainers = q.drainers + 1; updates = [] }) ps
          (booked-Holds q q.nfront q.nback [] (q.drainers + 1) ps h))
  ]

  then_close-Holds :
      (t : Turn F A (Option Error)) (ps : List Ptr)
      → Holds (left_by t) ps
      → Holds (left_by (then_close t)) ps
  unfolding then_close
  then_close-Holds (done none q) ps h = close-Holds q ps h
  then_close-Holds (done (some e) q) ps h = h
  then_close-Holds (asleep q) ps h = h

  shutdown-Holds :
      (ctx : Option ContextError) (q : Deque F A) (ps : List Ptr)
      → Holds q ps
      → Holds (left_by (shutdown ctx q)) ps
  unfolding shutdown
  shutdown-Holds ctx q ps h = then_close-Holds (drain ctx q) ps (drain-Holds ctx q ps h)

  fall_asleep-Holds :
      (q : Deque F A) (side : Direction) (w : Waiter) (ps : List Ptr)
      → Holds q ps
      → Holds (fall_asleep side w q) ps
  fall_asleep-Holds q dq_next w ps h =
      booked-Holds q (w ∷ q.nfront) q.nback q.updates q.drainers ps h
  fall_asleep-Holds q dq_prev w ps h =
      booked-Holds q q.nfront (w ∷ q.nback) q.updates q.drainers ps h

  -- The three ways in which a turn of a waiting push ends.
  pub wait_push_cases :
      (ctx : Option ContextError) (q : Deque F A) (side : Direction) (x : A)
      → (left_by (wait_push_turn ctx q x side) ≡ q)
        ⊎ (left_by (wait_push_turn ctx q x side) ≡ (add_item q x side).1)
        ⊎ ((q.drainers ≡ 0)
            × (q.closed ≡ false)
            × (cap q.tracker ≤ len q.tracker)
            × (left_by (wait_push_turn ctx q x side)
                ≡ record q { updates = push_waiter ∷ q.updates }))
  unfolding wait_push_turn
  wait_push_cases ctx q side x = ground arith

  -- The three ways in which a turn of a waiting pop ends.
  pub wait_pop_cases :
      (z : A) (ctx : Option ContextError) (q : Deque F A) (side : Direction)
      (t : Turn F A (Error ⊎ Option A))
      → wait_pop_turn z ctx side q ≡ ok t
      → (left_by t ≡ q)
        ⊎ ((o : Option A) × (pop z q (end q side) ≡ ok (o, left_by t)))
        ⊎ ((q.closed ≡ false)
            × (((q.cells (end q side)).is_root || end q side == q.root) ≡ true)
            × (left_by t ≡ fall_asleep side (pop_waiter side) q))
  unfolding wait_pop_turn
  wait_pop_cases z ctx q side t e = ground arith

  pub iterator_cases :
      (ctx : Option ContextError) (q : Deque F A) (blocking : Bool) (side : Direction)
      (cursor : Ptr)
      → (left_by (iterator_turn ctx blocking side cursor q) ≡ q)
        ⊎ ((q.closed ≡ false)
            × (neighbor q cursor side ≡ q.root)
            × (left_by (iterator_turn ctx blocking side cursor q)
                ≡ fall_asleep side (iterator_waiter side cursor) q))
  unfolding iterator_turn
  iterator_cases ctx q blocking side cursor = ground arith

  wait_push_turn-Held :
      (ctx : Option ContextError) (q : Deque F A) (side : Direction) (x : A)
      → Held q
      → Held (left_by (wait_push_turn ctx q x side))
  wait_push_turn-Held ctx q side x (ps, h) =
      let p = push_refines q x side ps h in
      elim (wait_push_cases ctx q side x) [
        | inl e ↦ rw e (ps, h)
        | inr (inl e) ↦ rw e (p.at, p.holds)
        | inr (inr (d, c, l, e)) ↦
            rw e (ps, booked-Holds q q.nfront q.nback (push_waiter ∷ q.updates) q.drainers ps h)
      ]

  pop-Held :
      (z : A) (q q' : Deque F A) (side : Direction) (o : Option A)
      → pop z q (end q side) ≡ ok (o, q')
      → Held q
      → Held q'
  pop-Held z q q' side o e (ps, h) =
      let p = pop_refines z q side ps h in
      let same : p.left ≡ q' = cc (p.answer, e) in subst Held same (p.at, p.holds)

  wait_pop_turn-Held :
      (z : A) (ctx : Option ContextError) (q : Deque F A) (side : Direction)
      (t : Turn F A (Error ⊎ Option A))
      → wait_pop_turn z ctx side q ≡ ok t
      → Held q
      → Held (left_by t)
  wait_pop_turn-Held z ctx q side t w (ps, h) = elim (wait_pop_cases z ctx q side t w) [
    | inl e ↦ rw e (ps, h)
    | inr (inl (o, e)) ↦ pop-Held z q (left_by t) side o e (ps, h)
    | inr (inr (c, l, e)) ↦ rw e (ps, fall_asleep-Holds q side (pop_waiter side) ps h)
  ]

  iterator_turn-Held :
      (ctx : Option ContextError) (q : Deque F A) (blocking : Bool) (side : Direction)
      (cursor : Ptr)
      → Held q
      → Held (left_by (iterator_turn ctx blocking side cursor q))
  iterator_turn-Held ctx q blocking side cursor (ps, h) =
      elim (iterator_cases ctx q blocking side cursor) [
        | inl e ↦ rw e (ps, h)
        | inr (c, l, e) ↦ rw e (ps, fall_asleep-Holds q side (iterator_waiter side cursor) ps h)
      ]

  Step-Held : (z : A) {q q' : Deque F A} → Step z q q' → Held q → Held q'
  Step-Held z (pushes q side x) h = let p = push_refines q x side h.0 h.1 in (p.at, p.holds)
  Step-Held z (pops {q} {q'} side o e) h = pop-Held z q q' side o e h
  Step-Held z (force_pushes {q} {q'} side x a e) h =
      let p = force_push_refines z q x side h.0 h.1 in
      let same : p.left ≡ q' = cc (p.answer, e) in subst Held same (p.at, p.holds)
  Step-Held z (closes q) h = (h.0, close-Holds q h.0 h.1)
  Step-Held z (wait_pushes ctx q side x) h = wait_push_turn-Held ctx q side x h
  Step-Held z (wait_pops ctx {q} side t e same) h =
      subst Held same (wait_pop_turn-Held z ctx q side t e h)
  Step-Held z (drains ctx q) h = (h.0, drain-Holds ctx q h.0 h.1)
  Step-Held z (drain_resumes ctx q l) h = (h.0, drain_turn-Holds ctx q h.0 h.1)
  Step-Held z (shutdowns ctx q) h = (h.0, shutdown-Holds ctx q h.0 h.1)
  Step-Held z (shutdown_resumes ctx q l) h =
      (h.0, then_close-Holds (drain_turn ctx q) h.0 (drain_turn-Holds ctx q h.0 h.1))
  Step-Held z (iterates ctx q b side cursor) h = iterator_turn-Held ctx q b side cursor h
  Step-Held z (cancel_wakes_front q) h =
      (h.0, booked-Holds q [] q.nback q.updates q.drainers h.0 h.1)
  Step-Held z (cancel_wakes_back q) h =
      (h.0, booked-Holds q q.nfront [] q.updates q.drainers h.0 h.1)
  Step-Held z (cancel_wakes_updates q) h =
      (h.0, booked-Holds q q.nfront q.nback [] q.drainers h.0 h.1)

  -- Every state that a deque reaches from a valid empty tracker holds its elements: its links lead
  -- through them and back, and its tracker counts them within its limits.
  pub deque_Reach-Held :
      (z : A) (t : Tracker F) {q : Deque F A} → IsValid t → len t ≡ 0 → Reach z t q → Held q
  deque_Reach-Held z t v e made = ([], make_deque-Holds z t e v)
  deque_Reach-Held z t v e (next r s) = Step-Held z s (deque_Reach-Held z t v e r)
