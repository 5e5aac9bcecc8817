-- ===== src/Pubsub/Queue/Steps.antt =====
-- All that goroutines and contexts do to a queue, as a step relation: a step is what one of them does
-- while it holds the mutex. Every state that is reached holds its entries.
use fun.Prelude.{
  ◌<◌, ◌≤◌, ◌≡◌, refl, ◌⊎◌, inl, inr, false, Option, none, some, List, [], ◌∷◌, arith,
}
use mathlib.Core.Path.{subst}
use fun.Pubsub.Errors.{ContextError, Error}
use fun.Pubsub.Tracker.{Floats, Tracker, len, cap}
use fun.Pubsub.Tracker.Limits.{IsValid}
use fun.Pubsub.Queue.{
  Ptr, Queue, ok, Turn, done, asleep, make_queue, push, pop, close, pop_front, unlink, push_waiter,
  pop_waiter,
}
use fun.Pubsub.Queue.Blocking.{
  wait_push_turn, wait_pop_turn, drain, drain_turn, shutdown, then_close,
}
use fun.Pubsub.Queue.Iterate.{iterator_wait_turn}
use fun.Pubsub.Queue.Holds.{Holds, make_queue-Holds, close-Holds, unlink-Holds, pop_front-cons}
use fun.Pubsub.Queue.Refine.{push_refines, pop_refines}

module _ {F : Floats} {A : Type 0} where
  -- The queue that a turn leaves.
  abbrev pub left_by : {R : Type 0} → Turn F A R → Queue F A
  left_by (done r q) = q
  left_by (asleep q) = q

  pub data Step (z : A) : Queue F A → Queue F A → Type 0 where
    pushes : (q : Queue F A) (x : A) → Step z q (push q x).1
    pops : {q q' : Queue F A} (o : Option A) → pop z q ≡ ok (o, q') → Step z q q'
    closes : (q : Queue F A) → Step z q (close q)
    wait_pushes :
        (ctx : Option ContextError) (q : Queue F A) (x : A)
        → Step z q (left_by (wait_push_turn ctx q x))
    wait_pops :
        (ctx : Option ContextError) {q q' : Queue F A} (t : Turn F A (Error ⊎ A))
        → wait_pop_turn z ctx q ≡ ok t
        → left_by t ≡ q'
        → Step z q q'
    drains : (ctx : Option ContextError) (q : Queue F A) → Step z q (left_by (drain ctx q))
    drain_resumes :
        (ctx : Option ContextError) (q : Queue F A)
        → 0 < q.drainers
        → Step z q (left_by (drain_turn ctx q))
    shutdowns : (ctx : Option ContextError) (q : Queue F A) → Step z q (left_by (shutdown ctx q))
    shutdown_resumes :
        (ctx : Option ContextError) (q : Queue F A)
        → 0 < q.drainers
        → Step z q (left_by (then_close (drain_turn ctx q)))
    iterates :
        (ctx : Option ContextError) (q : Queue F A) (cursor : Option Ptr)
        → Step z q (left_by (iterator_wait_turn ctx q cursor))
    -- The function that `wakeOnCancel` runs when a context ends.
    cancel_wakes_empty : (q : Queue F A) → Step z q (record q { nempty = [] })
    cancel_wakes_updates : (q : Queue F A) → Step z q (record q { nupdates = [] })

  -- What a queue with this tracker can become.
  pub data Reach (z : A) (t : Tracker F) : Queue F A → Type 0 where
    made : Reach z t (make_queue z t)
    next : {q q' : Queue F A} → Reach z t q → Step z q q' → Reach z t q'

  -- The queue holds some entries.
  abbrev pub Held : Queue F A → Type 0
  Held q = (ps : List Ptr) × Holds q ps

  drain_turn-Holds :
      (ctx : Option ContextError) (q : Queue F A) (ps : List Ptr)
      → Holds q ps
      → Holds (left_by (drain_turn ctx q)) ps
  unfolding drain_turn
  drain_turn-Holds ctx q ps h = ground arith

  drain-Holds :
      (ctx : Option ContextError) (q : Queue F A) (ps : List Ptr)
      → Holds q ps
      → Holds (left_by (drain ctx q)) ps
  unfolding drain
  drain-Holds ctx q ps h = ground arith

  iterator_wait_turn-Holds :
      (ctx : Option ContextError) (q : Queue F A) (cursor : Option Ptr) (ps : List Ptr)
      → Holds q ps
      → Holds (left_by (iterator_wait_turn ctx q cursor)) ps
  unfolding iterator_wait_turn
  iterator_wait_turn-Holds ctx q cursor ps h = ground arith

  then_close-Holds :
      (t : Turn F A (Option Error)) (ps : List Ptr)
      → Holds (left_by t) ps
      → Holds (left_by (then_close t)) ps
  unfolding then_close
  then_close-Holds (done none q) ps h = close-Holds q ps h
  then_close-Holds (done (some e) q) ps h = h
  then_close-Holds (asleep q) ps h = h

  -- The three ways in which a turn of `WaitPush` ends.
  pub wait_push_cases :
      (ctx : Option ContextError) (q : Queue F A) (x : A)
      → (left_by (wait_push_turn ctx q x) ≡ q)
        ⊎ (left_by (wait_push_turn ctx q x) ≡ (push q x).1)
        ⊎ ((q.drainers ≡ 0)
            × (q.closed ≡ false)
            × (cap q.tracker ≤ len q.tracker)
            × (left_by (wait_push_turn ctx q x) ≡ record q { nupdates = push_waiter ∷ q.nupdates }))
  unfolding wait_push_turn push
  wait_push_cases ctx q x = ground arith

  -- The three ways in which a turn of `WaitPop` ends.
  pub wait_pop_cases :
      (z : A) (ctx : Option ContextError) (q : Queue F A) (t : Turn F A (Error ⊎ A))
      → wait_pop_turn z ctx q ≡ ok t
      → (left_by t ≡ q)
        ⊎ ((q.closed ≡ false)
            × (0 < len q.tracker)
            × ((a : A) × (pop_front z q ≡ ok (a, left_by t))))
        ⊎ ((q.closed ≡ false)
            × (len q.tracker ≡ 0)
            × (left_by t ≡ record q { nempty = pop_waiter ∷ q.nempty }))
  unfolding wait_pop_turn
  wait_pop_cases z ctx q t e = ground arith

  shutdown-Holds :
      (ctx : Option ContextError) (q : Queue F A) (ps : List Ptr)
      → Holds q ps
      → Holds (left_by (shutdown ctx q)) ps
  unfolding shutdown
  shutdown-Holds ctx q ps h = then_close-Holds (drain ctx q) ps (drain-Holds ctx q ps h)

  wait_push_turn-Holds :
      (ctx : Option ContextError) (q : Queue F A) (x : A) (ps : List Ptr)
      → Holds q ps
      → Held (left_by (wait_push_turn ctx q x))
  wait_push_turn-Holds ctx q x ps h =
      let p = push_refines q x ps h in
      elim (wait_push_cases ctx q x) [
        | inl e ↦ rw e (ps, h)
        | inr (inl e) ↦ rw e (p.at, p.holds)
        | inr (inr (d, c, r, e)) ↦ rw e (ps, ground arith)
      ]

  -- What `popFront` leaves of a queue that is not empty.
  pub pop_front_cases :
      (z : A) (q q' : Queue F A) (a : A) (ps : List Ptr)
      → Holds q ps
      → 0 < len q.tracker
      → pop_front z q ≡ ok (a, q')
      → (e : Ptr) × (rest : List Ptr) × (ps ≡ e ∷ rest) × (q' ≡ unlink z q e)
  pop_front_cases z q q' a [] h l e = absurd (omega (arith, h.counted))
  pop_front_cases z q q' a (p ∷ ps) h l e = (p, ps, refl, ground (arith, pop_front-cons z q p ps h))

  wait_pop_turn-Holds :
      (z : A) (ctx : Option ContextError) (q : Queue F A) (ps : List Ptr) (t : Turn F A (Error ⊎ A))
      → Holds q ps
      → wait_pop_turn z ctx q ≡ ok t
      → Held (left_by t)
  wait_pop_turn-Holds z ctx q ps t h w = elim (wait_pop_cases z ctx q t w) [
    | inl e ↦ rw e (ps, h)
    | inr (inl (c, l, (a, e))) ↦
        let (p, rest, at, left) = pop_front_cases z q (left_by t) a ps h l e in
        rw left (rest, unlink-Holds z q p rest (subst (Holds q) at h))
    | inr (inr (c, l, e)) ↦ rw e (ps, ground arith)
  ]

  Step-Held : (z : A) {q q' : Queue F A} → Step z q q' → Held q → Held q'
  Step-Held z (pushes q x) h = let p = push_refines q x h.0 h.1 in (p.at, p.holds)
  Step-Held z (pops {q} {q'} o e) h =
      let p = pop_refines z q h.0 h.1 in
      let same : p.left ≡ q' = cc (p.answer, e) in subst Held same (p.at, p.holds)
  Step-Held z (closes q) h = (h.0, close-Holds q h.0 h.1)
  Step-Held z (wait_pushes ctx q x) h = wait_push_turn-Holds ctx q x h.0 h.1
  Step-Held z (wait_pops ctx {q} t e same) h =
      subst Held same (wait_pop_turn-Holds z ctx q h.0 t h.1 e)
  Step-Held z (drains ctx q) h = (h.0, drain-Holds ctx q h.0 h.1)
  Step-Held z (drain_resumes ctx q l) h = (h.0, drain_turn-Holds ctx q h.0 h.1)
  Step-Held z (shutdowns ctx q) h = (h.0, shutdown-Holds ctx q h.0 h.1)
  Step-Held z (shutdown_resumes ctx q l) h =
      (h.0, then_close-Holds (drain_turn ctx q) h.0 (drain_turn-Holds ctx q h.0 h.1))
  Step-Held z (iterates ctx q cursor) h = (h.0, iterator_wait_turn-Holds ctx q cursor h.0 h.1)
  Step-Held z (cancel_wakes_empty q) (ps, h) = (ps, ground arith)
  Step-Held z (cancel_wakes_updates q) (ps, h) = (ps, ground arith)

  -- Every state that a queue reaches from a valid empty tracker holds its entries: its links lead
  -- through live entries to the newest, and its tracker counts them within its limits.
  pub Reach-Held :
      (z : A) (t : Tracker F) {q : Queue F A} → IsValid t → len t ≡ 0 → Reach z t q → Held q
  Reach-Held z t v e made = ([], make_queue-Holds z t e v)
  Reach-Held z t v e (next r s) = Step-Held z s (Reach-Held z t v e r)
