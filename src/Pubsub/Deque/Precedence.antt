-- ===== src/Pubsub/Deque/Precedence.antt =====
-- The rule of the comment on Queue for the blocking operations of pubsub/deque.go, and what a waiting
-- pop of a deque that holds its elements does when nothing speaks against it.
use fun.Prelude.{
  ◌≡◌, ◌≢◌, inl, inr, true, false, Option, none, some, List, [], arith, ltb, ◌==◌, ◌||◌,
  if◌then◌else◌,
}
use fun.Links.{Ptr}
use fun.Pubsub.Errors.{ContextError, queue_closed, queue_draining, context, drain_early}
use fun.Pubsub.Tracker.{Floats, len}
use fun.Pubsub.Deque.{Direction, Deque, ok, pop_waiter, pop}
use fun.Pubsub.Deque.Waits.{
  done, asleep, wait_push_turn, wait_pop_turn, drain, shutdown, fall_asleep, iterator_turn,
  iterator_move,
}
use fun.Pubsub.Deque.Holds.{Holds}
use fun.Pubsub.Deque.Refine.{view}
use fun.Pubsub.Deque.Ends.{end, end-empty, at_end, pop_refines}
use fun.Pubsub.Deque.Model.{pop_model}

module _ {F : Floats} {A : Type 0} (z : A) (q : Deque F A) (side : Direction) where
  -- On a closed deque each of the blocking operations returns at once with the deque unchanged,
  -- whatever the context says: the waiting pops, Drain and Shutdown report the close, and so do the
  -- waiting pushes unless a drain is outstanding, which they report; a waiting iterator moves on
  -- through what is left.
  pub deque_closed_first :
      (ctx : Option ContextError) (x : A) (cursor : Ptr)
      → q.closed ≡ true
      → (wait_pop_turn z ctx side q ≡ ok (done (inl queue_closed) q))
        × (drain ctx q ≡ done (some queue_closed) q)
        × (shutdown ctx q ≡ done (some queue_closed) q)
        × (wait_push_turn ctx q x side
            ≡ done (some (if ltb 0 q.drainers then queue_draining else queue_closed)) q)
        × (iterator_turn ctx true side cursor q ≡ done (iterator_move q cursor side) q)
  unfolding wait_pop_turn drain shutdown wait_push_turn iterator_turn
  deque_closed_first ctx x cursor c = ground arith

  -- On an open deque an ended context is reported before an item or room is taken, and the deque is
  -- unchanged: Shutdown does not close it, a waiting iterator ends, and a drain in progress comes first
  -- for the waiting pushes.
  pub deque_context_second :
      (e : ContextError) (x : A) (cursor : Ptr)
      → q.closed ≡ false
      → (wait_pop_turn z (some e) side q ≡ ok (done (inl (context e)) q))
        × (drain (some e) q ≡ done (some (drain_early e (len q.tracker))) q)
        × (shutdown (some e) q ≡ done (some (drain_early e (len q.tracker))) q)
        × (wait_push_turn (some e) q x side
            ≡ done (some (if ltb 0 q.drainers then queue_draining else context e)) q)
        × (iterator_turn (some e) true side cursor q ≡ done none q)
  unfolding wait_pop_turn drain shutdown wait_push_turn iterator_turn
  deque_context_second e x cursor c = ground arith

  wait_pop-sleeps :
      q.closed ≡ false
      → ((q.cells (end q side)).is_root || end q side == q.root) ≡ true
      → wait_pop_turn z none side q ≡ ok (asleep (fall_asleep side (pop_waiter side) q))
  unfolding wait_pop_turn
  wait_pop-sleeps c r = ground arith

  wait_pop-pops :
      (o : Option A) (q' : Deque F A)
      → q.closed ≡ false
      → ((q.cells (end q side)).is_root || end q side == q.root) ≡ false
      → pop z q (end q side) ≡ ok (o, q')
      → wait_pop_turn z none side q ≡ ok (done (inr o) q')
  unfolding wait_pop_turn
  wait_pop-pops o q' c r p = ground arith

  -- How a waiting pop with a live context ends: asleep with no element there, or with the item and the
  -- state that the pop of the model gives.
  pub data WaitPopEnds (ps : List Ptr) : Type 0 where
    sleeps :
        ps ≡ []
        → wait_pop_turn z none side q ≡ ok (asleep (fall_asleep side (pop_waiter side) q))
        → WaitPopEnds ps
    takes :
        (q' : Deque F A) (rest : List Ptr)
        → ps ≢ []
        → wait_pop_turn z none side q ≡ ok (done (inr (pop_model (view q ps) side).0) q')
        → Holds q' rest
        → view q' rest ≡ (pop_model (view q ps) side).1
        → WaitPopEnds ps

  -- A waiting pop with a live context on an open deque that holds its elements sleeps if there is none;
  -- otherwise it gives what the pop of the model gives, and never dereferences nil.
  pub wait_pop_live : (ps : List Ptr) → Holds q ps → q.closed ≡ false → WaitPopEnds ps
  wait_pop_live ps h c = elim (at_end q side ps h) [
    | inl e ↦ sleeps e (wait_pop-sleeps c (ground (arith, end-empty q side ps h e)))
    | inr a ↦
        let p = pop_refines z q side ps h in
        let r : ((q.cells (end q side)).is_root || end q side == q.root) ≡ false =
          ground (arith, h.live (end q side) a.here, a.here, h.apart) in
        takes p.left p.at (λ e. absurd (ground (arith, a.here, e)))
          (wait_pop-pops (pop_model (view q ps) side).0 p.left c r p.answer) p.holds p.state
  ]
