-- ===== src/Pubsub/Queue/Precedence.antt =====
-- The rule of the comment on Queue in pubsub/queue.go for every operation that blocks: which of a
-- close, a drain and an ended context is reported first, and what the operation leaves.
use fun.Prelude.{◌≡◌, inl, true, false, Option, none, some, ◌∷◌, arith, ltb, if◌then◌else◌}
use fun.Pubsub.Errors.{ContextError, queue_closed, queue_draining, context, drain_early}
use fun.Pubsub.Tracker.{Floats, len, cap}
use fun.Pubsub.Tracker.Limits.{add-below_cap}
use fun.Pubsub.Queue.{Queue, ok, done, asleep, push_waiter, push}
use fun.Pubsub.Queue.Blocking.{wait_push_turn, wait_pop_turn, drain, shutdown}

module _ {F : Floats} {A : Type 0} (z : A) (q : Queue F A) where
  -- On a closed queue each of the blocking operations returns at once with the queue unchanged,
  -- whatever the context says: WaitPop, Drain and Shutdown report the close, and so does WaitPush
  -- unless a drain is outstanding, which it reports.
  pub closed_first :
      (ctx : Option ContextError) (x : A)
      → q.closed ≡ true
      → (wait_pop_turn z ctx q ≡ ok (done (inl queue_closed) q))
        × (drain ctx q ≡ done (some queue_closed) q)
        × (shutdown ctx q ≡ done (some queue_closed) q)
        × (wait_push_turn ctx q x
            ≡ done (some (if ltb 0 q.drainers then queue_draining else queue_closed)) q)
  unfolding wait_pop_turn drain shutdown wait_push_turn
  closed_first ctx x c = ground arith

  -- On an open queue an ended context is reported before an item or room is taken, and the queue is
  -- unchanged: it is not closed by Shutdown, and a drain in progress comes first for WaitPush.
  pub context_second :
      (e : ContextError) (x : A)
      → q.closed ≡ false
      → (wait_pop_turn z (some e) q ≡ ok (done (inl (context e)) q))
        × (drain (some e) q ≡ done (some (drain_early e (len q.tracker))) q)
        × (shutdown (some e) q ≡ done (some (drain_early e (len q.tracker))) q)
        × (wait_push_turn (some e) q x
            ≡ done (some (if ltb 0 q.drainers then queue_draining else context e)) q)
  unfolding wait_pop_turn drain shutdown wait_push_turn
  context_second e x c = ground arith

  -- WaitPush with a live context on an open queue that is not draining pushes the item if the tracker
  -- has room, and then reports no error; otherwise it sleeps until the queue is updated.
  pub wait_push_room :
      (x : A)
      → q.closed ≡ false
      → q.drainers ≡ 0
      → wait_push_turn none q x ≡ (
          if ltb (len q.tracker) (cap q.tracker)
          then done none (push q x).1
          else asleep (record q { nupdates = push_waiter ∷ q.nupdates }))
  unfolding wait_push_turn push
  wait_push_room x c d = ground (arith, add-below_cap q.tracker)
