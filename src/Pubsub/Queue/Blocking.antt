-- ===== src/Pubsub/Queue/Blocking.antt =====
-- The blocking operations of pubsub/queue.go, turn by turn: WaitPush, WaitPop, Drain, Shutdown and
-- IteratorWaitPop. `ctx` is what `ctx.Err()` returns in this turn.
use fun.Prelude.{◌+◌, ◌-◌, ◌⊎◌, inl, inr, Option, none, some, [], ◌∷◌, ltb, ◌==◌, if◌then◌else◌}
use fun.Pubsub.Errors.{ContextError, Error, queue_closed, queue_draining, context, drain_early}
use fun.Pubsub.Tracker.{Floats, len, cap}
use fun.Pubsub.Queue.{
  Queue, Outcome, ok, panic, Turn, done, asleep, push_waiter, pop_waiter, drain_waiter, do_add,
  pop_front, close, pop,
}

module _ {F : Floats} {A : Type 0} where
  -- The loop of `WaitPush`.
  unfoldable pub wait_push_turn : Option ContextError → Queue F A → A → Turn F A (Option Error)
  unfolding do_add
  wait_push_turn ctx q item =
      if ltb 0 q.drainers
      then done (some queue_draining) q
      else if q.closed
      then done (some queue_closed) q
      else elim ctx [
        | some e ↦ done (some (context e)) q
        | none ↦
            if ltb (len q.tracker) (cap q.tracker)
            then (let (err, q') = do_add q item in done err q')
            else asleep (record q { nupdates = push_waiter ∷ q.nupdates })
      ]

  -- The loop of `waitForDrain`, with this drainer counted; the deferred decrement is at each return.
  unfoldable pub drain_turn : Option ContextError → Queue F A → Turn F A (Option Error)
  drain_turn ctx q =
      let leave = record q { drainers = q.drainers - 1 } in
      if len q.tracker == 0
      then done none leave
      else if q.closed
      then done (some queue_closed) leave
      else elim ctx [
        | some e ↦ done (some (drain_early e (len q.tracker))) leave
        | none ↦ asleep (record q { nempty = drain_waiter ∷ q.nempty })
      ]

  -- `waitForDrain` up to its first `Wait`, and so `Drain`.
  unfoldable pub drain : Option ContextError → Queue F A → Turn F A (Option Error)
  unfolding drain_turn
  drain ctx q = if q.closed then done (some queue_closed) q else elim ctx [
    | some e ↦ done (some (drain_early e (len q.tracker))) q
    | none ↦ drain_turn none (record q { drainers = q.drainers + 1; nupdates = [] })
  ]

  -- What `Shutdown` adds to a turn of `waitForDrain`: it closes the queue once that succeeds.
  unfoldable pub then_close : Turn F A (Option Error) → Turn F A (Option Error)
  unfolding close
  then_close (done none q) = done none (close q)
  then_close (done (some e) q) = done (some e) q
  then_close (asleep q) = asleep q

  -- `Shutdown`
  unfoldable pub shutdown : Option ContextError → Queue F A → Turn F A (Option Error)
  unfolding drain then_close
  shutdown ctx q = then_close (drain ctx q)

module _ {F : Floats} {A : Type 0} (zero_value : A) where
  -- The loop of `WaitPop`.
  unfoldable pub wait_pop_turn : Option ContextError → Queue F A → Outcome (Turn F A (Error ⊎ A))
  unfolding pop_front
  wait_pop_turn ctx q = if q.closed then ok (done (inl queue_closed) q) else elim ctx [
    | some e ↦ ok (done (inl (context e)) q)
    | none ↦
        if ltb 0 (len q.tracker)
        then (elim (pop_front zero_value q) [ panic ↦ panic | ok (a, q') ↦ ok (done (inr a) q') ])
        else ok (asleep (record q { nempty = pop_waiter ∷ q.nempty }))
  ]

  -- `IteratorWaitPop`: a `Pop`, and if that gives nothing a first turn of `WaitPop`. The mutex is
  -- free between the two, where `meanwhile` is what the other goroutines do.
  unfoldable pub iterator_wait_pop :
      (ctx ctx' : Option ContextError)
      → (meanwhile : Queue F A → Queue F A) → Queue F A
      → Outcome (Turn F A (Option A))
  unfolding pop wait_pop_turn
  iterator_wait_pop ctx ctx' meanwhile q = elim ctx [
    | some e ↦ ok (done none q)
    | none ↦ elim (pop zero_value q) [
      | panic ↦ panic
      | ok (some a, q') ↦ ok (done (some a) q')
      | ok (none, q') ↦ elim (wait_pop_turn ctx' (meanwhile q')) [
        | panic ↦ panic
        | ok (done (inr a) r) ↦ ok (done (some a) r)
        | ok (done (inl e) r) ↦ ok (done none r)
        | ok (asleep r) ↦ ok (asleep r)
      ]
    ]
  ]
