-- ===== src/Pubsub/Deque/Waits.antt =====
-- The blocking operations of pubsub/deque.go, turn by turn: the waiting pushes and pops, Drain and
-- Shutdown, and the iterators. `ctx` is what `ctx.Err()` returns in this turn.
use fun.Prelude.{
  ℕ, zero, suc, ◌+◌, ◌-◌, Bool, ◌&&◌, ◌||◌, not, Option, none, some, [], ◌∷◌, ltb, ◌==◌,
  if◌then◌else◌, ◌⊎◌, inl, inr,
}
use fun.Prelude.Int.{ℤ, leb_ℤ}
use fun.Links.{Ptr}
use fun.Pubsub.Errors.{ContextError, Error, queue_closed, queue_draining, context, drain_early}
use fun.Pubsub.Tracker.{Floats, len, cap}
use fun.Pubsub.Deque.{
  Direction, dq_next, dq_prev, Element, next_or_previous, Waiter, push_waiter, drain_waiter,
  pop_waiter, iterator_waiter, Deque, Outcome, ok, panic, add_item, pop, close,
}

-- A turn of a blocking call: it returns, or it goes to sleep, in the deque that it leaves.
pub data Turn (F : Floats) (A R : Type 0) : Type 0 where
  done : R → Deque F A → Turn F A R
  asleep : Deque F A → Turn F A R

-- Whether an element numbered `m` is not yet past the number `n`, in that direction.
abbrev behind : Direction → ℤ → ℤ → Bool
behind dq_next m n = leb_ℤ m n
behind dq_prev m n = leb_ℤ n m

-- The loops of `neighbor`, from an element of the deque to the first one past the number `n`.
pub seek : {A : Type 0} → ℕ → (Ptr → Element A) → (root : Ptr) → Direction → ℤ → Ptr → Ptr
seek zero cells root direction n p = p
seek (suc fuel) cells root direction n p =
    let rest = seek fuel cells root direction n (next_or_previous (cells p) direction) in
    if not (p == root) && behind direction (cells p).seq n then rest else p

module _ {F : Floats} {A : Type 0} where
  -- The loop of `waitPushAfter`.
  unfoldable pub wait_push_turn :
      Option ContextError → Deque F A → A → Direction → Turn F A (Option Error)
  unfolding add_item
  wait_push_turn ctx q item side =
      if ltb 0 q.drainers
      then done (some queue_draining) q
      else if q.closed
      then done (some queue_closed) q
      else elim ctx [
        | some e ↦ done (some (context e)) q
        | none ↦
            if ltb (len q.tracker) (cap q.tracker)
            then (let (err, q') = add_item q item side in done err q')
            else asleep (record q { updates = push_waiter ∷ q.updates })
      ]

  -- The loop of `waitForDrain`, with this drainer counted; the deferred decrement is at each return.
  unfoldable pub drain_turn : Option ContextError → Deque F A → Turn F A (Option Error)
  drain_turn ctx q =
      let leave = record q { drainers = q.drainers - 1 } in
      if len q.tracker == 0
      then done none leave
      else if q.closed
      then done (some queue_closed) leave
      else elim ctx [
        | some e ↦ done (some (drain_early e (len q.tracker))) leave
        | none ↦ asleep (record q { updates = drain_waiter ∷ q.updates })
      ]

  -- `waitForDrain` up to its first `Wait`, and so `Drain`.
  unfoldable pub drain : Option ContextError → Deque F A → Turn F A (Option Error)
  unfolding drain_turn
  drain ctx q = if q.closed then done (some queue_closed) q else elim ctx [
    | some e ↦ done (some (drain_early e (len q.tracker))) q
    | none ↦ drain_turn none (record q { drainers = q.drainers + 1; updates = [] })
  ]

  -- What `Shutdown` adds to a turn of `waitForDrain`: it closes the deque once that succeeds.
  unfoldable pub then_close : Turn F A (Option Error) → Turn F A (Option Error)
  unfolding close
  then_close (done none q) = done none (close q)
  then_close (done (some e) q) = done (some e) q
  then_close (asleep q) = asleep q

  -- `Shutdown`
  unfoldable pub shutdown : Option ContextError → Deque F A → Turn F A (Option Error)
  unfolding drain then_close
  shutdown ctx q = then_close (drain ctx q)

  -- `cond.Wait()` in `await`, on the condition variable of the direction.
  abbrev pub fall_asleep : Direction → Waiter → Deque F A → Deque F A
  fall_asleep dq_next w q = record q { nfront = w ∷ q.nfront }
  fall_asleep dq_prev w q = record q { nback = w ∷ q.nback }

  -- The loop of `await`: whether it ends with an error, or goes to sleep as the waiter.
  unfoldable pub await_turn :
      Option ContextError
      → Direction
      → (ready : Bool) → Waiter
      → Deque F A
      → Turn F A (Option Error)
  await_turn ctx direction ready w q = if q.closed then done none q else elim ctx [
    | some e ↦ done (some (context e)) q
    | none ↦ if ready then done none q else asleep (fall_asleep direction w q)
  ]

  -- `neighbor`; no loop takes more steps than the deque is long.
  unfoldable pub neighbor : Deque F A → Ptr → Direction → Ptr
  unfolding seek
  neighbor q from direction =
      if (q.cells from).removed
      then seek (suc (len q.tracker)) q.cells q.root direction (q.cells from).seq
          (next_or_previous (q.cells q.root) direction)
      else next_or_previous (q.cells from) direction

  -- The answer of `op` in `iter` once it no longer waits: the item and the cursor after it.
  unfoldable pub iterator_move : Deque F A → Ptr → Direction → Option (A × Ptr)
  unfolding neighbor
  iterator_move q current direction =
      let next = neighbor q current direction in
      if next == q.root then none else some ((q.cells next).item, next)

  -- `op` in `iter`, a turn of it where it waits; the cursor is the root at first.
  unfoldable pub iterator_turn :
      Option ContextError
      → (blocking : Bool) → Direction
      → Ptr
      → Deque F A
      → Turn F A (Option (A × Ptr))
  unfolding iterator_move await_turn neighbor
  iterator_turn ctx blocking direction current q =
      let ready = q.closed || not (neighbor q current direction == q.root) in
      if blocking
      then (elim (await_turn ctx direction ready (iterator_waiter direction current) q) [
        | done (some e) q' ↦ done none q'
        | done none q' ↦ done (iterator_move q' current direction) q'
        | asleep q' ↦ asleep q'
      ])
      else done (iterator_move q current direction) q

module _ {F : Floats} {A : Type 0} (zero_value : A) where
  -- `waitPop`
  unfoldable pub wait_pop_turn :
      Option ContextError → Direction → Deque F A → Outcome (Turn F A (Error ⊎ Option A))
  unfolding await_turn pop
  wait_pop_turn ctx direction q =
      let first = next_or_previous (q.cells q.root) direction in
      let empty = (q.cells first).is_root || first == q.root in
      let ready = q.closed || not empty in
      elim (await_turn ctx direction ready (pop_waiter direction) q) [
        | done (some e) q' ↦ ok (done (inl e) q')
        | done none q' ↦
            if q'.closed
            then ok (done (inl queue_closed) q')
            else (elim (pop zero_value q' (next_or_previous (q'.cells q'.root) direction)) [
              | panic ↦ panic
              | ok (out, q'') ↦ ok (done (inr out) q'')
            ])
        | asleep q' ↦ ok (asleep q')
      ]
