-- ===== src/Pubsub/Queue/Iterate.antt =====
-- The iterators of pubsub/queue.go that leave the queue as it is: Iterator and IteratorWait.
use fun.Prelude.{ℕ, zero, suc, Option, none, some, List, [], ◌∷◌, if◌then◌else◌}
use fun.Pubsub.Errors.{ContextError}
use fun.Pubsub.Tracker.{Floats}
use fun.Pubsub.Queue.{Ptr, Queue, Turn, done, asleep, iterator_waiter}

module _ {F : Floats} {A : Type 0} where
  -- `after`: the entry behind the cursor, or the oldest one if the cursor's has been popped.
  abbrev pub after : Queue F A → Ptr → Option Ptr
  after q cursor = if (q.cells cursor).popped then (q.cells q.front).link else (q.cells cursor).link

  -- Where a cursor stands; a new one is put at the sentinel.
  abbrev pub position : Queue F A → Option Ptr → Ptr
  position q none = q.front
  position q (some c) = c

  -- The entry behind an iterator's cursor, with its item.
  unfoldable pub advance : Queue F A → Option Ptr → Option (A × Ptr)
  advance q cursor = elim (after q (position q cursor)) [
    | none ↦ none
    | some p ↦ some ((q.cells p).item, p)
  ]

  -- A step of `Iterator`
  unfoldable pub iterator_step : Queue F A → Option Ptr → Option (A × Ptr)
  unfolding advance
  iterator_step q cursor = if q.closed then none else advance q cursor

  -- `Iterator` over a queue that nobody changes meanwhile, for at most `fuel` items.
  unfoldable pub iterator : ℕ → Queue F A → Option Ptr → List A
  unfolding iterator_step
  iterator zero q cursor = []
  iterator (suc fuel) q cursor = elim (iterator_step q cursor) [
    | none ↦ []
    | some (a, p) ↦ a ∷ iterator fuel q (some p)
  ]

  -- The loop of `IteratorWait`; on a closed queue it still yields what is left.
  unfoldable pub iterator_wait_turn :
      Option ContextError → Queue F A → Option Ptr → Turn F A (Option (A × Ptr))
  unfolding advance
  iterator_wait_turn ctx q cursor = if q.closed then done (advance q cursor) q else elim ctx [
    | some e ↦ done none q
    | none ↦ elim (advance q cursor) [
      | some r ↦ done (some r) q
      | none ↦ asleep (record q { nupdates = iterator_waiter (position q cursor) ∷ q.nupdates })
    ]
  ]
