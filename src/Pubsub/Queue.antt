-- ===== src/Pubsub/Queue.antt =====
-- pubsub/queue.go: the queue, a chain of entries on a heap, with the mutex held in each operation.
-- A blocking operation is a turn: what its loop does from one wake-up to the next `Wait`.
-- `nempty` and `nupdates` hold the operations asleep on the two condition variables, so that
-- Broadcast empties one and Signal takes one out. A nil dereference is the outcome `panic`.
pub mod Asleep
pub mod Blocking
pub mod Chain
pub mod Closed
pub mod Holds
pub mod Iterate
pub mod Model
pub mod Precedence
pub mod Refine
pub mod Run
pub mod Steps
pub mod Wakeups
use fun.Prelude.{
  ℕ, zero, suc, ◌+◌, ◌-◌, ◌⊎◌, inl, inr, Bool, true, false, Option, none, some, List, [], ◌∷◌, ltb,
  ◌==◌, if◌then◌else◌,
}
use fun.Pubsub.Errors.{ContextError, Error, queue_closed, queue_draining, context, drain_early}
use fun.Pubsub.Tracker.{Floats, Tracker, len, cap, add, remove}

-- An address of an entry.
abbrev pub Ptr : Type 0
Ptr = ℕ

-- `entry[T]`
pub record Entry (A : Type 0) : Type 0 where
  pub item : A
  pub link : Option Ptr
  pub popped : Bool

-- The operations that can sleep: WaitPush, WaitPop, Drain, and IteratorWait with its cursor.
pub data Waiter : Type 0 where
  push_waiter pop_waiter drain_waiter : Waiter
  iterator_waiter : Ptr → Waiter

-- `Queue[T]`; `cells` is the memory, and no entry is allocated at `fresh` or above.
pub record Queue (F : Floats) (A : Type 0) : Type 0 where
  pub tracker : Tracker F
  pub drainers : ℕ
  pub closed : Bool
  pub nempty : List Waiter
  pub nupdates : List Waiter
  pub back : Ptr
  pub front : Ptr
  pub cells : Ptr → Entry A
  pub fresh : Ptr

-- A call that returns, or one that dereferences nil.
pub data Outcome (R : Type 0) : Type 0 where
  ok : R → Outcome R
  panic : Outcome R

-- A turn of a blocking call: it returns, or it goes to sleep, in the queue that it leaves.
pub data Turn (F : Floats) (A R : Type 0) : Type 0 where
  done : R → Queue F A → Turn F A R
  asleep : Queue F A → Turn F A R

abbrev pub update {ℓ} : {A : Type ℓ} → (Ptr → A) → Ptr → A → Ptr → A
update f p v q = if p == q then v else f q

-- Signal wakes one of those asleep, if there is one.
abbrev pub signal : List Waiter → List Waiter
signal [] = []
signal (w ∷ ws) = ws

module _ {F : Floats} {A : Type 0} (zero_value : A) where
  -- `makeQueue` and `doInit`: one sentinel, at address 0.
  unfoldable pub make_queue : Tracker F → Queue F A
  make_queue t = record {
    tracker = t;
    drainers = 0;
    closed = false;
    nempty = [];
    nupdates = [];
    back = 0;
    front = 0;
    cells = λ p. record { item = zero_value; link = none; popped = false };
    fresh = 1;
  }

  -- `popFront` with the oldest entry at hand: unlinks it, clears it and wakes those that wait.
  pub unlink : Queue F A → Ptr → Queue F A
  unlink q e =
      let cells = update q.cells q.front (record (q.cells q.front) { link = (q.cells e).link }) in
      let gone : Entry A = record { item = zero_value; link = none; popped = true } in
      record q {
        back = if e == q.back then q.front else q.back;
        cells = update cells e gone;
        tracker = remove q.tracker;
        nupdates = [];
        nempty = if len (remove q.tracker) == 0 then [] else q.nempty;
      }

  -- `popFront`; the link of the sentinel is dereferenced.
  pub pop_front : Queue F A → Outcome (A × Queue F A)
  unfolding unlink
  pop_front q = elim (q.cells q.front).link [
    | none ↦ panic
    | some e ↦ ok ((q.cells e).item, unlink q e)
  ]

module _ {F : Floats} {A : Type 0} where
  -- A new entry behind the newest, with every sleeper woken.
  pub append_entry : Queue F A → A → Tracker F → Queue F A
  append_entry q item tracker =
      let new : Entry A = record { item = item; link = none; popped = false } in
      let cells = update q.cells q.fresh new in
      record q {
        tracker = tracker;
        cells = update cells q.back (record (cells q.back) { link = some q.fresh });
        back = q.fresh;
        fresh = q.fresh + 1;
        nempty = [];
        nupdates = [];
      }

  -- `doAdd`
  pub do_add : Queue F A → A → Option Error × Queue F A
  unfolding append_entry
  do_add q item =
      let (err, tracker) = add q.tracker in
      if ltb 0 q.drainers
      then (some queue_draining, q)
      else if q.closed
      then (some queue_closed, q)
      else elim err [
        | some e ↦ (some e, record q { tracker = tracker })
        | none ↦ (none, append_entry q item tracker)
      ]

  -- `Push`
  unfoldable pub push : Queue F A → A → Option Error × Queue F A
  unfolding do_add
  push q item = do_add q item

  -- `Len`
  abbrev pub queue_len : Queue F A → ℕ
  queue_len q = len q.tracker

  -- `doClose`, which is `Close` but for the mutex.
  unfoldable pub close : Queue F A → Queue F A
  close q = record q { closed = true; nempty = []; nupdates = [] }

  -- The wake-ups that `Pop` adds to those of `popFront`, by the length before it.
  pub pop_wake : ℕ → Queue F A → Queue F A
  pop_wake n q =
      if n == 1
      then record q { nempty = if ltb 0 q.drainers then [] else signal q.nempty }
      else record q { nupdates = if ltb 0 q.drainers then [] else signal q.nupdates }

module _ {F : Floats} {A : Type 0} (zero_value : A) where
  -- `Pop`
  unfoldable pub pop : Queue F A → Outcome (Option A × Queue F A)
  unfolding pop_front pop_wake
  pop q =
      if q.closed
      then ok (none, q)
      else if len q.tracker == 0
      then ok (none, q)
      else elim (pop_front zero_value q) [
        | panic ↦ panic
        | ok (a, q') ↦ ok (some a, pop_wake (len q.tracker) q')
      ]
