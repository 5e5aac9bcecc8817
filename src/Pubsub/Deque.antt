-- ===== src/Pubsub/Deque.antt =====
-- pubsub/deque.go and pubsub/deque_element.go: the deque, a ring of elements round its root on a heap,
-- with the mutex held in each operation. As for the queue a blocking operation is a turn of its loop,
-- the three condition variables hold those asleep, and `panic` is a nil dereference (nil is 0).
-- Every element's `list` is the one deque that is modelled.
pub mod Closed
pub mod Asleep
pub mod Ends
pub mod Holds
pub mod Iterate
pub mod Model
pub mod Options
pub mod Precedence
pub mod Refine
pub mod Run
pub mod Steps
mod Tests
pub mod Unlink
pub mod Waits
pub mod Wakeups
use fun.Prelude.{
  ℕ, zero, suc, ◌+◌, ◌-◌, Bool, true, false, ◌||◌, ◌&&◌, Option, none, some, List, [], ◌∷◌, ltb,
  ◌==◌, if◌then◌else◌,
}
use fun.Prelude.Int.{ℤ, pos, negsuc, ◌+ℤ◌}
use fun.Links.{Ptr, update}
use fun.Pubsub.Errors.{Error, queue_closed, queue_draining}
use fun.Pubsub.Tracker.{Floats, Tracker, len, cap, add, remove}

-- `dqDirection`
pub data Direction : Type 0 where
  dq_next dq_prev : Direction

-- `element[T]`
pub record Element (A : Type 0) : Type 0 where
  pub item : A
  pub next : Ptr
  pub prev : Ptr
  pub is_root : Bool
  pub seq : ℤ
  pub removed : Bool

-- The operations that can sleep: a push, a pop from an end, a drain, and an iterator at its cursor.
pub data Waiter : Type 0 where
  push_waiter drain_waiter : Waiter
  pop_waiter : Direction → Waiter
  iterator_waiter : Direction → Ptr → Waiter

-- `Deque[T]`; `cells` is the memory, and no element is allocated at `fresh` or above.
pub record Deque (F : Floats) (A : Type 0) : Type 0 where
  pub nfront : List Waiter
  pub nback : List Waiter
  pub updates : List Waiter
  pub root : Ptr
  pub tracker : Tracker F
  pub drainers : ℕ
  pub closed : Bool
  pub lo : ℤ
  pub hi : ℤ
  pub cells : Ptr → Element A
  pub fresh : Ptr

pub data Outcome (R : Type 0) : Type 0 where
  ok : R → Outcome R
  panic : Outcome R

-- `getNextOrPrevious`
abbrev pub next_or_previous : {A : Type 0} → Element A → Direction → Ptr
next_or_previous x dq_next = x.next
next_or_previous x dq_prev = x.prev

module _ {F : Floats} {A : Type 0} where
  -- `doInit`, with the tracker that the constructor puts in place.
  unfoldable pub make_deque : A → Tracker F → Deque F A
  make_deque zero_value t = record {
    nfront = [];
    nback = [];
    updates = [];
    root = 1;
    tracker = t;
    drainers = 0;
    closed = false;
    lo = pos 0;
    hi = pos 0;
    cells = λ p. record {
      item = zero_value;
      next = 1;
      prev = 1;
      is_root = true;
      seq = pos 0;
      removed = false;
    };
    fresh = 2;
  }

  -- `notify`: each of the condition variables is broadcast.
  abbrev pub notify : Deque F A → Deque F A
  notify q = record q { nfront = []; nback = []; updates = [] }

  -- `Len`
  abbrev pub queue_len : Deque F A → ℕ
  queue_len q = len q.tracker

  -- `doClose`, which is `Close` but for the mutex.
  unfoldable pub close : Deque F A → Deque F A
  close q = notify (record q { closed = true })

  -- `checkOpen`
  abbrev pub check_open : Deque F A → Option Error
  check_open q =
      if ltb 0 q.drainers then some queue_draining else if q.closed then some queue_closed else none

  -- The sequence numbers of a new element at this end, and the one it gets.
  abbrev pub number : Deque F A → Direction → ℤ × ℤ × ℤ
  number q dq_next = (q.lo +ℤ negsuc 0, q.hi, q.lo +ℤ negsuc 0)
  number q dq_prev = (q.lo, q.hi +ℤ pos 1, q.hi +ℤ pos 1)

  -- The element behind which a new one is linked.
  abbrev pub place : Deque F A → Direction → Ptr
  place q dq_next = q.root
  place q dq_prev = (q.cells q.root).prev

  -- The part of `add` behind the tracker: a new element with its number, linked behind `after`.
  pub insert : Deque F A → A → Direction → Tracker F → Deque F A
  insert q value side tracker =
      let (lo, hi, n) = number q side in
      let after = place q side in
      let follow = (q.cells after).next in
      let it : Element A = record {
        item = value;
        next = follow;
        prev = after;
        is_root = false;
        seq = n;
        removed = false;
      } in
      let c1 = update q.cells q.fresh it in
      let c2 = update c1 after (record (c1 after) { next = q.fresh }) in
      let c3 = update c2 follow (record (c2 follow) { prev = q.fresh }) in
      notify (record q { tracker = tracker; lo = lo; hi = hi; cells = c3; fresh = q.fresh + 1 })

  -- `add`
  unfoldable pub add_item : Deque F A → A → Direction → Option Error × Deque F A
  unfolding insert
  add_item q value side =
      let (err, tracker) = add q.tracker in
      elim (check_open q) [
        | some e ↦ (some e, q)
        | none ↦ elim err [
          | some e ↦ (some e, record q { tracker = tracker; updates = [] })
          | none ↦ (none, insert q value side tracker)
        ]
      ]

  -- `PushFront` and `PushBack`
  unfoldable pub push_front : Deque F A → A → Option Error × Deque F A
  unfolding add_item
  push_front q value = add_item q value dq_next

  unfoldable pub push_back : Deque F A → A → Option Error × Deque F A
  unfolding add_item
  push_back q value = add_item q value dq_prev

module _ {F : Floats} {A : Type 0} (zero_value : A) where
  -- The part of `pop` behind its test: the element is unlinked and released.
  pub take_out : Deque F A → Ptr → Deque F A
  take_out q it =
      let x = q.cells it in
      let c1 = update q.cells x.prev (record (q.cells x.prev) { next = x.next }) in
      let c2 = update c1 x.next (record (c1 x.next) { prev = x.prev }) in
      let gone = record (c2 it) { item = zero_value; next = 0; prev = 0; removed = true } in
      notify (record q { tracker = remove q.tracker; cells = update c2 it gone })

  -- `pop`; an element that is already released has no neighbours to unlink it from.
  unfoldable pub pop : Deque F A → Ptr → Outcome (Option A × Deque F A)
  unfolding take_out
  pop q it =
      let x = q.cells it in
      if q.closed || (x.is_root || it == q.root)
      then ok (none, q)
      else if x.prev == 0 || x.next == 0
      then panic
      else ok (some x.item, take_out q it)

  -- `PopFront` and `PopBack`
  unfoldable pub pop_front : Deque F A → Outcome (Option A × Deque F A)
  unfolding pop
  pop_front q = pop q (q.cells q.root).next

  unfoldable pub pop_back : Deque F A → Outcome (Option A × Deque F A)
  unfolding pop
  pop_back q = pop q (q.cells q.root).prev

  -- The body of `ForcePushFront` and `ForcePushBack`: a deque at its capacity first loses the element
  -- at the end `other`, whatever that pop answers.
  unfoldable pub force_push :
      Deque F A → A → (side other : Direction) → Outcome (Option Error × Deque F A)
  unfolding pop add_item
  force_push q value side other =
      let room =
        if cap q.tracker == len q.tracker
        then pop q (next_or_previous (q.cells q.root) other)
        else ok (none, q) in
      elim (check_open q) [
        | some e ↦ ok (some e, q)
        | none ↦ elim room [ panic ↦ panic | ok (a, q') ↦ ok (add_item q' value side) ]
      ]

  unfoldable pub force_push_front : Deque F A → A → Outcome (Option Error × Deque F A)
  unfolding force_push
  force_push_front q value = force_push q value dq_next dq_prev

  unfoldable pub force_push_back : Deque F A → A → Outcome (Option Error × Deque F A)
  unfolding force_push
  force_push_back q value = force_push q value dq_prev dq_next
