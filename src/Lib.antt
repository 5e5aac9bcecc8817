-- ===== src/Lib.antt =====
-- Verification of the containers, queues and iterator combinators of the Go library fun
-- (github.com/tychoish/fun).
--
-- The parts and the files that model them:
--
-- * Prelude.antt passes on the library's names and adds lists (Prelude/Lists.antt) and Go's signed
--   integers over the native natural numbers (Prelude/Int.antt).
-- * Links.antt is the theory of doubly linked chains that dt/list.go and pubsub/deque.go share: nodes
--   are addresses, a heap is the pair of functions `next` and `prev`, and inserting and removing a
--   node of a chain of distinct nodes gives a chain again.
-- * Pubsub/Tracker.antt is pubsub/tracker.go: `Tracker` has a constructor for each implementation of
--   queueLimitTracker, and `add`, `remove`, `len` and `cap` are its methods; `validate` and
--   `new_tracker` are QueueOptions.Validate and newQueueLimitTracker. Pubsub/Tracker/Limits.antt has
--   the invariant of a tracker.
-- * Pubsub/Queue.antt is pubsub/queue.go: `Queue` is the struct with the memory of its entries, `push`,
--   `pop` and `close` its methods. Queue/Blocking.antt has the blocking methods, Queue/Iterate.antt the
--   iterators; Queue/Model.antt is the FIFO list that a queue promises to be, and Queue/Refine.antt
--   and Queue/Run.antt show that it is; Queue/Steps.antt is the step relation of all goroutines, and
--   Queue/Closed.antt follows it from a Close on.
-- * Pubsub/Deque.antt is pubsub/deque.go and pubsub/deque_element.go, in the same shape: Deque/Waits.antt
--   has the blocking methods and the iterators, Deque/Options.antt NewDeque and its options,
--   Deque/Model.antt the list with two ends, Deque/Steps.antt the step relation, Deque/Closed.antt what
--   follows a Close.
-- * Pubsub/Broker.antt is the control loop of pubsub/broker.go with the requests that it serves: `serve` is
--   the body of its select, over the map of subscriptions. Broker/Steps.antt has the step relation of the
--   callers and the loop, Broker/Subscribed.antt and Broker/Serve.antt what becomes of a subscription,
--   Broker/Walk.antt the dispatch of one message among those steps, Broker/Dispatch.antt who gets it,
--   Broker/Lasting.antt what the steps leave of a subscription meanwhile, Broker/Once.antt how often a
--   subscriber gets it, and Broker/Calls.antt Subscribe,
--   Unsubscribe, Stats and Send with their selects; there Send meets the queue of Pubsub/Queue.antt.
-- * Dt/List.antt is dt/list.go over an explicit memory of elements, list headers and length cells.
--   Dt/List/IsList.antt says when a memory holds a list of some values, and the other files say what
--   each operation makes of that. Dt/List/Setup.antt is about a list that nobody has used, whose root the
--   first operation makes. Dt/List/Own.antt is about several lists in one memory, which
--   Dt/List/Sort.antt, the merge sort, and Dt/List/Whole.antt, Copy, and
--   Dt/List/Reset.antt, Reset, work on.
-- * Dt/Stack.antt is dt/stack.go over a memory of items and stack headers, in the same way; its lengths
--   are signed, as the code can count below zero.
-- * Dt/Heap.antt is dt/heap.go over that list; Dt/Heap/Push.antt follows the walk of Push, Order.antt is about
--   sorted lists, and Sort.antt has what a client sees.
-- * Dt/OrderedSet.antt is dt/ordered_set.go over the list and an association list; Dt/OrderedSet/Refine.antt
--   says what its methods make of the values that it holds.
-- * Dt/OrderedMap.antt is dt/ordered_map.go in the same way, with pairs for values and the keys in the
--   association list; Dt/OrderedMap/Refine.antt has what its methods make of the pairs.
-- * Dt/Ring.antt is dt/ring.go. Dt/Ring/Holds.antt says when a ring holds some values, oldest first, and what
--   a push makes of that, Pop.antt and Iterate.antt the rest, and Run.antt has the queue of bounded
--   length that a ring is. An index out of range is a panic there, `none`. Overflow.antt is about the
--   sizes whose product with an index is too large for an int.
-- * Irt.antt is the package irt, its sequences and the loops over them. Irt/Filter.antt, Transform.antt,
--   Chain.antt, Generate.antt, Unique.antt, Group.antt and Pull.antt have the combinators of irt/irt.go
--   that their names say, Consume.antt those that use a sequence up, and Pairs.antt those over pairs and
--   those composed of others; Sink.antt is Sink. Irt/Lists.antt says on lists what they mean, and
--   Results.antt that the consumers give that.
-- * Strut/Replace.antt is Replace of strut/mut.go with replaceInPlace, over the bytes of a slice and those
--   behind it up to its capacity. Replace/Matches.antt is about the loops that look for the matches,
--   Replace/Same.antt and Replace/Backward.antt about the two ways of overwriting, Replace/Refine.antt
--   about the whole.
--
-- How the code is rendered. An operation of Queue and Deque that does not block is a function of the
-- state, since it holds the mutex from its start to its end. One that blocks is a sequence of turns: a
-- turn is what its loop does from one wake-up to the next Wait, with the mutex held, and its argument
-- `ctx` is what ctx.Err() returns in that turn. A condition variable is the list of those asleep on it,
-- which Broadcast empties and Signal shortens. The deferred wakeOnCancel is a step of its own that
-- empties a list. A nil dereference is a result of its own (`panic`, or `none` in the files of Dt),
-- so that a theorem which gives another result says that it does not happen.
-- The broker's goroutines communicate over channels: a request that was sent waits in a list until the loop
-- receives it, an unbuffered channel being one whose sender still waits, and closing a channel twice or
-- closing nil is `none`. Where a caller's select has several cases ready the case it takes is an argument.
-- The walk over the map of subscriptions comes to no key twice and to every key that stays from its start
-- to its end, as the sync package says of Range; a key that is put in meanwhile may be passed over.
-- A sequence of irt is a function of `yield`, as in Go, over the state of the world; what the loops around
-- it assign is the local state, which it hands on. `Denotes` says that a sequence yields given values, has
-- no effects of its own and heeds a yield that says no; the functions that a combinator takes may have
-- effects. A variable that closures share, as the set of Unique, is put into the world of the loop. What
-- iter.Pull of the standard library gives is the list of the values that are to come.
--
-- Bounds and fuel. Lengths and capacities are natural numbers; options are signed and are tested as the
-- code does. The sequence numbers of a deque are integers without bound: 2 ^ 63 pushes at one end are
-- out of reach. A length stays below math.MaxInt for the same reason. Iterators take fuel, one step
-- more than the length, and the theorems about them show that this is enough; the walk of `neighbor`
-- in a deque takes at most as many steps as the deque is long, and has one more. The
-- loops of the merge sort, of Copy and of Reset take one round more than there are values, and the
-- theorems show that they end with that; running out of fuel is `none` there. A position of a ring is the
-- word of a 64-bit int and its arithmetic wraps; up to the size 3037000499 no product of a size and an
-- index does. The loops of Replace have
-- a round for each byte and one more, and a round passes a byte at least, since the old text is not empty. The
-- loops of a ring take at most one round for each slot, and have one more. The endless sequences of irt
-- take fuel for each value; a limit below the fuel makes it unseen, as is proved.
--
-- What is not modelled. The float64 arithmetic of the burst credit is a parameter (`Floats`), and no
-- theorem relies on a law of it. The sync and context packages appear as described above. Addresses of
-- a deque and of a list are unforgeable in Go and plain numbers here, so that the theorems ask that
-- the memory holds the list. Of dt/list.go SortQuick, whose sort is the standard library's, the iterators
-- from the back and JSON are left out, of dt/stack.go Reverse, Attach, Extend and JSON, of dt/ring.go PopFIFO and JSON,
-- of dt/ordered_set.go the sorts, Extend, Equal and JSON, of dt/ordered_map.go JSON. Of pubsub/broker.go
-- the channel of NewBroker and Wait are left out. Of irt what starts goroutines or takes
-- mutexes and channels is left out (Pool, Shard, WithBuffer, Pipe, Channel, AsGenerator), as are
-- Chunk, the joins of strings and errors, the hooks, the sorts, which are the standard library's,
-- readers, maps and casts. The package dt/hdrhist is a copy of another project. The other
-- packages (adt, erc, ers, fn, fnx, wpa, srv, confl, stw, mdwn, opt, Set, Optional and the binary heap
-- of dt, and the streams of pubsub) are not modelled; the streams rest on the channels of the runtime.
-- Of strut only Replace is; most of the rest calls the package bytes and does no more. A text that shares
-- memory with the buffer that it replaces something in is left out, and so are lengths past math.MaxInt.
pub mod Prelude
pub mod Irt
pub mod Links
pub mod Dt
pub mod Pubsub
pub mod Strut
