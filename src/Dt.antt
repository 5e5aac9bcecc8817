-- ===== src/Dt.antt =====
-- The package dt: the doubly linked list with the heap, the ordered set and the ordered map over it, the
-- stack and the ring buffer.
pub mod Heap
pub mod List
pub mod Stack
pub mod OrderedSet
pub mod OrderedMap
pub mod Ring
mod SortTests
mod StackTests
mod Tests
