-- ===== src/Pubsub.antt =====
-- The package pubsub: the limit trackers of its queues, the queue, the deque and the broker.
pub mod Errors
pub mod Tracker
pub mod Queue
mod Tests
pub mod Broker
pub mod Deque
