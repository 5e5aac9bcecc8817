-- ===== src/Pubsub/Errors.antt =====
-- The errors of pubsub/queue.go, and what a context reports.
use fun.Prelude.{ℕ}

-- What `ctx.Err()` returns once the context has ended (package context).
pub data ContextError : Type 0 where
  canceled deadline_exceeded : ContextError

-- The sentinels of pubsub/queue.go, the error of the context, and that error as `waitForDrain`
-- wraps it, with the number of items that remained.
pub data Error : Type 0 where
  queue_full queue_no_credit queue_closed queue_draining : Error
  hard_limit burst_credit : Error
  context : ContextError → Error
  drain_early : ContextError → ℕ → Error
