-- ===== src/Pubsub/Broker.antt =====
-- pubsub/broker.go: the control loop of the broker and the requests it serves. A channel is a number; the
-- channels that have been closed are listed, and closing one of them again, or nil, is a panic (`none`).
-- `subs` is a map from subscription channels to the channels that release their senders.
pub mod Steps
pub mod Subscribed
pub mod Serve
pub mod Walk
pub mod Lasting
pub mod Dispatch
pub mod Once
pub mod Calls
mod Tests
use fun.Prelude.{
  ℕ, suc, ◌+◌, ◌%◌, ◌^◌, Bool, true, false, not, ◌||◌, List, [], ◌∷◌, ◌++◌, Option, none, some, ltb,
  ◌==◌, if◌then◌else◌, length,
}
use fun.Prelude.Int.{ℤ, pos, negsuc}
use fun.Links.{has}

abbrev pub Chan : Type 0
Chan = ℕ

-- `BrokerState`
pub data BrokerState : Type 0 where
  broker_unknown broker_empty broker_active broker_stopped : BrokerState

-- `BrokerStats`
pub record BrokerStats : Type 0 where
  pub state : BrokerState
  pub subscriptions : ℕ
  pub buffer_depth : ℕ
  pub message_count : ℕ

-- `BrokerOptions`
pub record BrokerOptions : Type 0 where
  pub buffer_size : ℤ
  pub parallel_dispatch : Bool
  pub worker_pool_size : ℤ
  pub non_blocking_push : Bool

-- `ctlRequest[T]`; `stats` names the caller that waits for the answer.
pub record Request : Type 0 where
  pub ch : Chan
  pub ack : Option Chan
  pub unsub : Bool
  pub stats : Option ℕ

-- `Broker[T]` with the variables of its goroutines: the requests sent to `ctlCh` and not yet received,
-- the subscriptions, the channels closed so far, the answers given, whether its context has ended, and the
-- first channel that is not allocated.
pub record Broker : Type 0 where
  pub options : BrokerOptions
  pub ctl : List Request
  pub subs : List (Chan × Chan)
  pub closed : List Chan
  pub answers : List (ℕ × BrokerStats)
  pub count : ℕ
  pub stopped : Bool
  pub fresh : Chan

-- `makeBroker`
unfoldable pub make_broker : BrokerOptions → Broker
make_broker opts = record {
  options = elim opts.buffer_size [ pos n ↦ opts | negsuc n ↦ record opts { buffer_size = pos 0 } ];
  ctl = [];
  subs = [];
  closed = [];
  answers = [];
  count = 0;
  stopped = false;
  fresh = 1;
}

-- How many workers `startQueueWorkers` starts.
unfoldable pub workers : BrokerOptions → ℕ
workers opts = elim opts.worker_pool_size [ pos n ↦ if n == 0 then 1 else n | negsuc n ↦ 1 ]

-- `subs.Load(ch)`, `subs.Check(ch)` and `subs.Delete(ch)`
unfoldable pub load_sub : List (Chan × Chan) → Chan → Option Chan
load_sub [] ch = none
load_sub ((c, done) ∷ subs) ch = if c == ch then some done else load_sub subs ch

unfoldable pub check_sub : List (Chan × Chan) → Chan → Bool
unfolding load_sub
check_sub subs ch = elim (load_sub subs ch) [ none ↦ false | some done ↦ true ]

unfoldable pub delete_sub : List (Chan × Chan) → Chan → List (Chan × Chan)
delete_sub [] ch = []
delete_sub ((c, done) ∷ subs) ch = if c == ch then subs else (c, done) ∷ delete_sub subs ch

-- `close(c)`
unfoldable pub close_chan : Option Chan → Broker → Option Broker
close_chan none b = none
close_chan (some c) b = if has c b.closed then none else some (record b { closed = c ∷ b.closed })

-- The stats that the control loop gives, where `depth` is what `length()` says.
unfoldable pub stats_of : ℕ → Broker → BrokerStats
stats_of depth b = record {
  state = if ltb 0 (length b.subs) || ltb 0 depth then broker_active else broker_empty;
  subscriptions = length b.subs;
  buffer_depth = depth;
  message_count = b.count;
}

-- One request in the control loop of `startQueueWorkers`.
unfoldable pub serve : ℕ → Request → Broker → Option Broker
unfolding load_sub check_sub delete_sub close_chan stats_of
serve depth req b = elim req.stats [
  | some caller ↦ some (record b { answers = (caller, stats_of depth b) ∷ b.answers })
  | none ↦
      if req.unsub
      then elim (load_sub b.subs req.ch) [
        | none ↦ some b
        | some done ↦ close_chan (some done) (record b { subs = delete_sub b.subs req.ch })
      ]
      else if not (check_sub b.subs req.ch)
      then close_chan req.ack (record b { subs = (req.ch, b.fresh) ∷ b.subs; fresh = b.fresh + 1 })
      else close_chan req.ack b
]

-- The requests that `Subscribe`, `Unsubscribe` and `Stats` send.
abbrev pub subscribe_request : Chan → Chan → Request
subscribe_request ch ack = record { ch = ch; ack = some ack; unsub = false; stats = none }

abbrev pub unsubscribe_request : Chan → Request
unsubscribe_request ch = record { ch = ch; ack = none; unsub = true; stats = none }

abbrev pub stats_request : ℕ → Request
stats_request caller = record { ch = 0; ack = none; unsub = false; stats = some caller }

-- `b.ctlCh <- req`
abbrev pub queue_request : Request → Broker → Broker
queue_request req b = record b { ctl = b.ctl ++ (req ∷ []) }
