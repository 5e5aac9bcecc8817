-- ===== src/Pubsub/Broker/Walk.antt =====
-- One message in `dispatchMessage` of pubsub/broker.go: a worker walks through the live map of subscriptions
-- while the control loop goes on, and each send waits for its receiver, for its release or for the end.
use fun.Prelude.{◌≡◌, Bool, true, false, ◌||◌, List, [], ◌∷◌, ◌++◌, some}
use fun.Links.{has}
use fun.Pubsub.Broker.{Chan, Broker, load_sub, check_sub}
use fun.Pubsub.Broker.Steps.{Step}

-- The subscribers that the walk has come to, the sends that wait, each with the channel that releases it,
-- and the subscribers that have received the message.
pub record Dispatch : Type 0 where
  pub seen : List Chan
  pub busy : List (Chan × Chan)
  pub got : List Chan

abbrev pub start : Dispatch
start = record { seen = []; busy = []; got = [] }

abbrev is_empty : List (Chan × Chan) → Bool
is_empty [] = true
is_empty (p ∷ ps) = false

-- A step of the broker or of the worker. The walk comes to no key twice, and in turn unless the messages
-- are sent in parallel; a send ends when its receiver takes the message, when it is released or when the
-- broker is stopped.
pub data Move (b : Broker) (w : Dispatch) (b' : Broker) (w' : Dispatch) : Type 0 where
  others : Step b b' → w' ≡ w → Move b w b' w'
  picks :
      (ch done : Chan)
      → load_sub b.subs ch ≡ some done
      → has ch w.seen ≡ false
      → (b.options.parallel_dispatch || is_empty w.busy) ≡ true
      → b' ≡ b
      → w' ≡ record w { seen = ch ∷ w.seen; busy = (ch, done) ∷ w.busy }
      → Move b w b' w'
  receives :
      (xs : List (Chan × Chan)) (ch done : Chan) (ys : List (Chan × Chan))
      → w.busy ≡ xs ++ ((ch, done) ∷ ys)
      → b' ≡ b
      → w' ≡ record w { busy = xs ++ ys; got = ch ∷ w.got }
      → Move b w b' w'
  released :
      (xs : List (Chan × Chan)) (ch done : Chan) (ys : List (Chan × Chan))
      → w.busy ≡ xs ++ ((ch, done) ∷ ys)
      → has done b.closed ≡ true
      → b' ≡ b
      → w' ≡ record w { busy = xs ++ ys }
      → Move b w b' w'
  aborted :
      (xs : List (Chan × Chan)) (ch done : Chan) (ys : List (Chan × Chan))
      → w.busy ≡ xs ++ ((ch, done) ∷ ys)
      → b.stopped ≡ true
      → b' ≡ b
      → w' ≡ record w { busy = xs ++ ys }
      → Move b w b' w'

pub data Moves (b : Broker) (w : Dispatch) : Broker → Dispatch → Type 0 where
  here : Moves b w b w
  next : {c d : Broker} {v u : Dispatch} → Moves b w c v → Move c v d u → Moves b w d u

-- A subscription that is there in every state from the first to the last.
abbrev pub Stays :
    (ch : Chan) {b : Broker} {w : Dispatch} {b' : Broker} {w' : Dispatch} → Moves b w b' w' → Type 0
Stays ch {b = b} here = check_sub b.subs ch ≡ true
Stays ch {b' = b'} (next ms m) = Stays ch ms × (check_sub b'.subs ch ≡ true)

-- The walk is over: no send waits, and it has come to every key that was in the map throughout, which is
-- what Range of sync.Map promises.
pub record Ended {b b' : Broker} {w w' : Dispatch} (ms : Moves b w b' w') : Type 0 where
  pub idle : w'.busy ≡ []
  pub walked : (ch : Chan) → Stays ch ms → has ch w'.seen ≡ true
