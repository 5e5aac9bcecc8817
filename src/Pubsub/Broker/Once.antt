-- ===== src/Pubsub/Broker/Once.antt =====
-- How often `dispatchMessage` of pubsub/broker.go sends one message to a subscriber.
use fun.Prelude.{ℕ, ◌+◌, ◌≤◌, ◌≡◌, refl, ap, ◌∙◌, List, [], ◌∷◌, ◌++◌, arith, ◌==◌, if◌then◌else◌}
use fun.Links.{has}
use fun.Pubsub.Broker.{Chan, Broker}
use fun.Pubsub.Broker.Walk.{
  Dispatch, start, Move, others, picks, receives, released, aborted, Moves, here, next,
}

unfoldable pub occurs : Chan → List Chan → ℕ
occurs c [] = 0
occurs c (x ∷ xs) = (if x == c then 1 else 0) + occurs c xs

keys : List (Chan × Chan) → List Chan
keys [] = []
keys ((c, d) ∷ ps) = c ∷ keys ps

occurs-middle :
    (c : Chan) (xs : List (Chan × Chan)) (e d : Chan) (ys : List (Chan × Chan))
    → occurs c (keys (xs ++ ((e, d) ∷ ys))) ≡ occurs c (e ∷ keys (xs ++ ys))
unfolding occurs keys
occurs-middle c [] e d ys = refl
occurs-middle c ((a, f) ∷ xs) e d ys = ground (arith, occurs-middle c xs e d ys)

-- A subscriber is sent to or has received at most once, and only when the walk has come to it.
abbrev Once : Chan → Dispatch → Type 0
Once c w = occurs c (keys w.busy) + occurs c w.got ≤ (if has c w.seen then 1 else 0)

Move-Once : (c : Chan) {b b' : Broker} {w w' : Dispatch} → Move b w b' w' → Once c w → Once c w'
unfolding occurs keys
Move-Once c (others s e) h = rw e h
Move-Once c (picks ch d l n p e f) h = rw f (ground (arith, h, n))
Move-Once c {w = w} (receives xs ch d ys e f g) h =
    let k = ap (λ p. occurs c (keys p)) e ∙ occurs-middle c xs ch d ys in
    rw g (ground (arith, h, k))
Move-Once c {w = w} (released xs ch d ys e r f g) h =
    let k = ap (λ p. occurs c (keys p)) e ∙ occurs-middle c xs ch d ys in
    rw g (ground (arith, h, k))
Move-Once c {w = w} (aborted xs ch d ys e r f g) h =
    let k = ap (λ p. occurs c (keys p)) e ∙ occurs-middle c xs ch d ys in
    rw g (ground (arith, h, k))

Moves-Once :
    (c : Chan) {b : Broker} {w : Dispatch} {b' : Broker} {w' : Dispatch}
    → Moves b w b' w'
    → Once c w
    → Once c w'
Moves-Once c here h = h
Moves-Once c (next ms m) h = Move-Once c m (Moves-Once c ms h)

-- No subscriber receives a message more than once.
pub dispatch_once :
    (b b' : Broker) (w : Dispatch) (c : Chan) → Moves b start b' w → occurs c w.got ≤ 1
unfolding occurs keys
dispatch_once b b' w c ms = ground (arith, Moves-Once c ms (omega arith))
