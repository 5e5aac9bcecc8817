-- ===== src/Pubsub/Broker/Dispatch.antt =====
-- Who has a message when its dispatch in pubsub/broker.go is over.
use fun.Prelude.{
  ◌≡◌, refl, sym, ◌⊎◌, inl, inr, Bool, true, false, ◌&&◌, ◌||◌, List, [], ◌∷◌, ◌++◌, some, arith,
  ◌==◌, Bool-cases,
}
use mathlib.Core.Path.{subst}
use fun.Links.{has}
use fun.Pubsub.Broker.{Chan, Broker, load_sub}
use fun.Pubsub.Broker.Steps.{Step}
use fun.Pubsub.Broker.Subscribed.{check-load}
use fun.Pubsub.Broker.Walk.{
  Dispatch, start, Move, others, picks, receives, released, aborted, Moves, here, next, Stays,
  Ended,
}
use fun.Pubsub.Broker.Lasting.{Step-load, Step-closed, Step-stopped}

abbrev pair_in : Chan → Chan → List (Chan × Chan) → Bool
pair_in ch done [] = false
pair_in ch done ((c, d) ∷ ps) = (c == ch && d == done) || pair_in ch done ps

-- What is known of a subscriber that was there when the dispatch began.
data Status (ch done : Chan) (b : Broker) (w : Dispatch) : Type 0 where
  ahead : load_sub b.subs ch ≡ some done → has ch w.seen ≡ false → Status ch done b w
  waiting : pair_in ch done w.busy ≡ true → Status ch done b w
  received : has ch w.got ≡ true → Status ch done b w
  let_go : has done b.closed ≡ true → Status ch done b w
  ended : b.stopped ≡ true → Status ch done b w

Step-Status :
    (ch done : Chan) {b b' : Broker} (w : Dispatch)
    → Step b b'
    → Status ch done b w
    → Status ch done b' w
Step-Status ch done w s (ahead l n) = elim (Step-load ch done s l) [
  | inl y ↦ ahead y n
  | inr c ↦ let_go c
]
Step-Status ch done w s (waiting h) = waiting h
Step-Status ch done w s (received h) = received h
Step-Status ch done w s (let_go h) = let_go (Step-closed done s h)
Step-Status ch done w s (ended h) = ended (Step-stopped s h)

pair_in-middle :
    (ch done : Chan) (xs : List (Chan × Chan)) (c d : Chan) (ys : List (Chan × Chan))
    → pair_in ch done (xs ++ ((c, d) ∷ ys)) ≡ true
    → (pair_in ch done (xs ++ ys) ≡ true) ⊎ ((c ≡ ch) × (d ≡ done))
pair_in-middle ch done [] c d ys h = ground (arith, h)
pair_in-middle ch done ((e, f) ∷ xs) c d ys h = ground (arith, h, pair_in-middle ch done xs c d ys)

-- The end of one send: what it means for the others, and for its own subscriber.
sent-Status :
    (ch done : Chan) (b : Broker) (w w' : Dispatch) (xs : List (Chan × Chan)) (c d : Chan)
    (ys : List (Chan × Chan))
    → w.busy ≡ xs ++ ((c, d) ∷ ys)
    → w'.busy ≡ xs ++ ys
    → w'.seen ≡ w.seen
    → (has ch w.got ≡ true → has ch w'.got ≡ true)
    → (c ≡ ch → d ≡ done → Status ch done b w')
    → Status ch done b w
    → Status ch done b w'
sent-Status ch done b w w' xs c d ys e f g k own (ahead l n) = ahead l (ground (arith, g, n))
sent-Status ch done b w w' xs c d ys e f g k own (waiting h) =
    elim (pair_in-middle ch done xs c d ys (subst (λ p. pair_in ch done p ≡ true) e h)) [
      | inl y ↦ waiting (subst (λ p. pair_in ch done p ≡ true) (sym f) y)
      | inr q ↦ own q.0 q.1
    ]
sent-Status ch done b w w' xs c d ys e f g k own (received h) = received (k h)
sent-Status ch done b w w' xs c d ys e f g k own (let_go h) = let_go h
sent-Status ch done b w w' xs c d ys e f g k own (ended h) = ended h

Move-Status :
    (ch done : Chan) {b b' : Broker} {w w' : Dispatch}
    → Move b w b' w'
    → Status ch done b w
    → Status ch done b' w'
Move-Status ch done {w = w} (others s e) t = rw e (Step-Status ch done w s t)
Move-Status ch done {b = b} {w = w} (picks c d l n p e f) (ahead k m) =
    rw (e, f)
      (elim (Bool-cases (c == ch)) [
        | inl y ↦ waiting (ground (arith, y, l, k))
        | inr z ↦ ahead k (ground (arith, z, m))
      ])
Move-Status ch done (picks c d l n p e f) (waiting h) = rw (e, f) (waiting (ground (arith, h)))
Move-Status ch done (picks c d l n p e f) (received h) = rw (e, f) (received h)
Move-Status ch done (picks c d l n p e f) (let_go h) = rw (e, f) (let_go h)
Move-Status ch done (picks c d l n p e f) (ended h) = rw (e, f) (ended h)
Move-Status ch done {b = b} {w = w} (receives xs c d ys e f g) t =
    let w' : Dispatch = record w { busy = xs ++ ys; got = c ∷ w.got } in
    rw (f, g)
      (sent-Status ch done b w w' xs c d ys e refl refl (λ h. ground (arith, h))
        (λ p q. received (ground (arith, p))) t)
Move-Status ch done {b = b} {w = w} (released xs c d ys e r f g) t =
    let w' : Dispatch = record w { busy = xs ++ ys } in
    rw (f, g)
      (sent-Status ch done b w w' xs c d ys e refl refl (λ h. h)
        (λ p q. let_go (subst (λ x. has x b.closed ≡ true) q r)) t)
Move-Status ch done {b = b} {w = w} (aborted xs c d ys e r f g) t =
    let w' : Dispatch = record w { busy = xs ++ ys } in
    rw (f, g) (sent-Status ch done b w w' xs c d ys e refl refl (λ h. h) (λ p q. ended r) t)

Moves-Status :
    (ch done : Chan) {b : Broker} {w : Dispatch} {b' : Broker} {w' : Dispatch}
    → Moves b w b' w'
    → Status ch done b w
    → Status ch done b' w'
Moves-Status ch done here t = t
Moves-Status ch done (next ms m) t = Move-Status ch done m (Moves-Status ch done ms t)

Move-load :
    (ch done : Chan) {b b' : Broker} {w w' : Dispatch}
    → Move b w b' w'
    → load_sub b.subs ch ≡ some done
    → (load_sub b'.subs ch ≡ some done) ⊎ (has done b'.closed ≡ true)
Move-load ch done (others s e) h = Step-load ch done s h
Move-load ch done (picks c d l n p e f) h = inl (rw e h)
Move-load ch done (receives xs c d ys e f g) h = inl (rw f h)
Move-load ch done (released xs c d ys e r f g) h = inl (rw f h)
Move-load ch done (aborted xs c d ys e r f g) h = inl (rw f h)

Move-closed :
    (c : Chan) {b b' : Broker} {w w' : Dispatch}
    → Move b w b' w'
    → has c b.closed ≡ true
    → has c b'.closed ≡ true
Move-closed c (others s e) h = Step-closed c s h
Move-closed c (picks ch d l n p e f) h = rw e h
Move-closed c (receives xs ch d ys e f g) h = rw f h
Move-closed c (released xs ch d ys e r f g) h = rw f h
Move-closed c (aborted xs ch d ys e r f g) h = rw f h

-- A subscription stays until its removal releases those who send to it.
Moves-Stays :
    (ch done : Chan) {b : Broker} {w : Dispatch} {b' : Broker} {w' : Dispatch}
    (ms : Moves b w b' w')
    → load_sub b.subs ch ≡ some done
    → (Stays ch ms × (load_sub b'.subs ch ≡ some done)) ⊎ (has done b'.closed ≡ true)
Moves-Stays ch done {b = b} here h = inl (check-load b.subs ch done h, h)
Moves-Stays ch done {b' = b'} (next ms m) h = elim (Moves-Stays ch done ms h) [
  | inr c ↦ inr (Move-closed done m c)
  | inl (s, k) ↦ elim (Move-load ch done m k) [
    | inr c ↦ inr c
    | inl l ↦ inl ((s, check-load b'.subs ch done l), l)
  ]
]

-- When the dispatch of a message is over, each subscriber that was there when it began has received the
-- message, or has been released because it was removed, or the broker has been stopped; requests may be
-- served in between, and messages sent one by one or in parallel. A subscriber that joins while the
-- dispatch goes on may be passed over.
pub dispatch_lem :
    (b b' : Broker) (w : Dispatch) (ch done : Chan)
    → load_sub b.subs ch ≡ some done
    → (ms : Moves b start b' w) → Ended ms
    → (has ch w.got ≡ true) ⊎ (has done b'.closed ≡ true) ⊎ (b'.stopped ≡ true)
dispatch_lem b b' w ch done l ms e = elim (Moves-Stays ch done ms l) [
  | inr c ↦ inr (inl c)
  | inl (s, k) ↦ elim (Moves-Status ch done ms (ahead l refl)) [
    | ahead q n ↦ absurd (ground (arith, n, e.walked ch s))
    | waiting h ↦ absurd (cc (subst (λ p. pair_in ch done p ≡ true) e.idle h))
    | received h ↦ inl h
    | let_go h ↦ inr (inl h)
    | ended h ↦ inr (inr h)
  ]
]
