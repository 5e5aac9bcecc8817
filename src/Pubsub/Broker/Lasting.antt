-- ===== src/Pubsub/Broker/Lasting.antt =====
-- What each step of the broker of pubsub/broker.go leaves of a subscription, of a closed channel and of the
-- stop.
use fun.Prelude.{
  ℕ, ◌≡◌, refl, ◌⊎◌, inl, inr, true, ◌&&◌, some, arith, ◌==◌, Bool-cases, Option-cases,
}
use fun.Links.{has}
use fun.Pubsub.Broker.{Chan, Request, Broker, load_sub, close_chan, serve}
use fun.Pubsub.Broker.Steps.{Step, subscribes, unsubscribes, asks, serves, sends, stops}
use fun.Pubsub.Broker.Subscribed.{serve-load}

serve_removes :
    (depth : ℕ) (req : Request) (b b' : Broker) (ch done : Chan)
    → serve depth req b ≡ some b'
    → (req.unsub && req.ch == ch) ≡ true
    → load_sub b.subs ch ≡ some done
    → (load_sub b'.subs ch ≡ some done) ⊎ (has done b'.closed ≡ true)
unfolding serve close_chan
serve_removes depth req b b' ch done e r h =
    let same : req.ch ≡ ch = ground (arith, r) in
    let found : load_sub b.subs req.ch ≡ some done = rw same h in
    elim (Option-cases req.stats) [
      | inr (c, s) ↦ inl (ground (arith, e, s, h))
      | inl s ↦ inr (ground (arith, e, s, r, found))
    ]

serve-closed :
    (depth : ℕ) (req : Request) (b b' : Broker) (c : Chan)
    → serve depth req b ≡ some b'
    → has c b.closed ≡ true
    → has c b'.closed ≡ true
unfolding serve close_chan
serve-closed depth req b b' c e h = ground (arith, e, h)

serve-stopped :
    (depth : ℕ) (req : Request) (b b' : Broker)
    → serve depth req b ≡ some b'
    → b.stopped ≡ true
    → b'.stopped ≡ true
unfolding serve close_chan
serve-stopped depth req b b' e h = ground (arith, e, h)

pub Step-load :
    (ch done : Chan) {b b' : Broker}
    → Step b b'
    → load_sub b.subs ch ≡ some done
    → (load_sub b'.subs ch ≡ some done) ⊎ (has done b'.closed ≡ true)
Step-load ch done {b = b} {b' = b'} (subscribes e) h = inl (rw e h)
Step-load ch done {b = b} {b' = b'} (unsubscribes c e) h = inl (rw e h)
Step-load ch done {b = b} {b' = b'} (asks caller e) h = inl (rw e h)
Step-load ch done {b = b} {b' = b'} (serves depth req rest c e) h =
    elim (Bool-cases (req.unsub && req.ch == ch)) [
      | inl y ↦ serve_removes depth req (record b { ctl = rest }) b' ch done e y h
      | inr n ↦ inl (serve-load depth req (record b { ctl = rest }) b' ch done e n h)
    ]
Step-load ch done {b = b} {b' = b'} (sends e) h = inl (rw e h)
Step-load ch done {b = b} {b' = b'} (stops e) h = inl (rw e h)

pub Step-closed :
    (c : Chan) {b b' : Broker} → Step b b' → has c b.closed ≡ true → has c b'.closed ≡ true
Step-closed c (subscribes e) h = rw e h
Step-closed c (unsubscribes d e) h = rw e h
Step-closed c (asks caller e) h = rw e h
Step-closed c {b = b} {b' = b'} (serves depth req rest k e) h =
    serve-closed depth req (record b { ctl = rest }) b' c e h
Step-closed c (sends e) h = rw e h
Step-closed c (stops e) h = rw e h

pub Step-stopped : {b b' : Broker} → Step b b' → b.stopped ≡ true → b'.stopped ≡ true
Step-stopped (subscribes e) h = rw e h
Step-stopped (unsubscribes d e) h = rw e h
Step-stopped (asks caller e) h = rw e h
Step-stopped {b = b} {b' = b'} (serves depth req rest k e) h =
    serve-stopped depth req (record b { ctl = rest }) b' e h
Step-stopped (sends e) h = rw e h
Step-stopped (stops e) h = rw e refl
