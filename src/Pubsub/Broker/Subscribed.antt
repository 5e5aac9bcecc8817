-- ===== src/Pubsub/Broker/Subscribed.antt =====
-- What `Subscribe` of pubsub/broker.go promises: once its request is acknowledged the channel is among those
-- that get messages, until a request to remove it is served.
use fun.Prelude.{
  ◌+◌, ◌≡◌, refl, sym, ◌⊎◌, inl, inr, Bool, true, false, ◌&&◌, ◌||◌, All, List, [], ◌∷◌, ◌++◌, none,
  some, arith, ◌==◌, Bool-cases, Option-cases,
}
use mathlib.Core.Path.{subst}
use fun.Links.{has}
use fun.Pubsub.Broker.{
  Chan, BrokerOptions, Request, Broker, make_broker, load_sub, check_sub, delete_sub, close_chan,
  serve, subscribe_request, unsubscribe_request, stats_request, queue_request,
}
use fun.Pubsub.Broker.Steps.{
  Step, subscribes, unsubscribes, asks, serves, sends, stops, Reach, Sound, Reach-Sound,
  make_broker-Sound, acks, dones, has-append, Step-Sound, IsRequest,
}

-- Whether a request to remove the channel is served in this step.
abbrev pub removes : {b b' : Broker} → Chan → Step b b' → Bool
removes ch (serves depth req rest c e) = req.unsub && req.ch == ch
removes ch step = false

-- Steps in which no request to remove the channel is served.
pub data Later (ch : Chan) (s : Broker) : Broker → Type 0 where
  here : Later ch s s
  next : {t u : Broker} → Later ch s t → (step : Step t u) → removes ch step ≡ false → Later ch s u

pub check-load :
    (subs : List (Chan × Chan)) (ch done : Chan)
    → load_sub subs ch ≡ some done
    → check_sub subs ch ≡ true
unfolding check_sub
check-load subs ch done h = ground (arith, h)

-- Whether a request to subscribe the channel with this acknowledgement waits.
abbrev waits : Chan → Chan → List Request → Bool
waits ch ack [] = false
waits ch ack (r ∷ rs) =
    (elim r.ack [ none ↦ false | some a ↦ a == ack ] && r.ch == ch) || waits ch ack rs

waits-append :
    (ch ack : Chan) (rs ss : List Request) → waits ch ack rs ≡ true → waits ch ack (rs ++ ss) ≡ true
waits-append ch ack [] ss h = absurd (cc h)
waits-append ch ack (r ∷ rs) ss h = ground (arith, h, waits-append ch ack rs ss)

waits-acks : (ch ack : Chan) (rs : List Request) → waits ch ack rs ≡ true → has ack (acks rs) ≡ true
waits-acks ch ack [] h = absurd (cc h)
waits-acks ch ack (r ∷ rs) h = ground (arith, h, waits-acks ch ack rs)

waits-last :
    (ch ack : Chan) (rs : List Request)
    → waits ch ack (rs ++ (subscribe_request ch ack ∷ [])) ≡ true
waits-last ch ack [] = ground arith
waits-last ch ack (r ∷ rs) = ground (arith, waits-last ch ack rs)

load-delete :
    (subs : List (Chan × Chan)) (c ch : Chan)
    → (c == ch) ≡ false
    → load_sub (delete_sub subs c) ch ≡ load_sub subs ch
unfolding load_sub delete_sub
load-delete [] c ch n = refl
load-delete ((d, done) ∷ subs) c ch n = ground (arith, n, load-delete subs c ch)

serve-ctl :
    (depth : Chan) (req : Request) (b b' : Broker) → serve depth req b ≡ some b' → b'.ctl ≡ b.ctl
unfolding serve close_chan
serve-ctl depth req b b' e = ground (arith, e)

pub serve-load :
    (depth : Chan) (req : Request) (b b' : Broker) (ch done : Chan)
    → serve depth req b ≡ some b'
    → (req.unsub && req.ch == ch) ≡ false
    → load_sub b.subs ch ≡ some done
    → load_sub b'.subs ch ≡ some done
unfolding serve close_chan check_sub load_sub
serve-load depth req b b' ch done e n h = ground (arith, e, n, h, load-delete b.subs req.ch ch)

serve-subscribes :
    (depth : Chan) (req : Request) (b b' : Broker)
    → serve depth req b ≡ some b'
    → req.stats ≡ none
    → req.unsub ≡ false
    → check_sub b'.subs req.ch ≡ true
unfolding serve close_chan check_sub load_sub
serve-subscribes depth req b b' e h u = ground (arith, e, h, u)

-- The request waits, or the channel is subscribed.
abbrev Known : Chan → Chan → Broker → Type 0
Known ch ack b = (waits ch ack b.ctl ≡ true) ⊎ (check_sub b.subs ch ≡ true)

check_cases :
    (subs : List (Chan × Chan)) (ch : Chan)
    → check_sub subs ch ≡ true
    → (done : Chan) × (load_sub subs ch ≡ some done)
unfolding check_sub
check_cases subs ch h = elim (Option-cases (load_sub subs ch)) [
  | inr d ↦ d
  | inl n ↦ absurd (ground (arith, n, h))
]

served-Known :
    (ch ack depth : Chan) (req : Request) (rest : List Request) (b b' : Broker)
    → b.ctl ≡ req ∷ rest
    → serve depth req (record b { ctl = rest }) ≡ some b'
    → (req.unsub && req.ch == ch) ≡ false
    → IsRequest req
    → Known ch ack b
    → Known ch ack b'
served-Known ch ack depth req rest b b' c e n q (inr k) =
    let (done, l) = check_cases b.subs ch k in
    inr
      (check-load b'.subs ch done (serve-load depth req (record b { ctl = rest }) b' ch done e n l))
served-Known ch ack depth req rest b b' c e n q (inl k) =
    let same = serve-ctl depth req (record b { ctl = rest }) b' e in
    let w : waits ch ack (req ∷ rest) ≡ true = subst (λ l. waits ch ack l ≡ true) c k in
    elim (Bool-cases (waits ch ack rest)) [
      | inl y ↦ inl (subst (λ l. waits ch ack l ≡ true) (sym same) y)
      | inr f ↦
          let ours : (req.ch ≡ ch) × (req.stats ≡ none) × (req.unsub ≡ false) =
            ground (arith, w, f, q) in
          inr (
            subst (λ d. check_sub b'.subs d ≡ true) ours.0
              (serve-subscribes depth req (record b { ctl = rest }) b' e ours.1 ours.2))
    ]

queued-Known :
    (ch ack : Chan) (req : Request) (b : Broker)
    → Known ch ack b
    → Known ch ack (queue_request req b)
queued-Known ch ack req b (inl k) = inl (waits-append ch ack b.ctl (req ∷ []) k)
queued-Known ch ack req b (inr k) = inr k

Step-Known :
    (ch ack : Chan) {b b' : Broker} (step : Step b b')
    → removes ch step ≡ false
    → Sound b
    → Known ch ack b
    → Known ch ack b'
Step-Known ch ack {b = b} {b' = b'} (subscribes e) n s k = subst (Known ch ack) (sym e) (
    queued-Known ch ack (subscribe_request b.fresh (b.fresh + 1))
      (record b { fresh = b.fresh + 1 + 1 }) k)
Step-Known ch ack {b = b} {b' = b'} (unsubscribes c e) n s k =
    subst (Known ch ack) (sym e) (queued-Known ch ack (unsubscribe_request c) b k)
Step-Known ch ack {b = b} {b' = b'} (asks caller e) n s k =
    subst (Known ch ack) (sym e) (queued-Known ch ack (stats_request caller) b k)
Step-Known ch ack {b = b} {b' = b'} (serves depth req rest c e) n s k =
    served-Known ch ack depth req rest b b' c e n (subst (All IsRequest) c s.requests).0 k
Step-Known ch ack {b = b} {b' = b'} (sends e) n s k = subst (Known ch ack) (sym e) k
Step-Known ch ack {b = b} {b' = b'} (stops e) n s k = subst (Known ch ack) (sym e) k

Later-Known :
    (ch ack : Chan) {s b : Broker}
    → Sound s
    → Known ch ack s
    → Later ch s b
    → Sound b × Known ch ack b
Later-Known ch ack h k here = (h, k)
Later-Known ch ack h k (next l step n) =
    let r = Later-Known ch ack h k l in (Step-Sound step r.0, Step-Known ch ack step n r.0 r.1)

-- Take a state that a new broker reaches, the request of a `Subscribe` sent in it, and any steps after that
-- in which no request to remove the channel is served. Once the request is acknowledged, which is when
-- `Subscribe` returns the channel, the channel is among the subscriptions.
pub subscribed_lem :
    (opts : BrokerOptions) (b b' : Broker)
    → Reach (make_broker opts) b
    → Later b.fresh
        (queue_request
          (subscribe_request b.fresh (b.fresh + 1))
          (record b { fresh = b.fresh + 1 + 1 }))
        b'
    → has (b.fresh + 1) b'.closed ≡ true
    → check_sub b'.subs b.fresh ≡ true
subscribed_lem opts b b' r l h =
    let ch = b.fresh in
    let ack = b.fresh + 1 in
    let asked = queue_request (subscribe_request ch ack) (record b { fresh = b.fresh + 1 + 1 }) in
    let start : Sound asked =
      Step-Sound (subscribes refl) (Reach-Sound (make_broker-Sound opts) r) in
    let (s, k) = Later-Known ch ack start (inl (waits-last ch ack b.ctl)) l in
    elim k [
      | inr y ↦ y
      | inl w ↦ absurd (
          ground (
            arith,
            h,
            s.ledger.unclosed ack (
                ground (
                  arith,
                  has-append ack (dones b'.subs) (acks b'.ctl),
                  waits-acks ch ack b'.ctl w,
                )),
          ))
    ]
