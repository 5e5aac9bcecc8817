-- ===== src/Pubsub/Broker/Serve.antt =====
-- The requests that wait in pubsub/broker.go, served one after the other: the last one about a channel
-- decides whether it is subscribed.
use fun.Prelude.{
  ℕ, ◌≡◌, refl, sym, ap, ◌∙◌, Bool, false, not, List, [], ◌∷◌, Option, none, some, arith, ◌==◌,
  if◌then◌else◌,
}
use fun.Links.{has, Distinct}
use fun.Pubsub.Broker.{
  Chan, BrokerOptions, Request, Broker, make_broker, load_sub, check_sub, delete_sub, close_chan,
  serve,
}
use fun.Dt.List.{◌>>=◌}
use fun.Pubsub.Broker.Steps.{
  Step, subscribes, unsubscribes, asks, serves, sends, stops, Reach, here, next, Sound, Reach-Sound,
  make_broker-Sound, serve_lem,
}

abbrev chans : List (Chan × Chan) → List Chan
chans [] = []
chans ((c, done) ∷ subs) = c ∷ chans subs

check-chans : (subs : List (Chan × Chan)) (ch : Chan) → check_sub subs ch ≡ has ch (chans subs)
unfolding check_sub load_sub
check-chans [] ch = refl
check-chans ((c, done) ∷ subs) ch = ground (arith, check-chans subs ch)

has-delete :
    (subs : List (Chan × Chan)) (ch c : Chan)
    → Distinct (chans subs)
    → has c (chans (delete_sub subs ch)) ≡ (if c == ch then false else has c (chans subs))
unfolding delete_sub
has-delete [] ch c d = ground arith
has-delete ((e, done) ∷ subs) ch c d = ground (arith, d.0, has-delete subs ch c d.1)

Distinct-delete :
    (subs : List (Chan × Chan)) (ch : Chan)
    → Distinct (chans subs)
    → Distinct (chans (delete_sub subs ch))
unfolding delete_sub
Distinct-delete [] ch d = tt
Distinct-delete ((e, done) ∷ subs) ch d =
    ground (arith, d.0, Distinct-delete subs ch d.1, has-delete subs ch e d.1)

serve-Distinct :
    (depth : ℕ) (req : Request) (b b' : Broker)
    → serve depth req b ≡ some b'
    → Distinct (chans b.subs)
    → Distinct (chans b'.subs)
unfolding serve close_chan
serve-Distinct depth req b b' e d =
    ground (arith, e, d, Distinct-delete b.subs req.ch d, check-chans b.subs req.ch)

-- Whether the channel is subscribed after this request, when it was or was not before.
unfoldable pub decides : Chan → Request → Bool → Bool
decides ch req before = elim req.stats [
  | some caller ↦ before
  | none ↦ if req.ch == ch then not req.unsub else before
]

serve-decides :
    (depth : ℕ) (req : Request) (b b' : Broker) (ch : Chan)
    → serve depth req b ≡ some b'
    → Distinct (chans b.subs)
    → has ch (chans b'.subs) ≡ decides ch req (has ch (chans b.subs))
unfolding serve close_chan decides
serve-decides depth req b b' ch e d =
    ground (arith, e, has-delete b.subs req.ch ch d, check-chans b.subs req.ch)

-- The control loop on the requests that wait, none of them new; `depth` is what `length()` answers.
unfoldable pub serve_waiting : ℕ → List Request → Broker → Option Broker
serve_waiting depth [] b = some b
serve_waiting depth (req ∷ rest) b =
    serve depth req (record b { ctl = rest }) >>= (λ b'. serve_waiting depth rest b')

-- What the requests say of the channel, the last one first.
unfoldable pub fate : Chan → List Request → Bool → Bool
unfolding decides
fate ch [] before = before
fate ch (req ∷ rest) before = fate ch rest (decides ch req before)

serve-ctl :
    (depth : ℕ) (req : Request) (b b' : Broker) → serve depth req b ≡ some b' → b'.ctl ≡ b.ctl
unfolding serve close_chan
serve-ctl depth req b b' e = ground (arith, e)

serve_waiting-Sound :
    (depth : ℕ) (reqs : List Request) (b : Broker)
    → b.ctl ≡ reqs
    → Sound b
    → Distinct (chans b.subs)
    → (b' : Broker) × (serve_waiting depth reqs b ≡ some b')
      × ((ch : Chan) → check_sub b'.subs ch ≡ fate ch reqs (check_sub b.subs ch))
unfolding serve_waiting fate
serve_waiting-Sound depth [] b c s d = (b, refl, λ ch. refl)
serve_waiting-Sound depth (req ∷ rest) b c s d =
    let b0 : Broker = record b { ctl = rest } in
    let t = serve_lem depth req rest b c s in
    let d' = serve-Distinct depth req b0 t.after t.answered d in
    let (b', e, f) =
      serve_waiting-Sound depth rest t.after (serve-ctl depth req b0 t.after t.answered) t.sound
        d' in
    (
      b',
      rw t.answered e,
      λ ch.
          let one = serve-decides depth req b0 t.after ch t.answered d in
          f ch
          ∙ ap (fate ch rest) (
              check-chans t.after.subs ch
              ∙ one
              ∙ ap (decides ch req) (sym (check-chans b.subs ch))),
    )

Step-Distinct : {b b' : Broker} → Step b b' → Distinct (chans b.subs) → Distinct (chans b'.subs)
Step-Distinct (subscribes e) d = rw e d
Step-Distinct (unsubscribes c e) d = rw e d
Step-Distinct (asks caller e) d = rw e d
Step-Distinct {b = b} {b' = b'} (serves depth req rest c e) d =
    serve-Distinct depth req (record b { ctl = rest }) b' e d
Step-Distinct (sends e) d = rw e d
Step-Distinct (stops e) d = rw e d

Reach-Distinct : {s b : Broker} → Distinct (chans s.subs) → Reach s b → Distinct (chans b.subs)
Reach-Distinct h here = h
Reach-Distinct h (next r st) = Step-Distinct st (Reach-Distinct h r)

-- From any state that a new broker reaches, the control loop serves all requests that wait, without a
-- panic. A channel is subscribed after that exactly as the last request about it says, and as it was when
-- there is none: in particular a `Subscribe` that gave up, and so queued the removal behind its own
-- request, leaves no subscription.
pub serve_waiting_lem :
    (opts : BrokerOptions) (b : Broker) (depth : ℕ)
    → Reach (make_broker opts) b
    → (b' : Broker) × (serve_waiting depth b.ctl b ≡ some b')
      × ((ch : Chan) → check_sub b'.subs ch ≡ fate ch b.ctl (check_sub b.subs ch))
unfolding make_broker
serve_waiting_lem opts b depth r =
    serve_waiting-Sound depth b.ctl b refl (Reach-Sound (make_broker-Sound opts) r)
      (Reach-Distinct tt r)
