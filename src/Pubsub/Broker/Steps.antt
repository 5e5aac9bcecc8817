-- ===== src/Pubsub/Broker/Steps.antt =====
-- The control loop of pubsub/broker.go among the callers' requests: a relation on the broker's states, and
-- what holds in every state that is reached.
use fun.Prelude.{
  ℕ, ◌+◌, ◌%◌, ◌^◌, ◌≤◌, ◌<◌, ◌≡◌, refl, sym, ap, ◌∙◌, inl, inr, true, false, not, ◌&&◌, ◌||◌, List,
  [], ◌∷◌, ◌++◌, none, some, All, arith, ◌==◌, Bool-cases, Option-cases,
}
use mathlib.Core.Path.{subst}
use mathlib.Core.List.{append_assoc, append-nil}
use fun.Links.{has, has_ne, Distinct}
use fun.Pubsub.Broker.{
  Chan, BrokerOptions, Request, Broker, make_broker, load_sub, check_sub, delete_sub, close_chan,
  stats_of, serve, subscribe_request, unsubscribe_request, stats_request, queue_request,
}

-- One step: a caller sends a request, the loop serves the first one, a message is counted, or the context
-- of the broker ends. `depth` is what `length()` answers.
pub data Step (b b' : Broker) : Type 0 where
  subscribes :
      b'
        ≡ queue_request
            (subscribe_request b.fresh (b.fresh + 1))
            (record b { fresh = b.fresh + 1 + 1 })
      → Step b b'
  unsubscribes : (ch : Chan) → b' ≡ queue_request (unsubscribe_request ch) b → Step b b'
  asks : (caller : ℕ) → b' ≡ queue_request (stats_request caller) b → Step b b'
  serves :
      (depth : ℕ) (req : Request) (rest : List Request)
      → b.ctl ≡ req ∷ rest
      → serve depth req (record b { ctl = rest }) ≡ some b'
      → Step b b'
  sends : b' ≡ record b { count = (b.count + 1) % 2 ^ 64 } → Step b b'
  stops : b' ≡ record b { stopped = true } → Step b b'

pub data Reach (s : Broker) : Broker → Type 0 where
  here : Reach s s
  next : {t u : Broker} → Reach s t → Step t u → Reach s u

-- The channels that are to be closed once: those of the subscriptions and of the requests that wait.
abbrev pub dones : List (Chan × Chan) → List Chan
dones [] = []
dones ((c, done) ∷ subs) = done ∷ dones subs

abbrev pub acks : List Request → List Chan
acks [] = []
acks (r ∷ rs) = elim r.ack [ none ↦ acks rs | some a ↦ a ∷ acks rs ]

-- Exactly the requests of `Subscribe` have a channel to close.
abbrev pub IsRequest : Request → Type 0
IsRequest r =
    elim r.ack [ none ↦ false | some a ↦ true ]
    ≡ (not r.unsub && elim r.stats [ none ↦ true | some c ↦ false ])

-- Channels that are to be closed once, and those that have been, among those below `fresh`.
pub record Ledger (pending closed : List Chan) (fresh : Chan) : Type 0 where
  pub distinct : Distinct pending
  pub unclosed : (c : Chan) → has c pending ≡ true → has c closed ≡ false
  pub old : (c : Chan) → has c pending ≡ true → c < fresh
  pub closed_old : (c : Chan) → has c closed ≡ true → c < fresh

pub record Sound (b : Broker) : Type 0 where
  pub requests : All IsRequest b.ctl
  pub ledger : Ledger (dones b.subs ++ acks b.ctl) b.closed b.fresh

pub has-append : (c : Chan) (xs ys : List Chan) → has c (xs ++ ys) ≡ (has c xs || has c ys)
has-append c [] ys = refl
has-append c (x ∷ xs) ys = ground (arith, has-append c xs ys)

acks-append : (rs ss : List Request) → acks (rs ++ ss) ≡ acks rs ++ acks ss
acks-append [] ss = refl
acks-append (r ∷ rs) ss = ground (arith, acks-append rs ss)

All-snoc :
    (rs : List Request) (r : Request)
    → All IsRequest rs
    → IsRequest r
    → All IsRequest (rs ++ (r ∷ []))
All-snoc [] r h k = (k, tt)
All-snoc (x ∷ rs) r h k = (h.0, All-snoc rs r h.1 k)

Distinct-snoc :
    (xs : List Chan) (c : Chan) → Distinct xs → has c xs ≡ false → Distinct (xs ++ (c ∷ []))
Distinct-snoc [] c d n = (refl, tt)
Distinct-snoc (x ∷ xs) c d n =
    (ground (arith, has-append x xs (c ∷ []), d.0, n), Distinct-snoc xs c d.1 (ground (arith, n)))

-- Taking one out of a list of distinct channels.
Distinct-middle :
    (xs : List Chan) (c : Chan) (ys : List Chan)
    → Distinct (xs ++ (c ∷ ys))
    → Distinct (xs ++ ys) × (has c (xs ++ ys) ≡ false)
Distinct-middle [] c ys d = (d.1, d.0)
Distinct-middle (x ∷ xs) c ys d =
    let rest = Distinct-middle xs c ys d.1 in
    let a = has-append x xs (c ∷ ys) in
    let b = has-append x xs ys in
    ((ground (arith, a, b, d.0), rest.0), ground (arith, a, d.0, rest.1))

has-middle :
    (c x : Chan) (xs ys : List Chan) → has c (xs ++ ys) ≡ true → has c (xs ++ (x ∷ ys)) ≡ true
has-middle c x [] ys h = ground arith
has-middle c x (y ∷ xs) ys h = ground (arith, has-middle c x xs ys)

has_self : (c : Chan) (xs ys : List Chan) → has c (xs ++ (c ∷ ys)) ≡ true
has_self c [] ys = ground arith
has_self c (x ∷ xs) ys = ground (arith, has_self c xs ys)

-- A pending channel can be closed, and is not pending then.
Ledger-close :
    (xs : List Chan) (c : Chan) (ys closed : List Chan) (fresh : Chan)
    → Ledger (xs ++ (c ∷ ys)) closed fresh
    → (has c closed ≡ false) × Ledger (xs ++ ys) (c ∷ closed) fresh
Ledger-close xs c ys closed fresh l =
    let (d, out) = Distinct-middle xs c ys l.distinct in
    let here = has_self c xs ys in
    (
      l.unclosed c here,
      record {
        distinct = d;
        unclosed = λ e i.
            ground (arith, l.unclosed e (has-middle e c xs ys i), has_ne e c (xs ++ ys) i out);
        old = λ e i. l.old e (has-middle e c xs ys i);
        closed_old = λ e i. ground (arith, l.old c here, l.closed_old e);
      },
    )

Ledger-new :
    (xs closed : List Chan) (fresh : Chan)
    → Ledger xs closed fresh
    → Ledger (fresh ∷ xs) closed (fresh + 1)
Ledger-new xs closed fresh l = record {
  distinct = (
    elim (Bool-cases (has fresh xs)) [ inr n ↦ n | inl y ↦ absurd (omega (arith, l.old fresh y)) ],
    l.distinct,
  );
  unclosed = λ e i. elim (Bool-cases (has e closed)) [
    | inr n ↦ n
    | inl y ↦ absurd (ground (arith, l.unclosed e, l.closed_old e y))
  ];
  old = λ e i. ground (arith, l.old e);
  closed_old = λ e i. omega (arith, l.closed_old e i);
}

Ledger-snoc :
    (xs closed : List Chan) (fresh c : Chan)
    → fresh ≤ c
    → Ledger xs closed fresh
    → Ledger (xs ++ (c ∷ [])) closed (c + 1)
Ledger-snoc xs closed fresh c f l = record {
  distinct =
      Distinct-snoc xs c l.distinct
        (elim (Bool-cases (has c xs)) [ inr n ↦ n | inl y ↦ absurd (omega (arith, l.old c y)) ]);
  unclosed = λ e i. elim (Bool-cases (has e closed)) [
    | inr n ↦ n
    | inl y ↦ absurd (ground (arith, l.unclosed e, l.closed_old e y, has-append e xs (c ∷ [])))
  ];
  old = λ e i. ground (arith, l.old e, has-append e xs (c ∷ []));
  closed_old = λ e i. omega (arith, l.closed_old e i);
}

dones-delete :
    (subs : List (Chan × Chan)) (ch done : Chan)
    → load_sub subs ch ≡ some done
    → (xs : List Chan) × (ys : List Chan) × (dones subs ≡ xs ++ (done ∷ ys))
      × (dones (delete_sub subs ch) ≡ xs ++ ys)
unfolding load_sub delete_sub
dones-delete [] ch done h = absurd (cc h)
dones-delete ((c, d) ∷ subs) ch done h = elim (Bool-cases (c == ch)) [
  | inl y ↦ ([], dones subs, ground (arith, y, h), ground (arith, y))
  | inr n ↦
      let (xs, ys, e, f) = dones-delete subs ch done (ground (arith, n, h)) in
      (d ∷ xs, ys, ap (λ r. d ∷ r) e, ground (arith, n, f))
]

-- What the loop makes of the first request.
pub record Served (depth : ℕ) (req : Request) (b : Broker) : Type 0 where
  pub after : Broker
  pub answered : serve depth req b ≡ some after
  pub sound : Sound after

serve_closes :
    (b : Broker) (xs : List Chan) (c : Chan) (ys : List Chan)
    → dones b.subs ++ acks b.ctl ≡ xs ++ ys
    → All IsRequest b.ctl
    → Ledger (xs ++ (c ∷ ys)) b.closed b.fresh
    → (close_chan (some c) b ≡ some (record b { closed = c ∷ b.closed }))
      × Sound (record b { closed = c ∷ b.closed })
unfolding close_chan
serve_closes b xs c ys e q l =
    let (n, l') = Ledger-close xs c ys b.closed b.fresh l in
    (
      ground (arith, n),
      record { requests = q; ledger = subst (λ p. Ledger p (c ∷ b.closed) b.fresh) (sym e) l' },
    )

serve_stats :
    (depth : ℕ) (req : Request) (b : Broker) (caller : ℕ)
    → req.stats ≡ some caller
    → Sound b
    → Served depth req b
unfolding serve
serve_stats depth req b caller h s = record {
  after = record b { answers = (caller, stats_of depth b) ∷ b.answers };
  answered = rw h refl;
  sound = record { requests = s.requests; ledger = s.ledger };
}

serve_unsub :
    (depth : ℕ) (req : Request) (b : Broker)
    → req.stats ≡ none
    → req.unsub ≡ true
    → Sound b
    → Served depth req b
unfolding serve
serve_unsub depth req b h u s = elim (Option-cases (load_sub b.subs req.ch)) [
  | inl e ↦ record { after = b; answered = rw (h, u) (rw e refl); sound = s }
  | inr (done, e) ↦
      let (xs, ys, f, g) = dones-delete b.subs req.ch done e in
      let b1 = record b { subs = delete_sub b.subs req.ch } in
      let (k, w) =
        serve_closes b1 xs done (ys ++ acks b.ctl)
          (ap (λ r. r ++ acks b.ctl) g ∙ append_assoc xs ys (acks b.ctl)) s.requests
          (subst (λ p. Ledger p b.closed b.fresh)
            (ap (λ r. r ++ acks b.ctl) f ∙ append_assoc xs (done ∷ ys) (acks b.ctl)) s.ledger) in
      record {
        after = record b1 { closed = done ∷ b1.closed };
        answered = rw (h, u) (rw e k);
        sound = w;
      }
]

serve_subscribe :
    (depth : ℕ) (req : Request) (b : Broker) (a : Chan)
    → req.stats ≡ none
    → req.unsub ≡ false
    → req.ack ≡ some a
    → All IsRequest b.ctl
    → Ledger (dones b.subs ++ (a ∷ acks b.ctl)) b.closed b.fresh
    → Served depth req b
unfolding serve
serve_subscribe depth req b a h u k q l = elim (Bool-cases (check_sub b.subs req.ch)) [
  | inl y ↦
      let (e, w) = serve_closes b (dones b.subs) a (acks b.ctl) refl q l in
      record {
        after = record b { closed = a ∷ b.closed };
        answered = rw (h, u) (rw y (rw k e));
        sound = w;
      }
  | inr n ↦
      let b1 = record b { subs = (req.ch, b.fresh) ∷ b.subs; fresh = b.fresh + 1 } in
      let (e, w) =
        serve_closes b1 (b.fresh ∷ dones b.subs) a (acks b.ctl) refl q
          (Ledger-new (dones b.subs ++ (a ∷ acks b.ctl)) b.closed b.fresh l) in
      record {
        after = record b1 { closed = a ∷ b1.closed };
        answered = rw (h, u) (rw n (rw k e));
        sound = w;
      }
]

pub serve_lem :
    (depth : ℕ) (req : Request) (rest : List Request) (b : Broker)
    → b.ctl ≡ req ∷ rest
    → Sound b
    → Served depth req (record b { ctl = rest })
serve_lem depth req rest b e s =
    let b0 : Broker = record b { ctl = rest } in
    let q : All IsRequest (req ∷ rest) = subst (All IsRequest) e s.requests in
    let l : Ledger (dones b.subs ++ acks (req ∷ rest)) b.closed b.fresh =
      subst (λ c. Ledger (dones b.subs ++ acks c) b.closed b.fresh) e s.ledger in
    elim (Option-cases req.ack) [
      | inr (a, k) ↦
          serve_subscribe depth req b0 a (ground (arith, k, q.0)) (ground (arith, k, q.0)) k q.1
            (subst (λ c. Ledger (dones b.subs ++ c) b.closed b.fresh) (ground (arith, k)) l)
      | inl k ↦
          let s0 : Sound b0 = record {
            requests = q.1;
            ledger = subst (λ c. Ledger (dones b.subs ++ c) b.closed b.fresh) (ground (arith, k)) l;
          } in
          elim (Option-cases req.stats) [
            | inr (c, h) ↦ serve_stats depth req b0 c h s0
            | inl h ↦ serve_unsub depth req b0 h (ground (arith, k, h, q.0)) s0
          ]
    ]

append-nil_acks : (b : Broker) (r : Request) → r.ack ≡ none → acks (b.ctl ++ (r ∷ [])) ≡ acks b.ctl
append-nil_acks b r h = acks-append b.ctl (r ∷ []) ∙ ground (arith, h, append-nil (acks b.ctl))

pub Step-Sound : {b b' : Broker} → Step b b' → Sound b → Sound b'
Step-Sound {b = b} {b' = b'} (subscribes e) s =
    let req = subscribe_request b.fresh (b.fresh + 1) in
    let longer : Ledger ((dones b.subs ++ acks b.ctl) ++ ((b.fresh + 1) ∷ [])) b.closed
        (b.fresh + 1 + 1) =
      Ledger-snoc (dones b.subs ++ acks b.ctl) b.closed b.fresh (b.fresh + 1) (omega arith)
        s.ledger in
    subst Sound (sym e) (record {
      requests = All-snoc b.ctl req s.requests refl;
      ledger =
          subst (λ p. Ledger p b.closed (b.fresh + 1 + 1))
            (append_assoc (dones b.subs) (acks b.ctl) ((b.fresh + 1) ∷ [])
              ∙ ap (λ r. dones b.subs ++ r) (sym (acks-append b.ctl (req ∷ []))))
            longer;
    })
Step-Sound {b = b} {b' = b'} (unsubscribes ch e) s =
    let req = unsubscribe_request ch in
    subst Sound (sym e) (record {
      requests = All-snoc b.ctl req s.requests refl;
      ledger =
          subst (λ p. Ledger (dones b.subs ++ p) b.closed b.fresh)
            (sym (append-nil_acks b req refl)) s.ledger;
    })
Step-Sound {b = b} {b' = b'} (asks caller e) s =
    let req = stats_request caller in
    subst Sound (sym e) (record {
      requests = All-snoc b.ctl req s.requests refl;
      ledger =
          subst (λ p. Ledger (dones b.subs ++ p) b.closed b.fresh)
            (sym (append-nil_acks b req refl)) s.ledger;
    })
Step-Sound {b = b} {b' = b'} (serves depth req rest c e) s =
    let t = serve_lem depth req rest b c s in subst Sound (cc (t.answered, e)) t.sound
Step-Sound {b = b} {b' = b'} (sends e) s =
    subst Sound (sym e) (record { requests = s.requests; ledger = s.ledger })
Step-Sound {b = b} {b' = b'} (stops e) s =
    subst Sound (sym e) (record { requests = s.requests; ledger = s.ledger })

pub Reach-Sound : {s b : Broker} → Sound s → Reach s b → Sound b
Reach-Sound h here = h
Reach-Sound h (next r st) = Step-Sound st (Reach-Sound h r)

pub make_broker-Sound : (opts : BrokerOptions) → Sound (make_broker opts)
unfolding make_broker
make_broker-Sound opts = record {
  requests = tt;
  ledger = record {
    distinct = tt;
    unclosed = λ c i. refl;
    old = λ c i. absurd (cc i);
    closed_old = λ c i. absurd (cc i);
  };
}

-- In every state that a new broker reaches, the control loop serves the request that is first, whichever
-- it is, without a panic: no channel is closed twice, and none that is nil.
pub serve_no_panic :
    (opts : BrokerOptions) (b : Broker) (depth : ℕ) (req : Request) (rest : List Request)
    → Reach (make_broker opts) b
    → b.ctl ≡ req ∷ rest
    → (b' : Broker) × (serve depth req (record b { ctl = rest }) ≡ some b') × Sound b'
serve_no_panic opts b depth req rest r e =
    let t = serve_lem depth req rest b e (Reach-Sound (make_broker-Sound opts) r) in
    (t.after, t.answered, t.sound)
