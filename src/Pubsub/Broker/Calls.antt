-- ===== src/Pubsub/Broker/Calls.antt =====
-- The calls of pubsub/broker.go on the side of the caller. What other goroutines do while a call waits is an
-- argument, and so is the case that each `select` takes.
use fun.Prelude.{
  ◌+◌, ◌%◌, ◌^◌, ◌≡◌, sym, ◌↔◌, ◌⊎◌, inl, inr, Bool, true, false, ◌&&◌, ◌||◌, List, Option, none,
  some, arith, if◌then◌else◌,
}
use fun.Pubsub.Errors.{ContextError, Error, queue_closed}
use fun.Pubsub.Tracker.{Floats}
use mathlib.Core.Path.{subst}
use fun.Pubsub.Queue.{Ptr, Queue, push}
use fun.Pubsub.Queue.Holds.{Holds, view}
use fun.Pubsub.Queue.Model.{refusal, push_model}
use fun.Pubsub.Queue.Refine.{push_refines}
use fun.Pubsub.Broker.{
  Chan, BrokerState, BrokerStats, broker_unknown, broker_stopped, Broker, subscribe_request,
  unsubscribe_request, queue_request,
}

-- How a `select` over the two contexts and a channel goes on.
pub data Select : Type 0 where
  caller_ended : ContextError → Select
  broker_ended proceeds : Select

-- The errors that the calls return; `joined` is `errors.Join(ErrBrokerClosed, err)`.
pub data CallError (E : Type 0) : Type 0 where
  caller_error : ContextError → CallError E
  broker_closed : CallError E
  joined : E → CallError E
  sink_error : E → CallError E

-- `b.Unsubscribe(ctx, msgCh)`
unfoldable pub unsubscribe : {E : Type 0} → Select → Broker → Chan → Option (CallError E) × Broker
unsubscribe choice b ch = if b.stopped then (some broker_closed, b) else elim choice [
  | proceeds ↦ (none, queue_request (unsubscribe_request ch) b)
  | broker_ended ↦ (some broker_closed, b)
  | caller_ended e ↦ (some (caller_error e), b)
]

-- `b.Subscribe(ctx)`: `first` is the select that sends the request, and `second` the one that waits for the
-- acknowledgement; between them others act. `third` is the select of the `Unsubscribe` inside.
unfoldable pub subscribe :
    {E : Type 0}
    → Option ContextError
    → Select
    → (Broker → Broker)
    → Select
    → Select
    → Broker
    → (CallError E ⊎ Chan) × Broker
unfolding unsubscribe
subscribe {E = E} ctx first meanwhile second third b =
    let ch = b.fresh in
    let made : Broker = record b { fresh = b.fresh + 1 + 1 } in
    let sent = meanwhile (queue_request (subscribe_request ch (b.fresh + 1)) made) in
    elim ctx [
      | some e ↦ (inl (caller_error e), b)
      | none ↦ if b.stopped then (inl broker_closed, b) else elim first [
        | caller_ended e ↦ (inl (caller_error e), made)
        | broker_ended ↦ (inl broker_closed, made)
        | proceeds ↦ elim second [
          | caller_ended e ↦ (inl (caller_error e), (unsubscribe {E = E} third sent ch).1)
          | broker_ended ↦ (inl broker_closed, sent)
          | proceeds ↦ (inr ch, sent)
        ]
      ]
    ]

-- `b.Stats(ctx)`, where `answer` is what the control loop gives
unfoldable pub stats : Select → Select → BrokerStats → Bool → BrokerStats
stats first second answer stopped =
    let zero_stats : BrokerState → BrokerStats =
      λ s. record { state = s; subscriptions = 0; buffer_depth = 0; message_count = 0 } in
    if stopped then zero_stats broker_stopped else elim first [
      | caller_ended e ↦ zero_stats broker_unknown
      | broker_ended ↦ zero_stats broker_stopped
      | proceeds ↦ elim second [
        | caller_ended e ↦ zero_stats broker_unknown
        | broker_ended ↦ zero_stats broker_stopped
        | proceeds ↦ answer
      ]
    ]

-- `b.Send(ctx, msg)`: `sink` is the broker's sink over its buffer, `is_closed` tells the errors of a closed
-- queue, and `ctx'` and `stopped'` are what the contexts say when the sink has returned.
unfoldable pub send :
    {E S T : Type 0}
    → (E → Bool)
    → (S → T → Option E × S)
    → Option ContextError
    → Option ContextError
    → Bool
    → Broker
    → S
    → T
    → Option (CallError E) × Broker × S
send is_closed sink ctx ctx' stopped' b s msg =
    let (err, s') = sink s msg in
    let counted : Broker = record b { count = (b.count + 1) % 2 ^ 64; stopped = stopped' } in
    elim ctx [
      | some e ↦ (some (caller_error e), b, s)
      | none ↦ if b.stopped then (some broker_closed, b, s) else elim err [
        | none ↦ (none, counted, s')
        | some e ↦
            if is_closed e
            then (some (joined e), record counted { stopped = true }, s')
            else if (elim ctx' [ none ↦ true | some c ↦ false ]) && stopped'
            then (some (joined e), counted, s')
            else (some (sink_error e), counted, s')
      ]
    ]

-- `errors.Is(err, ErrQueueClosed)`, of the errors of a queue
abbrev pub says_closed : Error → Bool
says_closed queue_closed = true
says_closed e = false

module _ {E S T : Type 0} (is_closed : E → Bool) (sink : S → T → Option E × S)
    (ctx ctx' : Option ContextError) (stopped' : Bool) (b : Broker) (s : S) (msg : T) where
  abbrev sent : Option (CallError E) × Broker × S
  sent = send is_closed sink ctx ctx' stopped' b s msg

  -- `Send` returns no error exactly when its context is live, the broker is not stopped and the sink takes
  -- the message. Otherwise, with an ended context or a stopped broker, neither the buffer nor the count
  -- changes; and an error of a closed queue stops the broker.
  pub send_lem :
      (sent.0 ≡ none ↔ ((ctx ≡ none) × (b.stopped ≡ false) × ((sink s msg).0 ≡ none)))
      × (sent.2 ≡ (elim ctx [ none ↦ if b.stopped then s else (sink s msg).1 | some e ↦ s ]))
      × (sent.1.count ≡ (elim ctx [
        | none ↦ if b.stopped then b.count else (b.count + 1) % 2 ^ 64
        | some e ↦ b.count
      ]))
      × (sent.1.stopped ≡ (elim ctx [
        | some e ↦ b.stopped
        | none ↦
            b.stopped || (stopped' || (elim (sink s msg).0 [ none ↦ false | some e ↦ is_closed e ]))
      ]))
  unfolding send
  send_lem = ground arith

module _ {F : Floats} {A : Type 0} (q : Queue F A) (ps : List Ptr) (b : Broker) (x : A) where
  -- `Send` with a live context of a broker that NewQueueBroker makes with NonBlockingPush and nobody stops:
  -- it answers by what the FIFO list of the queue says. A refusal is reported to the caller with the
  -- queue as it was, and that of a closed queue stops the broker; else the message is behind the others.
  pub queue_send_lem :
      Holds q ps
      → b.stopped ≡ false
      → (qs : List Ptr) × ((send says_closed push none none false b q x).0
          ≡ (elim (refusal (view q ps)) [
            | none ↦ none
            | some e ↦ some (if says_closed e then joined e else sink_error e)
          ]))
        × ((send says_closed push none none false b q x).1.stopped
            ≡ (elim (refusal (view q ps)) [ none ↦ false | some e ↦ says_closed e ]))
        × Holds (send says_closed push none none false b q x).2 qs
        × (view (send says_closed push none none false b q x).2 qs ≡ (push_model (view q ps) x).1)
  unfolding send push_model
  queue_send_lem h c =
      let p = push_refines q x ps h in
      let kept : (send says_closed push none none false b q x).2 ≡ (push q x).1 =
        ground (arith, c) in
      (
        p.at,
        ground (arith, c, p.answer),
        ground (arith, c, p.answer),
        subst (λ t. Holds t p.at) (sym kept) p.holds,
        subst (λ t. view t p.at ≡ (push_model (view q ps) x).1) (sym kept) p.state,
      )
