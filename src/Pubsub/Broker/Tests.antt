-- ===== src/Pubsub/Broker/Tests.antt =====
-- The theorems about the broker at concrete states: a subscription of the channel 1, its request, and one
-- message for it.
use fun.Prelude.{
  ℕ, ◌≤◌, ◌≡◌, ◌↔◌, ◌⊎◌, refl, Bool, true, false, Option, none, some, List, [], ◌∷◌, arith,
}
use fun.Prelude.Int.{pos}
use fun.Links.{has}
use fun.Pubsub.Errors.{ContextError}
use fun.Pubsub.Queue.{Ptr, Queue, make_queue, push}
use fun.Pubsub.Queue.Holds.{Holds, view}
use fun.Pubsub.Queue.Model.{refusal, push_model}
use fun.Pubsub.Tracker.{hard, add}
use fun.Pubsub.Tests.{units}
use fun.Pubsub.Broker.{
  Chan, BrokerOptions, Broker, make_broker, load_sub, check_sub, serve, subscribe_request,
}
use fun.Pubsub.Broker.Steps.{Step, subscribes, serves, Reach, Sound, serve_no_panic}
use fun.Pubsub.Broker.Subscribed.{Later, subscribed_lem}
use fun.Pubsub.Broker.Serve.{serve_waiting, fate, serve_waiting_lem}
use fun.Pubsub.Broker.Walk.{Dispatch, start, picks, receives, Moves, Ended}
use fun.Pubsub.Broker.Dispatch.{dispatch_lem}
use fun.Pubsub.Broker.Once.{occurs, dispatch_once}
use fun.Pubsub.Broker.Calls.{send, says_closed, send_lem, queue_send_lem}

abbrev plain : BrokerOptions
plain = record {
  buffer_size = pos 0;
  parallel_dispatch = false;
  worker_pool_size = pos 1;
  non_blocking_push = true;
}

abbrev idle : Broker
idle = record {
  options = plain;
  ctl = [];
  subs = [];
  closed = [];
  answers = [];
  count = 0;
  stopped = false;
  fresh = 1;
}

abbrev asked : Broker
asked = record idle { ctl = subscribe_request 1 2 ∷ []; fresh = 3 }

abbrev joined_in : Broker
joined_in = record idle { subs = (1, 3) ∷ []; closed = 2 ∷ []; fresh = 4 }

asked-Reach : Reach (make_broker plain) asked
unfolding make_broker
asked-Reach = Reach.next Reach.here (subscribes refl)

serve_no_panic_example :
    (b : Broker) × (serve 0 (subscribe_request 1 2) (record asked { ctl = [] }) ≡ some b) × Sound b
serve_no_panic_example = serve_no_panic plain asked 0 (subscribe_request 1 2) [] asked-Reach refl

served : Step asked joined_in
unfolding serve
served = serves 0 (subscribe_request 1 2) [] refl refl

subscribed_lem_example : check_sub joined_in.subs 1 ≡ true
unfolding make_broker served
subscribed_lem_example =
    subscribed_lem plain idle joined_in Reach.here (Later.next Later.here served refl) refl

serve_waiting_lem_example :
    (b : Broker) × (serve_waiting 0 asked.ctl asked ≡ some b)
    × ((ch : Chan) → check_sub b.subs ch ≡ fate ch asked.ctl (check_sub asked.subs ch))
serve_waiting_lem_example = serve_waiting_lem plain asked 0 asked-Reach

abbrev sent_to : Dispatch
sent_to = record { seen = 1 ∷ []; busy = []; got = 1 ∷ [] }

dispatched : Moves joined_in start joined_in sent_to
unfolding load_sub
dispatched =
    Moves.next (Moves.next Moves.here (picks 1 3 refl refl refl refl refl))
      (receives [] 1 3 [] refl refl refl)

dispatched-Ended : Ended dispatched
unfolding check_sub load_sub dispatched
dispatched-Ended = record { idle = refl; walked = λ ch h. ground (arith, h.0.0) }

dispatch_lem_example :
    (has 1 sent_to.got ≡ true) ⊎ (has 3 joined_in.closed ≡ true) ⊎ (joined_in.stopped ≡ true)
unfolding load_sub
dispatch_lem_example = dispatch_lem joined_in joined_in sent_to 1 3 refl dispatched dispatched-Ended

dispatch_once_example : occurs 1 sent_to.got ≤ 1
dispatch_once_example = dispatch_once joined_in joined_in sent_to 1 dispatched

abbrev narrow : Queue units ℕ
narrow = make_queue 0 (hard 2 0)

narrow-Holds : Holds narrow []
unfolding make_queue
narrow-Holds = record {
  chain = (refl, refl, refl);
  room = omega arith;
  counted = refl;
  limits_ok = omega arith;
}

queue_send_lem_example :
    (qs : List Ptr) × ((send says_closed push none none false joined_in narrow 7).0 ≡ none)
    × ((send says_closed push none none false joined_in narrow 7).1.stopped ≡ false)
    × Holds (send says_closed push none none false joined_in narrow 7).2 qs
    × (view (send says_closed push none none false joined_in narrow 7).2 qs
        ≡ (push_model (view narrow []) 7).1)
unfolding make_queue refusal add
queue_send_lem_example = queue_send_lem narrow [] joined_in 7 narrow-Holds refl

send_lem_example :
    ((send says_closed push none none false joined_in narrow 7).0 ≡ none ↔ (
      (◌≡◌ {A = Option ContextError} none none)
      × (◌≡◌ {A = Bool} false false)
      × ((push narrow 7).0 ≡ none)))
    × ((send says_closed push none none false joined_in narrow 7).2 ≡ (push narrow 7).1)
    × ((send says_closed push none none false joined_in narrow 7).1.count ≡ 1)
    × ((send says_closed push none none false joined_in narrow 7).1.stopped
        ≡ (elim (push narrow 7).0 [ none ↦ false | some e ↦ says_closed e ]))
send_lem_example = send_lem says_closed push none none false joined_in narrow 7
