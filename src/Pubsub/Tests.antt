-- ===== src/Pubsub/Tests.antt =====
-- The theorems about the trackers and the queue at concrete inputs, and runs of the queue.
use fun.Prelude.{
  ℕ, ◌+◌, ◌-◌, ◌/◌, ◌≤◌, ◌≡◌, refl, inl, true, none, some, [], ◌∷◌, arith, ltb, ◌==◌, ◌↔◌,
  if◌then◌else◌,
}
use fun.Prelude.Int.{pos}
use fun.Pubsub.Errors.{
  canceled, queue_full, queue_no_credit, queue_closed, queue_draining, context, drain_early,
}
use fun.Pubsub.Tracker.{Floats, QueueOptions, Quota, hard, quota, validate, new_tracker, len, add}
use fun.Pubsub.Tracker.Limits.{
  IsValid, adds, removes, serve_all, hard_limit_kept, add_full_iff, limit, new_tracker-IsValid,
}
use fun.Pubsub.Queue.{Queue, ok, done, make_queue, push, close}
use fun.Pubsub.Queue.Closed.{Later, Shut, close_lem}
use fun.Pubsub.Queue.Blocking.{wait_push_turn, wait_pop_turn, drain, shutdown}
use fun.Pubsub.Queue.Holds.{Holds, view}
use fun.Pubsub.Queue.Model.{
  push_call, pop_call, iterate_call, pushed, popped_item, listed, model_run,
}
use fun.Pubsub.Queue.Refine.{push_refines, pop_refines, Pushed, Popped}
use fun.Pubsub.Queue.Run.{run, run_refines}
use fun.Pubsub.Queue.Precedence.{closed_first, context_second, wait_push_room}
use fun.Pubsub.Queue.Steps.{Step, Reach, made, next, Held, Reach-Held, left_by}
use fun.Pubsub.Queue.Wakeups.{no_lost_wakeup}
use fun.Pubsub.Queue.Asleep.{NoneLost}

-- Credit in whole units.
abbrev pub units : Floats
units = record {
  Float = ℕ;
  of_int = λ n. n;
  add_float = λ a b. a + b;
  sub_float = λ a b. a - b;
  div_float = λ a b. a / b;
  ltb_float = λ a b. ltb a b;
  eqb_float = λ a b. a == b;
}

abbrev options : QueueOptions units
options = record { hard_limit = pos 3; soft_quota = pos 1; burst_credit = 1 }

abbrev bursting : Quota units
bursting = record { soft_quota = 2; hard_limit = 3; length = 2; credit = 0 }

hard_limit_kept_example :
    len (serve_all (new_tracker options) (adds ∷ adds ∷ adds ∷ removes ∷ adds ∷ [])) ≤ 3
unfolding validate
hard_limit_kept_example =
    hard_limit_kept options {v = options} (adds ∷ adds ∷ adds ∷ removes ∷ adds ∷ []) refl

new_tracker-IsValid_example :
    IsValid (new_tracker options)
    × (len (new_tracker options) ≡ 0)
    × (limit (new_tracker options) ≡ some 3)
unfolding validate
new_tracker-IsValid_example = new_tracker-IsValid options {v = options} refl

add_full_iff_example : ((add (quota bursting)).0 ≡ some queue_full) ↔ (◌≡◌ {A = ℕ} 2 3)
add_full_iff_example = add_full_iff bursting (omega arith)

-- The third item is beyond the soft quota and there is no credit left.
no_credit_test : (add (quota bursting)).0 ≡ some queue_no_credit
unfolding add
no_credit_test = refl

abbrev small : Queue units ℕ
small = make_queue 0 (hard 2 0)

small-Holds : Holds small []
unfolding make_queue
small-Holds = record {
  chain = (refl, refl, refl);
  room = omega arith;
  counted = refl;
  limits_ok = omega arith;
}

push_refines_example : Pushed small 7 []
push_refines_example = push_refines small 7 [] small-Holds

pop_refines_example : Popped 0 small []
pop_refines_example = pop_refines 0 small [] small-Holds

run_refines_example :
    run 0 small (push_call 7 ∷ push_call 8 ∷ push_call 9 ∷ iterate_call ∷ pop_call ∷ [])
    ≡ ok (
        model_run
          (view small [])
          (push_call 7 ∷ push_call 8 ∷ push_call 9 ∷ iterate_call ∷ pop_call ∷ []))
run_refines_example =
    run_refines 0 small [] (push_call 7 ∷ push_call 8 ∷ push_call 9 ∷ iterate_call ∷ pop_call ∷ [])
      small-Holds

-- The queue is full after two items, and gives them back in their order.
run_test :
    run 0 small (push_call 7 ∷ push_call 8 ∷ push_call 9 ∷ iterate_call ∷ pop_call ∷ [])
    ≡ ok (
        pushed none
        ∷ pushed none
        ∷ pushed (some queue_full)
        ∷ listed (7 ∷ 8 ∷ [])
        ∷ popped_item (some 7)
        ∷ [])
unfolding make_queue model_run add
run_test = run_refines_example

abbrev shut : Queue units ℕ
shut = record small { closed = true }

closed_first_run :
    (wait_pop_turn 0 (some canceled) shut ≡ ok (done (inl queue_closed) shut))
    × (drain (some canceled) shut ≡ done (some queue_closed) shut)
    × (shutdown (some canceled) shut ≡ done (some queue_closed) shut)
    × (wait_push_turn (some canceled) shut 5 ≡ done (some queue_closed) shut)
unfolding make_queue
closed_first_run = closed_first 0 shut (some canceled) 5 refl

-- A queue with an item that is closed, after which others push and drain in vain.
abbrev item_queue : Queue units ℕ
item_queue = (push small 7).1

abbrev later_queue : Queue units ℕ
later_queue = left_by (drain none (push (close item_queue) 8).1)

later_queue-Later : Later 0 (close item_queue) later_queue
later_queue-Later =
    Later.next (Later.next Later.now (Step.pushes (close item_queue) 8))
      (Step.drains none (push (close item_queue) 8).1)

close_lem_example :
    Shut item_queue later_queue
    × (wait_pop_turn 0 (some canceled) later_queue ≡ ok (done (inl queue_closed) later_queue))
    × (drain (some canceled) later_queue ≡ done (some queue_closed) later_queue)
    × (shutdown (some canceled) later_queue ≡ done (some queue_closed) later_queue)
    × (wait_push_turn (some canceled) later_queue 5
        ≡ done
            (some (if ltb 0 later_queue.drainers then queue_draining else queue_closed))
            later_queue)
close_lem_example = close_lem 0 item_queue (some canceled) 5 later_queue-Later

context_second_run :
    (wait_pop_turn 0 (some canceled) small ≡ ok (done (inl (context canceled)) small))
    × (drain (some canceled) small ≡ done (some (drain_early canceled 0)) small)
    × (shutdown (some canceled) small ≡ done (some (drain_early canceled 0)) small)
    × (wait_push_turn (some canceled) small 5 ≡ done (some (context canceled)) small)
unfolding make_queue
context_second_run = context_second 0 small canceled 5 refl

wait_push_room_run : wait_push_turn none small 5 ≡ done none (push small 5).1
unfolding make_queue
wait_push_room_run = wait_push_room 0 small 5 refl refl

-- A push on the new queue, then a drain that finds the item and sleeps.
abbrev drained : Queue units ℕ
drained = left_by (drain none (push small 7).1)

drained-Reach : Reach 0 (hard 2 0) drained
drained-Reach = next (next made (Step.pushes small 7)) (Step.drains none (push small 7).1)

no_lost_wakeup_example : NoneLost drained
no_lost_wakeup_example = no_lost_wakeup 0 (hard 2 0) (omega arith) refl drained-Reach

Reach-Held_example : Held drained
Reach-Held_example = Reach-Held 0 (hard 2 0) (omega arith) refl drained-Reach
