-- ===== src/Pubsub/Deque/Tests.antt =====
-- The theorems about the deque at concrete inputs, and runs of it.
use fun.Prelude.{
  suc, ℕ, ◌≡◌, ◌≤◌, ltb, if◌then◌else◌, refl, inl, inr, true, false, none, some, [], ◌∷◌, arith,
}
use fun.Prelude.Int.{pos}
use fun.Pubsub.Errors.{canceled, queue_full, queue_closed, queue_draining, context, drain_early}
use fun.Pubsub.Tracker.{len, hard, add, remove}
use fun.Pubsub.Tracker.Limits.{limit, adds, removes, serve_all}
use fun.Pubsub.Tests.{units}
use fun.Pubsub.Queue.Model.{pushed, popped_item}
use fun.Pubsub.Deque.{Deque, dq_next, dq_prev, ok, make_deque, add_item, close}
use fun.Pubsub.Deque.Closed.{Later, Shut, deque_close_lem}
use fun.Pubsub.Deque.Waits.{
  done, wait_pop_turn, drain, shutdown, wait_push_turn, iterator_turn, iterator_move,
}
use fun.Pubsub.Deque.Holds.{items, Holds, make_deque-Holds, put-Holds}
use fun.Pubsub.Deque.Model.{push_call, force_push_call, pop_call, model_run}
use fun.Pubsub.Deque.Refine.{view}
use fun.Pubsub.Deque.Run.{run, deque_run_refines}
use fun.Pubsub.Deque.Steps.{Step, Reach, made, next, Held, deque_Reach-Held, left_by}
use fun.Pubsub.Deque.Wakeups.{deque_no_lost_wakeup}
use fun.Pubsub.Deque.Asleep.{NoneLost}
use fun.Pubsub.Deque.Options.{DequeOptions, new_deque, new_deque_lem, asked_limit}
use fun.Pubsub.Deque.Iterate.{yields, iterator_yields}
use fun.Pubsub.Deque.Precedence.{
  deque_closed_first, deque_context_second, wait_pop_live, WaitPopEnds,
}

abbrev two : Deque units ℕ
two = make_deque 0 (hard 2 0)

two-Holds : Holds two []
two-Holds = make_deque-Holds 0 (hard 2 0) refl (omega arith)

deque_run_refines_example :
    run 0 two (
      push_call dq_prev 7
      ∷ push_call dq_next 8
      ∷ push_call dq_next 9
      ∷ force_push_call dq_next 9
      ∷ pop_call dq_prev
      ∷ [])
    ≡ ok (
        model_run (view two []) (
          push_call dq_prev 7
          ∷ push_call dq_next 8
          ∷ push_call dq_next 9
          ∷ force_push_call dq_next 9
          ∷ pop_call dq_prev
          ∷ []))
deque_run_refines_example =
    deque_run_refines 0 two []
      (push_call dq_prev 7
        ∷ push_call dq_next 8
        ∷ push_call dq_next 9
        ∷ force_push_call dq_next 9
        ∷ pop_call dq_prev
        ∷ [])
      two-Holds

-- The forced push takes the place of the 7 at the back.
deque_run_test :
    run 0 two (
      push_call dq_prev 7
      ∷ push_call dq_next 8
      ∷ push_call dq_next 9
      ∷ force_push_call dq_next 9
      ∷ pop_call dq_prev
      ∷ [])
    ≡ ok (
        pushed none
        ∷ pushed none
        ∷ pushed (some queue_full)
        ∷ pushed none
        ∷ popped_item (some 8)
        ∷ [])
unfolding make_deque model_run add remove
deque_run_test = deque_run_refines_example

-- A push on the new deque, then a drain that finds the item and sleeps.
abbrev waiting : Deque units ℕ
waiting = left_by (drain none (add_item two 7 dq_next).1)

waiting-Reach : Reach 0 (hard 2 0) waiting
waiting-Reach =
    next (next made (Step.pushes two dq_next 7)) (Step.drains none (add_item two 7 dq_next).1)

deque_no_lost_wakeup_example : NoneLost waiting
deque_no_lost_wakeup_example = deque_no_lost_wakeup 0 (hard 2 0) (omega arith) refl waiting-Reach

deque_Reach-Held_example : Held waiting
deque_Reach-Held_example = deque_Reach-Held 0 (hard 2 0) (omega arith) refl waiting-Reach

abbrev five : DequeOptions units
five = record { unlimited = false; capacity = pos 5; queue_options = none }

abbrev made_deque : Deque units ℕ
made_deque = make_deque 0 (hard 5 0)

five_made : new_deque 0 five ≡ inr made_deque
unfolding new_deque
five_made = refl

new_deque_lem_run :
    Holds made_deque []
    × (limit made_deque.tracker ≡ some 5)
    × (len (serve_all made_deque.tracker (adds ∷ adds ∷ removes ∷ [])) ≤ 5)
unfolding asked_limit
new_deque_lem_run = new_deque_lem 0 five made_deque (adds ∷ adds ∷ removes ∷ []) five_made

abbrev shut_deque : Deque units ℕ
shut_deque = record two { closed = true }

deque_closed_first_run :
    (wait_pop_turn 0 (some canceled) dq_prev shut_deque ≡ ok (done (inl queue_closed) shut_deque))
    × (drain (some canceled) shut_deque ≡ done (some queue_closed) shut_deque)
    × (shutdown (some canceled) shut_deque ≡ done (some queue_closed) shut_deque)
    × (wait_push_turn (some canceled) shut_deque 5 dq_prev ≡ done (some queue_closed) shut_deque)
    × (iterator_turn (some canceled) true dq_prev 1 shut_deque
        ≡ done (iterator_move shut_deque 1 dq_prev) shut_deque)
unfolding make_deque
deque_closed_first_run = deque_closed_first 0 shut_deque dq_prev (some canceled) 5 1 refl

-- A deque with an item that is closed, after which others push and force in vain.
abbrev item_deque : Deque units ℕ
item_deque = (add_item two 7 dq_next).1

abbrev later_deque : Deque units ℕ
later_deque = (add_item (close item_deque) 8 dq_prev).1

later_deque-Later : Later 0 (close item_deque) later_deque
later_deque-Later = Later.next Later.now (Step.pushes (close item_deque) dq_prev 8)

deque_close_lem_example :
    Shut item_deque later_deque
    × (wait_pop_turn 0 (some canceled) dq_prev later_deque
        ≡ ok (done (inl queue_closed) later_deque))
    × (drain (some canceled) later_deque ≡ done (some queue_closed) later_deque)
    × (shutdown (some canceled) later_deque ≡ done (some queue_closed) later_deque)
    × (wait_push_turn (some canceled) later_deque 5 dq_prev
        ≡ done
            (some (if ltb 0 later_deque.drainers then queue_draining else queue_closed))
            later_deque)
    × (iterator_turn (some canceled) true dq_prev 1 later_deque
        ≡ done (iterator_move item_deque 1 dq_prev) later_deque)
deque_close_lem_example = deque_close_lem 0 item_deque (some canceled) dq_prev 5 1 later_deque-Later

deque_context_second_run :
    (wait_pop_turn 0 (some canceled) dq_prev two ≡ ok (done (inl (context canceled)) two))
    × (drain (some canceled) two ≡ done (some (drain_early canceled 0)) two)
    × (shutdown (some canceled) two ≡ done (some (drain_early canceled 0)) two)
    × (wait_push_turn (some canceled) two 5 dq_prev ≡ done (some (context canceled)) two)
    × (iterator_turn (some canceled) true dq_prev 1 two ≡ done none two)
unfolding make_deque
deque_context_second_run = deque_context_second 0 two dq_prev canceled 5 1 refl

abbrev one : Deque units ℕ
one = (add_item two 7 dq_next).1

one-Holds : Holds one (2 ∷ [])
unfolding make_deque add_item add
one-Holds = put-Holds two 7 dq_next (hard 2 1) [] two-Holds refl (omega arith)

wait_pop_live_example : WaitPopEnds 0 one dq_prev (2 ∷ [])
unfolding make_deque add_item add
wait_pop_live_example = wait_pop_live 0 one dq_prev (2 ∷ []) one-Holds refl

iterator_yields_run : yields (suc (len one.tracker)) one dq_next one.root ≡ items one (2 ∷ [])
iterator_yields_run = iterator_yields one (2 ∷ []) one-Holds
