-- ===== src/Pubsub/Queue/Run.antt =====
-- A client's calls of a queue in order, and that no sequence of them tells it from the model.
use fun.Prelude.{suc, ◌≡◌, refl, none, List, [], ◌∷◌}
use fun.Pubsub.Tracker.{Floats}
use fun.Pubsub.Queue.{Ptr, Queue, Outcome, ok, panic, push, close, pop, queue_len}
use fun.Pubsub.Queue.Iterate.{iterator}
use fun.Pubsub.Queue.Holds.{Holds, view, close-Holds, iterator_lem}
use fun.Pubsub.Queue.Refine.{push_refines, pop_refines}
use fun.Pubsub.Queue.Model.{
  Call, push_call, pop_call, close_call, len_call, iterate_call, Reply, pushed, popped_item,
  closed_ok, size, listed, model_step, model_run,
}

-- One call; a full iteration takes at most one step more than the queue is long.
step : {F : Floats} {A : Type 0} → A → Queue F A → Call A → Outcome (Reply A × Queue F A)
step z q (push_call x) = let (e, q') = push q x in ok (pushed e, q')
step z q pop_call = elim (pop z q) [ panic ↦ panic | ok (o, q') ↦ ok (popped_item o, q') ]
step z q close_call = ok (closed_ok, close q)
step z q len_call = ok (size (queue_len q), q)
step z q iterate_call = ok (listed (iterator (suc (queue_len q)) q none), q)

pub run : {F : Floats} {A : Type 0} → A → Queue F A → List (Call A) → Outcome (List (Reply A))
unfolding step
run z q [] = ok []
run z q (c ∷ cs) = elim (step z q c) [
  | panic ↦ panic
  | ok (r, q') ↦ elim (run z q' cs) [ panic ↦ panic | ok rs ↦ ok (r ∷ rs) ]
]

module _ {F : Floats} {A : Type 0} (z : A) where
  -- What one call leaves and what it answers.
  record Stepped (q : Queue F A) (ps : List Ptr) (c : Call A) : Type 0 where
    left : Queue F A
    at : List Ptr
    holds : Holds left at
    answer : step z q c ≡ ok ((model_step (view q ps) c).0, left)
    state : view left at ≡ (model_step (view q ps) c).1

  step_refines : (q : Queue F A) (ps : List Ptr) (c : Call A) → Holds q ps → Stepped q ps c
  unfolding step model_step close
  step_refines q ps (push_call x) h =
      let p = push_refines q x ps h in
      record {
        left = (push q x).1;
        at = p.at;
        holds = p.holds;
        answer = rw p.answer;
        state = p.state;
      }
  step_refines q ps pop_call h =
      let p = pop_refines z q ps h in
      record {
        left = p.left;
        at = p.at;
        holds = p.holds;
        answer = rw (p.answer, step);
        state = p.state;
      }
  step_refines q ps close_call h = record {
    left = close q;
    at = ps;
    holds = close-Holds q ps h;
    answer = refl;
    state = refl;
  }
  step_refines q ps len_call h = record {
    left = q;
    at = ps;
    holds = h;
    answer = refl;
    state = refl;
  }
  step_refines q ps iterate_call h = record {
    left = q;
    at = ps;
    holds = h;
    answer = rw (iterator_lem q ps h);
    state = refl;
  }

  -- Whatever calls a client makes, a queue that holds its entries answers as the FIFO list does, and
  -- no call dereferences nil.
  pub run_refines :
      (q : Queue F A) (ps : List Ptr) (cs : List (Call A))
      → Holds q ps
      → run z q cs ≡ ok (model_run (view q ps) cs)
  unfolding run model_run
  run_refines q ps [] h = refl
  run_refines q ps (c ∷ cs) h =
      let s = step_refines q ps c h in
      rw (s.answer, run, run_refines s.left s.at cs s.holds, s.state)
