-- ===== src/Pubsub/Deque/Run.antt =====
-- A client's calls of a deque in order, and that no sequence of them tells it from the model.
use fun.Prelude.{
  ◌≡◌, refl, sym, Option-cases, inl, inr, true, false, Option, none, some, List, [], ◌∷◌, arith,
  ◌==◌, Bool-cases,
}
use fun.Links.{Ptr}
use fun.Pubsub.Errors.{Error}
use fun.Pubsub.Tracker.{Floats, len, cap}
use fun.Pubsub.Queue.Model.{Reply, pushed, popped_item, closed_ok, size}
use fun.Pubsub.Deque.{
  Direction, dq_next, dq_prev, Deque, Outcome, ok, panic, push_front, push_back, pop_front,
  pop_back, force_push_front, force_push_back, force_push, add_item, pop, check_open, close,
  queue_len,
}
use fun.Pubsub.Deque.Holds.{Holds, close-Holds, close-items}
use fun.Pubsub.Deque.Refine.{view, push_refines}
use fun.Pubsub.Deque.Ends.{end, pop_refines}
use fun.Pubsub.Deque.Model.{
  Call, push_call, force_push_call, pop_call, close_call, len_call, other, push_model, pop_model,
  force_push_model, model_step, model_run,
}

module _ {F : Floats} {A : Type 0} (z : A) where
  answer_push : Option Error × Deque F A → Outcome (Reply A × Deque F A)
  answer_push (e, q) = ok (pushed e, q)

  step : Deque F A → Call A → Outcome (Reply A × Deque F A)
  step q (push_call dq_next x) = answer_push (push_front q x)
  step q (push_call dq_prev x) = answer_push (push_back q x)
  step q (force_push_call dq_next x) = elim (force_push_front z q x) [
    | panic ↦ panic
    | ok r ↦ answer_push r
  ]
  step q (force_push_call dq_prev x) = elim (force_push_back z q x) [
    | panic ↦ panic
    | ok r ↦ answer_push r
  ]
  step q (pop_call dq_next) = elim (pop_front z q) [
    | panic ↦ panic
    | ok (o, q') ↦ ok (popped_item o, q')
  ]
  step q (pop_call dq_prev) = elim (pop_back z q) [
    | panic ↦ panic
    | ok (o, q') ↦ ok (popped_item o, q')
  ]
  step q close_call = ok (closed_ok, close q)
  step q len_call = ok (size (queue_len q), q)

  pub run : Deque F A → List (Call A) → Outcome (List (Reply A))
  unfolding step
  run q [] = ok []
  run q (c ∷ cs) = elim (step q c) [
    | panic ↦ panic
    | ok (r, q') ↦ elim (run q' cs) [ panic ↦ panic | ok rs ↦ ok (r ∷ rs) ]
  ]

  -- What a forced push leaves and what it answers.
  pub record Forced (q : Deque F A) (x : A) (side : Direction) (ps : List Ptr) : Type 0 where
    pub left : Deque F A
    pub at : List Ptr
    pub holds : Holds left at
    pub answer :
        force_push z q x side (other side) ≡ ok ((force_push_model (view q ps) side x).0, left)
    pub state : view left at ≡ (force_push_model (view q ps) side x).1

  pub force-refused :
      (q : Deque F A) (x : A) (side : Direction) (ps : List Ptr) (e : Error)
      → check_open q ≡ some e
      → (force_push z q x side (other side) ≡ ok (some e, q))
        × (force_push_model (view q ps) side x ≡ (some e, view q ps))
  unfolding force_push force_push_model
  force-refused q x side ps e c = ground arith

  pub force-room :
      (q : Deque F A) (x : A) (side : Direction) (ps : List Ptr)
      → check_open q ≡ none
      → (cap q.tracker == len q.tracker) ≡ false
      → (force_push z q x side (other side) ≡ ok (add_item q x side))
        × (force_push_model (view q ps) side x ≡ push_model (view q ps) side x)
  unfolding force_push force_push_model
  force-room q x side ps c n = ground arith

  pub force-full :
      (q : Deque F A) (x : A) (side : Direction) (ps : List Ptr) (o : Option A) (q' : Deque F A)
      → check_open q ≡ none
      → (cap q.tracker == len q.tracker) ≡ true
      → pop z q (end q (other side)) ≡ ok (o, q')
      → (force_push z q x side (other side) ≡ ok (add_item q' x side))
        × (force_push_model (view q ps) side x
            ≡ push_model (pop_model (view q ps) (other side)).1 side x)
  unfolding force_push force_push_model
  force-full q x side ps o q' c n p = ground arith

  pub force_push_refines :
      (q : Deque F A) (x : A) (side : Direction) (ps : List Ptr) → Holds q ps → Forced q x side ps
  force_push_refines q x side ps h = elim (Option-cases (check_open q)) [
    | inr (e, c) ↦
        let (f, g) = force-refused q x side ps e c in
        record { left = q; at = ps; holds = h; answer = rw (g, f); state = rw g }
    | inl c ↦ elim (Bool-cases (cap q.tracker == len q.tracker)) [
      | inr n ↦
          let (f, g) = force-room q x side ps c n in
          let p = push_refines q x side ps h in
          record {
            left = (add_item q x side).1;
            at = p.at;
            holds = p.holds;
            answer = rw (g, f, sym p.answer);
            state = rw g p.state;
          }
      | inl n ↦
          let o = pop_refines z q (other side) ps h in
          let (f, g) =
            force-full q x side ps (pop_model (view q ps) (other side)).0 o.left c n o.answer in
          let p = push_refines o.left x side o.at o.holds in
          record {
            left = (add_item o.left x side).1;
            at = p.at;
            holds = p.holds;
            answer = rw (g, f, sym o.state, sym p.answer);
            state = rw (g, sym o.state) p.state;
          }
    ]
  ]

  -- What one call leaves and what it answers.
  record Stepped (q : Deque F A) (ps : List Ptr) (c : Call A) : Type 0 where
    left : Deque F A
    at : List Ptr
    holds : Holds left at
    answer : step q c ≡ ok ((model_step (view q ps) c).0, left)
    state : view left at ≡ (model_step (view q ps) c).1

  push_Stepped :
      (q : Deque F A) (ps : List Ptr) (side : Direction) (x : A)
      → Holds q ps
      → step q (push_call side x) ≡ answer_push (add_item q x side)
      → Stepped q ps (push_call side x)
  unfolding answer_push model_step
  push_Stepped q ps side x h e =
      let p = push_refines q x side ps h in
      record {
        left = (add_item q x side).1;
        at = p.at;
        holds = p.holds;
        answer = rw (e, answer_push, p.answer);
        state = p.state;
      }

  force_Stepped :
      (q : Deque F A) (ps : List Ptr) (side : Direction) (x : A)
      → (p : Forced q x side ps)
      → step q (force_push_call side x)
        ≡ answer_push ((force_push_model (view q ps) side x).0, p.left)
      → Stepped q ps (force_push_call side x)
  unfolding answer_push model_step
  force_Stepped q ps side x p e = record {
    left = p.left;
    at = p.at;
    holds = p.holds;
    answer = e;
    state = p.state;
  }

  step_refines : (q : Deque F A) (ps : List Ptr) (c : Call A) → Holds q ps → Stepped q ps c
  unfolding step model_step close push_front push_back force_push_front force_push_back pop_front
      pop_back
  step_refines q ps (push_call dq_next x) h = push_Stepped q ps dq_next x h refl
  step_refines q ps (push_call dq_prev x) h = push_Stepped q ps dq_prev x h refl
  step_refines q ps (force_push_call dq_next x) h =
      let p = force_push_refines q x dq_next ps h in
      force_Stepped q ps dq_next x p (rw (step, p.answer))
  step_refines q ps (force_push_call dq_prev x) h =
      let p = force_push_refines q x dq_prev ps h in
      force_Stepped q ps dq_prev x p (rw (step, p.answer))
  step_refines q ps (pop_call dq_next) h =
      let p = pop_refines z q dq_next ps h in
      record {
        left = p.left;
        at = p.at;
        holds = p.holds;
        answer = rw (p.answer, step);
        state = p.state;
      }
  step_refines q ps (pop_call dq_prev) h =
      let p = pop_refines z q dq_prev ps h in
      record {
        left = p.left;
        at = p.at;
        holds = p.holds;
        answer = rw (p.answer, step);
        state = p.state;
      }
  step_refines q ps close_call h = record {
    left = close q;
    at = ps;
    holds = close-Holds q ps h;
    answer = refl;
    state = ground (arith, close-items q ps);
  }
  step_refines q ps len_call h = record {
    left = q;
    at = ps;
    holds = h;
    answer = refl;
    state = refl;
  }

  -- Whatever calls a client makes, pushes, forced pushes and pops at both ends among them, a deque that
  -- holds its elements answers as the list with two ends does, and no call dereferences nil.
  pub deque_run_refines :
      (q : Deque F A) (ps : List Ptr) (cs : List (Call A))
      → Holds q ps
      → run q cs ≡ ok (model_run (view q ps) cs)
  unfolding run model_run
  deque_run_refines q ps [] h = refl
  deque_run_refines q ps (c ∷ cs) h =
      let s = step_refines q ps c h in
      rw (s.answer, run, deque_run_refines s.left s.at cs s.holds, s.state)
