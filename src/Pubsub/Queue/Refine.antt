-- ===== src/Pubsub/Queue/Refine.antt =====
-- The queue of pubsub/queue.go is the FIFO list of Model.antt.
use fun.Prelude.{
  ◌+◌, ◌≡◌, refl, ◌∙◌, sym, inl, inr, false, Option, none, some, List, [], ◌∷◌, ◌++◌, arith,
  Bool-cases, Option-cases,
}
use fun.Pubsub.Errors.{Error}
use fun.Pubsub.Tracker.{Floats, len, add, remove}
use fun.Pubsub.Tracker.Limits.{add-IsValid, add_lem}
use fun.Pubsub.Queue.{Ptr, Queue, ok, append_entry, unlink, push, pop, pop_wake}
use fun.Pubsub.Queue.Holds.{
  Holds, view, append_entry-Holds, unlink-Holds, view-append_entry, view-unlink, pop_front-cons,
  view-pop_wake, pop_wake-Holds,
}
use fun.Pubsub.Queue.Chain.{items}
use fun.Pubsub.Queue.Model.{Model, refusal, push_model, pop_model}

module _ {F : Floats} {A : Type 0} where
  -- What a push does, by the refusal of the model.
  unfoldable pub pushed_by : Queue F A → A → Option Error → Option Error × Queue F A
  pushed_by q x none = (none, append_entry q x (add q.tracker).1)
  pushed_by q x (some e) = (some e, q)

  pub push-refusal :
      (q : Queue F A) (x : A) (ps : List Ptr) → push q x ≡ pushed_by q x (refusal (view q ps))
  unfolding push refusal pushed_by
  push-refusal q x ps = ground (arith, add_lem q.tracker)

  refusal-none :
      (q : Queue F A) (ps : List Ptr)
      → refusal (view q ps) ≡ none
      → (len (add q.tracker).1 ≡ len q.tracker + 1)
  unfolding refusal
  refusal-none q ps h = ground (arith, add_lem q.tracker)

  -- What a push leaves, and what it answers.
  pub record Pushed (q : Queue F A) (x : A) (ps : List Ptr) : Type 0 where
    pub at : List Ptr
    pub holds : Holds (push q x).1 at
    pub answer : (push q x).0 ≡ (push_model (view q ps) x).0
    pub state : view (push q x).1 at ≡ (push_model (view q ps) x).1

  pub push_refines : (q : Queue F A) (x : A) (ps : List Ptr) → Holds q ps → Pushed q x ps
  unfolding pushed_by push_model
  push_refines q x ps h = elim (Option-cases (refusal (view q ps))) [
    | inl e ↦ record {
      at = ps ++ (q.fresh ∷ []);
      holds =
          rw (push-refusal q x ps, e, pushed_by)
            (append_entry-Holds q x (add q.tracker).1 ps h (refusal-none q ps e)
              (add-IsValid q.tracker h.limits_ok));
      answer = rw (push-refusal q x ps, e, pushed_by, push_model);
      state = rw (push-refusal q x ps, e, pushed_by, push_model) (view-append_entry q x ps h);
    }
    | inr (err, e) ↦ record {
      at = ps;
      holds = rw (push-refusal q x ps, e, pushed_by) h;
      answer = rw (push-refusal q x ps, e, pushed_by, push_model);
      state = rw (push-refusal q x ps, e, pushed_by, push_model);
    }
  ]

  pop_model-cons :
      (m : Model F A) (xs : List A) (x : A)
      → m.is_closed ≡ false
      → m.content ≡ x ∷ xs
      → (pop_model m).1 ≡ record m { limits = remove m.limits; content = xs }
  unfolding pop_model
  pop_model-cons m xs x c e = ground arith

  -- What a pop leaves and what it answers; it never dereferences nil.
  pub record Popped (z : A) (q : Queue F A) (ps : List Ptr) : Type 0 where
    pub left : Queue F A
    pub at : List Ptr
    pub holds : Holds left at
    pub answer : pop z q ≡ ok ((pop_model (view q ps)).0, left)
    pub state : view left at ≡ (pop_model (view q ps)).1

  pub pop_refines : (z : A) (q : Queue F A) (ps : List Ptr) → Holds q ps → Popped z q ps
  unfolding pop pop_model
  pop_refines z q [] h = record {
    left = q;
    at = [];
    holds = h;
    answer = ground (arith, h.counted);
    state = ground arith;
  }
  pop_refines z q (e ∷ ps) h = elim (Bool-cases q.closed) [
    | inl c ↦ record {
      left = q;
      at = e ∷ ps;
      holds = h;
      answer = ground arith;
      state = ground arith;
    }
    | inr c ↦ record {
      left = pop_wake (len q.tracker) (unlink z q e);
      at = ps;
      holds = pop_wake-Holds (len q.tracker) (unlink z q e) ps (unlink-Holds z q e ps h);
      answer = ground (arith, h.counted, pop_front-cons z q e ps h);
      state =
          view-pop_wake (len q.tracker) (unlink z q e) ps
          ∙ view-unlink z q e ps h
          ∙ sym (pop_model-cons (view q (e ∷ ps)) (items q.cells ps) (q.cells e).item c refl);
    }
  ]
