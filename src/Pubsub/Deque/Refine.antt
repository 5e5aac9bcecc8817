-- ===== src/Pubsub/Deque/Refine.antt =====
-- The pushes of pubsub/deque.go are those of the list with two ends of Model.antt.
use fun.Prelude.{◌+◌, ◌≡◌, refl, ap, ◌⊎◌, inl, inr, none, some, List, [], arith, Option-cases}
use fun.Links.{Ptr}
use fun.Pubsub.Errors.{Error}
use fun.Pubsub.Tracker.{Floats, len, add}
use fun.Pubsub.Tracker.Limits.{add-IsValid, add_lem}
use fun.Pubsub.Queue.Model.{Model, refusal}
use fun.Pubsub.Deque.{Direction, Deque, add_item, insert}
use fun.Pubsub.Deque.Holds.{put_end, items, items-frame, Holds, put-Holds, put-items}
use fun.Pubsub.Deque.Model.{push_model}

-- The state of the model that a deque with these elements stands for.
abbrev pub view : {F : Floats} {A : Type 0} → Deque F A → List Ptr → Model F A
view q ps = record {
  limits = q.tracker;
  drains = q.drainers;
  is_closed = q.closed;
  content = items q ps;
}

module _ {F : Floats} {A : Type 0} where
  add_item_refused :
      (q : Deque F A) (x : A) (side : Direction) (ps : List Ptr) (e : Error)
      → refusal (view q ps) ≡ some e
      → (add_item q x side ≡ (some e, q))
        ⊎ (add_item q x side ≡ (some e, record q { updates = [] }))
  unfolding add_item refusal
  add_item_refused q x side ps e r = ground (arith, add_lem q.tracker)

  add_item_done :
      (q : Deque F A) (x : A) (side : Direction) (ps : List Ptr)
      → refusal (view q ps) ≡ none
      → (len (add q.tracker).1 ≡ len q.tracker + 1)
        × (add_item q x side ≡ (none, insert q x side (add q.tracker).1))
  unfolding add_item refusal
  add_item_done q x side ps r = ground (arith, add_lem q.tracker)

  -- What a push leaves, and what it answers.
  pub record Pushed (q : Deque F A) (x : A) (side : Direction) (ps : List Ptr) : Type 0 where
    pub at : List Ptr
    pub holds : Holds (add_item q x side).1 at
    pub answer : (add_item q x side).0 ≡ (push_model (view q ps) side x).0
    pub state : view (add_item q x side).1 at ≡ (push_model (view q ps) side x).1

  view-insert :
      (q : Deque F A) (x : A) (side : Direction) (ps : List Ptr)
      → Holds q ps
      → view (insert q x side (add q.tracker).1) (put_end side q.fresh ps)
        ≡ record (view q ps) { limits = (add q.tracker).1; content = put_end side x (items q ps) }
  unfolding insert
  view-insert q x side ps h = ground (arith, put-items q x side (add q.tracker).1 ps h)

  updates-Holds :
      (q : Deque F A) (ps : List Ptr) → Holds q ps → Holds (record q { updates = [] }) ps
  updates-Holds q ps h = ground arith

  updates-view : (q : Deque F A) (ps : List Ptr) → view (record q { updates = [] }) ps ≡ view q ps
  updates-view q ps =
      ap (λ (xs : List A). let m : Model F A = record (view q ps) { content = xs } in m)
        (items-frame q (record q { updates = [] }) ps (λ p i. refl))

  pub push_refines :
      (q : Deque F A) (x : A) (side : Direction) (ps : List Ptr) → Holds q ps → Pushed q x side ps
  unfolding push_model
  push_refines q x side ps h = elim (Option-cases (refusal (view q ps))) [
    | inl r ↦
        let (l, e) = add_item_done q x side ps r in
        record {
          at = put_end side q.fresh ps;
          holds =
              rw e
                (put-Holds q x side (add q.tracker).1 ps h l (add-IsValid q.tracker h.limits_ok));
          answer = rw (e, r, push_model);
          state = rw (e, r, push_model) (view-insert q x side ps h);
        }
    | inr (err, r) ↦ elim (add_item_refused q x side ps err r) [
      | inl e ↦ record {
        at = ps;
        holds = rw e h;
        answer = rw (e, r, push_model);
        state = rw (e, r, push_model);
      }
      | inr e ↦ record {
        at = ps;
        holds = rw e (updates-Holds q ps h);
        answer = rw (e, r, push_model);
        state = rw (e, r, push_model) (updates-view q ps);
      }
    ]
  ]
