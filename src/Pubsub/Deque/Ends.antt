-- ===== src/Pubsub/Deque/Ends.antt =====
-- The pops of pubsub/deque.go are those of the list with two ends of Model.antt.
use fun.Prelude.{
  ◌≡◌, refl, sym, ap, ◌⊎◌, inl, inr, true, false, none, some, List, [], ◌∷◌, ◌++◌, arith,
  Bool-cases,
}
use mathlib.Core.Path.{subst}
use fun.Links.{Ptr, has, without, without-first, without-last, has-last, Chain-last, snoc_cases}
use fun.Pubsub.Tracker.{Floats, remove}
use fun.Pubsub.Queue.Model.{Model}
use fun.Pubsub.Deque.{Direction, dq_next, dq_prev, Deque, ok, pop, take_out, next_or_previous}
use fun.Pubsub.Deque.Holds.{items, items-append, next_of, prev_of, Holds}
use fun.Pubsub.Deque.Unlink.{take_out-Holds, take_out-items, next_cases, prev_cases}
use fun.Pubsub.Deque.Model.{split_last, take_end, pop_model}
use fun.Pubsub.Deque.Refine.{view}

pub split_last-snoc :
    {A : Type 0} (xs : List A) (x : A) → split_last (xs ++ (x ∷ [])) ≡ some (x, xs)
unfolding split_last
split_last-snoc [] x = refl
split_last-snoc (a ∷ xs) x = rw (split_last, split_last-snoc xs x)

module _ {F : Floats} {A : Type 0} where
  -- The element next to the root on a side, for a pop.
  abbrev pub end : Deque F A → Direction → Ptr
  end q side = next_or_previous (q.cells q.root) side

  pub end-empty :
      (q : Deque F A) (side : Direction) (ps : List Ptr)
      → Holds q ps
      → ps ≡ []
      → end q side ≡ q.root
  end-empty q dq_next [] h e = h.chain.0
  end-empty q dq_prev [] h e = h.chain.1
  end-empty q side (p ∷ ps) h e = absurd (cc e)

  pop-closed : (z : A) (q : Deque F A) (p : Ptr) → q.closed ≡ true → pop z q p ≡ ok (none, q)
  unfolding pop
  pop-closed z q p c = ground arith

  pop-root :
      (z : A) (q : Deque F A) (p : Ptr) (ps : List Ptr)
      → Holds q ps
      → p ≡ q.root
      → pop z q p ≡ ok (none, q)
  unfolding pop
  pop-root z q p ps h e = ground (arith, h.root_is)

  pop-member :
      (z : A) (q : Deque F A) (p : Ptr) (ps : List Ptr)
      → Holds q ps
      → q.closed ≡ false
      → has p ps ≡ true
      → pop z q p ≡ ok (some (q.cells p).item, take_out z q p)
  unfolding pop
  pop-member z q p ps h c i = ground (
    arith,
    h.live p i,
    h.apart,
    next_cases z q p ps h i,
    prev_cases z q p ps h i,
    h.live (next_of q p),
    h.live (prev_of q p),
    h.root_not_nil,
  )

  pop_model-closed :
      (m : Model F A) (side : Direction) → m.is_closed ≡ true → pop_model m side ≡ (none, m)
  unfolding pop_model
  pop_model-closed m side c = ground arith

  pop_model-empty :
      (m : Model F A) (side : Direction) → m.content ≡ [] → pop_model m side ≡ (none, m)
  unfolding pop_model take_end split_last
  pop_model-empty m dq_next e = ground arith
  pop_model-empty m dq_prev e = ground arith

  pop_model-take :
      (m : Model F A) (side : Direction) (x : A) (xs : List A)
      → m.is_closed ≡ false
      → take_end side m.content ≡ some (x, xs)
      → pop_model m side ≡ (some x, record m { limits = remove m.limits; content = xs })
  unfolding pop_model
  pop_model-take m side x xs c e = ground arith

  -- The element that a pop at an end takes out of a deque that is not empty.
  pub record AtEnd (q : Deque F A) (side : Direction) (ps : List Ptr) : Type 0 where
    pub here : has (end q side) ps ≡ true
    pub taken :
        take_end side (items q ps)
        ≡ some ((q.cells (end q side)).item, items q (without ps (end q side)))

  pub at_end :
      (q : Deque F A) (side : Direction) (ps : List Ptr) → Holds q ps → (ps ≡ []) ⊎ AtEnd q side ps
  unfolding take_end
  at_end q dq_next [] h = inl refl
  at_end q dq_next (p ∷ ps) h =
      inr (record { here = ground (arith, h.chain.0); taken = rw (h.chain.0, without-first p ps) })
  at_end q dq_prev ps h = elim (snoc_cases ps) [
    | inl e ↦ inl e
    | inr (qs, p, e) ↦ inr (subst (AtEnd q dq_prev) (sym e) (last qs p (subst (Holds q) e h)))
  ]
    where
      last : (qs : List Ptr) (p : Ptr) → Holds q (qs ++ (p ∷ [])) → AtEnd q dq_prev (qs ++ (p ∷ []))
      last qs p g =
          let at = Chain-last (next_of q) (prev_of q) q.root qs p q.root g.chain in
          record {
            here = rw at (has-last qs p);
            taken = rw (
              at,
              without-last qs p g.distinct,
              items-append q qs (p ∷ []),
              split_last-snoc (items q qs) (q.cells p).item,
            );
          }

  -- What a pop leaves and what it answers; it never dereferences nil.
  pub record Popped (z : A) (q : Deque F A) (side : Direction) (ps : List Ptr) : Type 0 where
    pub left : Deque F A
    pub at : List Ptr
    pub holds : Holds left at
    pub answer : pop z q (end q side) ≡ ok ((pop_model (view q ps) side).0, left)
    pub state : view left at ≡ (pop_model (view q ps) side).1

  view-take_out :
      (z : A) (q : Deque F A) (e : Ptr) (ps : List Ptr) (h : Holds q ps) (here : has e ps ≡ true)
      → view (take_out z q e) (without ps e)
        ≡ record (view q ps) { limits = remove q.tracker; content = items q (without ps e) }
  unfolding take_out
  view-take_out z q e ps h here = ground (arith, take_out-items z q e ps h here)

  unmoved :
      (z : A) (q : Deque F A) (side : Direction) (ps : List Ptr)
      → Holds q ps
      → pop z q (end q side) ≡ ok (none, q)
      → pop_model (view q ps) side ≡ (none, view q ps)
      → Popped z q side ps
  unmoved z q side ps h e f = record {
    left = q;
    at = ps;
    holds = h;
    answer = rw (f, e);
    state = rw f;
  }

  pub pop_refines :
      (z : A) (q : Deque F A) (side : Direction) (ps : List Ptr) → Holds q ps → Popped z q side ps
  pop_refines z q side ps h = elim (Bool-cases q.closed) [
    | inl c ↦
        unmoved z q side ps h (pop-closed z q (end q side) c) (pop_model-closed (view q ps) side c)
    | inr c ↦ elim (at_end q side ps h) [
      | inl e ↦
          unmoved z q side ps h (pop-root z q (end q side) ps h (end-empty q side ps h e))
            (pop_model-empty (view q ps) side (ap (items q) e))
      | inr a ↦
          let f =
            pop_model-take (view q ps) side (q.cells (end q side)).item
              (items q (without ps (end q side))) c a.taken in
          record {
            left = take_out z q (end q side);
            at = without ps (end q side);
            holds = take_out-Holds z q (end q side) ps h a.here;
            answer = rw (f, pop-member z q (end q side) ps h c a.here);
            state = rw f (view-take_out z q (end q side) ps h a.here);
          }
    ]
  ]
