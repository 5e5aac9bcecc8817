-- ===== src/Dt/Stack/Pop.antt =====
-- The pops of dt/stack.go, behind a push too, and its iterator.
use fun.Prelude.{ℕ, zero, suc, ◌<◌, ◌≡◌, true, false, some, List, [], ◌∷◌, length, arith}
use fun.Prelude.Int.{negsuc, ◌+ℤ◌}
use fun.Links.{Ptr, update, has, has_ne}
use fun.Dt.Stack.{Memory, nil, is_ok, push, pop, iterate, iterator}
use fun.Dt.Stack.Holds.{
  Walk, values, IsStack, Walk-frame, values-frame, Contains, root_eq, length-values, stack_push_lem,
}

module _ {A : Type 0} where
  -- The memory after the head of a stack has been popped.
  abbrev pub popped : Memory A → Ptr → Memory A
  popped m s =
      let p = (m.stacks s).head in
      record m {
        items = update m.items p (record (m.items p) { stack = nil });
        stacks =
            update m.stacks s
              (record { head = (m.items p).next; length = (m.stacks s).length +ℤ negsuc 0 });
      }

  pop_eq :
      (z : A) (m : Memory A) (s r p : Ptr) (ps : List Ptr)
      → IsStack m s r (p ∷ ps)
      → pop z m s ≡ some (p, popped m s)
  unfolding pop
  pop_eq z m s r p ps h = ground (arith, root_eq z m s r (p ∷ ps) h, h.counted, h.walk)

  popped-IsStack :
      (m : Memory A) (s r p : Ptr) (ps : List Ptr)
      → IsStack m s r (p ∷ ps)
      → IsStack (popped m s) s r ps
  unfolding ◌+ℤ◌
  popped-IsStack m s r p ps h =
      let head : (m.stacks s).head ≡ p = h.walk.0 in
      let walked = Walk-frame m (popped m s) (m.items p).next ps r h.walk.2 (λ x i. ground arith) in
      record {
        stack_not_nil = h.stack_not_nil;
        root_not_nil = h.root_not_nil;
        root_bad = ground (arith, h.root_bad);
        root_old = h.root_old;
        root_listed = ground (arith, h.root_listed, h.root_bad, h.walk);
        walk = ground (arith, walked);
        distinct = h.distinct.1;
        member = λ x i. ground (arith, h.member x, has_ne x p ps i h.distinct.0);
        counted = ground (arith, h.counted);
      }

  -- What a pop of the value `x` gives: an item outside of every stack.
  pub record Popped (z : A) (m : Memory A) (s : Ptr) (x : A) (xs : List A) : Type 0 where
    pub item : Ptr
    pub left : Memory A
    pub answered : pop z m s ≡ some (item, left)
    pub value_is : (left.items item).value ≡ x
    pub still_ok : is_ok left item ≡ true
    pub unlisted : (left.items item).stack ≡ nil
    pub contains : Contains left s xs

  take_top :
      (z : A) (m : Memory A) (s r : Ptr) (ps : List Ptr) (x : A) (xs : List A)
      → IsStack m s r ps
      → values m ps ≡ x ∷ xs
      → Popped z m s x xs
  take_top z m s r [] x xs h e = absurd (cc e)
  take_top z m s r (p ∷ ps) x xs h e =
      let same = values-frame m (popped m s) ps (λ y i. ground arith) in
      record {
        item = p;
        left = popped m s;
        answered = pop_eq z m s r p ps h;
        value_is = ground (arith, e);
        still_ok = ground (arith, h.walk, h.member p);
        unlisted = ground (arith, h.walk);
        contains = record {
          bottom = r;
          at = ps;
          is_stack = popped-IsStack m s r p ps h;
          are = ground (arith, same, e);
        };
      }

  -- `Pop` never dereferences nil, and takes out the top value with its item.
  pub stack_pop_lem :
      (z : A) (m : Memory A) (s : Ptr) (x : A) (xs : List A)
      → Contains m s (x ∷ xs)
      → Popped z m s x xs
  stack_pop_lem z m s x xs c = take_top z m s c.bottom c.at x xs c.is_stack c.are

  -- `Push` and a `Pop` behind it never dereference nil: the push puts the value on top of the others, and
  -- the pop gives it back with its item and leaves the stack with the values that it held.
  pub stack_pop-push :
      (z : A) (m : Memory A) (s : Ptr) (xs : List A) (v : A)
      → Contains m s xs
      → (m' : Memory A) × (push z m s v ≡ some m') × Contains m' s (v ∷ xs) × Popped z m' s v xs
  stack_pop-push z m s xs v c =
      let (m', e, d) = stack_push_lem z m s xs v c in (m', e, d, stack_pop_lem z m' s v xs d)

  -- `Pop` of an empty stack gives its root, whose Ok is false, and leaves the stack as it is.
  pub pop_empty :
      (z : A) (m : Memory A) (s : Ptr)
      → Contains m s []
      → (r : Ptr) × (pop z m s ≡ some (r, m)) × (is_ok m r ≡ false)
  unfolding pop
  pop_empty z m s c = go c.at c.is_stack c.are
    where
      go :
          (ps : List Ptr)
          → IsStack m s c.bottom ps
          → values m ps ≡ []
          → (r : Ptr) × (pop z m s ≡ some (r, m)) × (is_ok m r ≡ false)
      go [] h e = (
        c.bottom,
        ground (arith, root_eq z m s c.bottom [] h, h.counted, h.walk),
        ground (arith, h.root_bad),
      )
      go (p ∷ ps) h e = absurd (cc e)

  -- The iteration from a place in a stack.
  pub iterate-Walk :
      (m : Memory A) (fuel : ℕ) (p : Ptr) (ps : List Ptr) (r : Ptr)
      → Walk m p ps r
      → ((x : Ptr) → has x ps ≡ true → 0 < x)
      → (m.items r).ok ≡ false
      → length ps < fuel
      → iterate fuel m p ≡ values m ps
  unfolding iterate
  iterate-Walk m zero p ps r h f b l = absurd (omega (arith, l))
  iterate-Walk m (suc fuel) p [] r h f b l = ground arith
  iterate-Walk m (suc fuel) p (a ∷ ps) r h f b l =
      let rest =
        iterate-Walk m fuel (m.items a).next ps r h.2 (λ x i. f x (ground arith)) b
          (omega (arith, l)) in
      ground (arith, rest, f a)

  -- The iterator yields the values of the stack, top first, when it is given one step more than there
  -- are values.
  pub stack_iterator_lem :
      (z : A) (m : Memory A) (s : Ptr) (xs : List A) (fuel : ℕ)
      → Contains m s xs
      → length xs < fuel
      → iterator z fuel m s ≡ some xs
  unfolding iterator
  stack_iterator_lem z m s xs fuel c l =
      let h = c.is_stack in
      let walked =
        iterate-Walk m fuel (m.stacks s).head c.at c.bottom h.walk (λ x i. (h.member x i).0)
          h.root_bad (ground (arith, length-values m c.at, c.are)) in
      ground (arith, root_eq z m s c.bottom c.at h, walked, c.are)
