-- ===== src/Dt/Stack/Holds.antt =====
-- The representation of a stack of dt/stack.go, and what a push makes of it.
use fun.Prelude.{
  ◌+◌, ◌<◌, ◌≡◌, refl, inl, inr, true, false, some, List, [], ◌∷◌, length, arith, ◌==◌, Bool-cases,
}
use fun.Prelude.Int.{pos, ◌+ℤ◌}
use fun.Links.{Ptr, update, has, Distinct}
use fun.Dt.Stack.{Item, Memory, root, append, push, new_item, allocate}

module _ {A : Type 0} where
  -- From `p` the links lead through the items to the root.
  abbrev pub Walk : Memory A → Ptr → List Ptr → Ptr → Type 0
  Walk m p [] r = p ≡ r
  Walk m p (a ∷ ps) r = (p ≡ a) × ((m.items a).ok ≡ true) × Walk m (m.items a).next ps r

  abbrev pub values : Memory A → List Ptr → List A
  values m [] = []
  values m (p ∷ ps) = (m.items p).value ∷ values m ps

  -- `s` is the stack of the items `ps`, top first, over the root `r`.
  pub record IsStack (m : Memory A) (s r : Ptr) (ps : List Ptr) : Type 0 where
    pub stack_not_nil : 0 < s
    pub root_not_nil : 0 < r
    pub root_bad : (m.items r).ok ≡ false
    pub root_old : r < m.fresh
    pub root_listed : (m.items r).stack ≡ s
    pub walk : Walk m (m.stacks s).head ps r
    pub distinct : Distinct ps
    pub member : (p : Ptr) → has p ps ≡ true → (0 < p) × (p < m.fresh) × ((m.items p).stack ≡ s)
    pub counted : (m.stacks s).length ≡ pos (length ps)

  pub Walk-frame :
      (m m' : Memory A) (p : Ptr) (ps : List Ptr) (r : Ptr)
      → Walk m p ps r
      → ((x : Ptr)
          → has x ps ≡ true
          → ((m'.items x).ok ≡ (m.items x).ok) × ((m'.items x).next ≡ (m.items x).next))
      → Walk m' p ps r
  Walk-frame m m' p [] r h f = h
  Walk-frame m m' p (a ∷ ps) r h f =
      let rest = Walk-frame m m' (m.items a).next ps r h.2 (λ x i. f x (ground arith)) in
      let here = f a (ground arith) in (h.0, ground (arith, here), rw here.1 rest)

  -- The items on the way to the root are valid.
  pub item_ok :
      (m : Memory A) (ps : List Ptr) (p r it : Ptr)
      → Walk m p ps r
      → has it ps ≡ true
      → (m.items it).ok ≡ true
  item_ok m [] p r it w i = absurd (cc i)
  item_ok m (a ∷ ps) p r it w i = ground (arith, item_ok m ps (m.items a).next r it w.2)

  pub values-frame :
      (m m' : Memory A) (ps : List Ptr)
      → ((x : Ptr) → has x ps ≡ true → (m'.items x).value ≡ (m.items x).value)
      → values m' ps ≡ values m ps
  values-frame m m' [] f = refl
  values-frame m m' (p ∷ ps) f =
      ground (arith, f p, values-frame m m' ps (λ x i. f x (ground arith)))

  pub length-values : (m : Memory A) (ps : List Ptr) → length (values m ps) ≡ length ps
  length-values m [] = refl
  length-values m (p ∷ ps) = omega (arith, length-values m ps)

  -- A memory in which the stack `s` holds these values, top first.
  pub record Contains (m : Memory A) (s : Ptr) (xs : List A) : Type 0 where
    pub bottom : Ptr
    pub at : List Ptr
    pub is_stack : IsStack m s bottom at
    pub are : values m at ≡ xs

  -- The head of a stack is an item of it, or the root.
  pub head_cases :
      (m : Memory A) (s r : Ptr) (ps : List Ptr)
      → IsStack m s r ps
      → (has (m.stacks s).head (r ∷ ps) ≡ true)
  head_cases m s r [] h = ground (arith, h.walk)
  head_cases m s r (p ∷ ps) h = ground (arith, h.walk)

  head-facts :
      (m : Memory A) (s r : Ptr) (ps : List Ptr)
      → IsStack m s r ps
      → (0 < (m.stacks s).head)
        × ((m.stacks s).head < m.fresh)
        × ((m.items (m.stacks s).head).stack ≡ s)
  head-facts m s r ps h = ground (
    arith,
    head_cases m s r ps h,
    h.member (m.stacks s).head,
    h.root_not_nil,
    h.root_old,
    h.root_listed,
  )

  pub root_eq :
      (z : A) (m : Memory A) (s r : Ptr) (ps : List Ptr)
      → IsStack m s r ps
      → root z m s ≡ some ((m.stacks s).head, m)
  unfolding root
  root_eq z m s r ps h = ground (arith, head-facts m s r ps h, h.stack_not_nil)

  -- The memory after a push.
  abbrev pub pushed : Memory A → Ptr → A → Memory A
  pushed m s v =
      let n : Item A = record { next = (m.stacks s).head; stack = s; ok = true; value = v } in
      record {
        items = update (allocate m (new_item v)).items m.fresh n;
        stacks =
            update m.stacks s (record { head = m.fresh; length = (m.stacks s).length +ℤ pos 1 });
        fresh = m.fresh + 1;
      }

  push_eq :
      (z : A) (m : Memory A) (s r : Ptr) (ps : List Ptr) (v : A)
      → IsStack m s r ps
      → push z m s v ≡ some (pushed m s v)
  unfolding push append root
  push_eq z m s r ps v h = ground (arith, head-facts m s r ps h, h.stack_not_nil)

  -- An item of a stack, or its root, is not the next to be allocated.
  old_ne :
      (m : Memory A) (s r : Ptr) (ps : List Ptr)
      → IsStack m s r ps
      → (x : Ptr) → has x (r ∷ ps) ≡ true
      → (x == m.fresh) ≡ false
  old_ne m s r ps h x i = ground (arith, h.member x, h.root_old)

  pushed-IsStack :
      (m : Memory A) (s r : Ptr) (ps : List Ptr) (v : A)
      → IsStack m s r ps
      → IsStack (pushed m s v) s r (m.fresh ∷ ps)
  unfolding ◌+ℤ◌
  pushed-IsStack m s r ps v h =
      let ne = old_ne m s r ps h in
      let walked =
        Walk-frame m (pushed m s v) (m.stacks s).head ps r h.walk
          (λ x i. ground (arith, ne x (ground arith))) in
      let apart : has m.fresh ps ≡ false = elim (Bool-cases (has m.fresh ps)) [
        | inr n ↦ n
        | inl y ↦ absurd (ground (arith, ne m.fresh (ground arith)))
      ] in
      record {
        stack_not_nil = h.stack_not_nil;
        root_not_nil = h.root_not_nil;
        root_bad = ground (arith, ne r (ground arith), h.root_bad);
        root_old = omega (arith, h.root_old);
        root_listed = ground (arith, ne r (ground arith), h.root_listed);
        walk = ground (arith, walked);
        distinct = ground (arith, apart, h.distinct);
        member = λ p i. ground (arith, h.member p, ne p);
        counted = ground (arith, h.counted);
      }

  pushed-values :
      (m : Memory A) (s r : Ptr) (ps : List Ptr) (v : A)
      → IsStack m s r ps
      → values (pushed m s v) (m.fresh ∷ ps) ≡ v ∷ values m ps
  pushed-values m s r ps v h =
      let same =
        values-frame m (pushed m s v) ps
          (λ x i. ground (arith, old_ne m s r ps h x (ground arith))) in
      ground (arith, same)

  -- `Push` never dereferences nil, and puts the value on top of the others.
  pub stack_push_lem :
      (z : A) (m : Memory A) (s : Ptr) (xs : List A) (v : A)
      → Contains m s xs
      → (m' : Memory A) × (push z m s v ≡ some m') × Contains m' s (v ∷ xs)
  stack_push_lem z m s xs v c =
      let h = c.is_stack in
      (
        pushed m s v,
        push_eq z m s c.bottom c.at v h,
        record {
          bottom = c.bottom;
          at = m.fresh ∷ c.at;
          is_stack = pushed-IsStack m s c.bottom c.at v h;
          are = ground (arith, pushed-values m s c.bottom c.at v h, c.are);
        },
      )
