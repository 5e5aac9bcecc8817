-- ===== src/Dt/List/Push.antt =====
-- The pushes of dt/list.go: the list of values gains one at the end that the name says.
use fun.Prelude.{
  ◌≡◌, refl, ap, ◌∙◌, inl, inr, true, false, some, List, [], ◌∷◌, ◌++◌, arith, Bool-cases,
}
use fun.Links.{
  Ptr, has, insert_after, Chain-frame, has_ne, has-snoc, last-has, insert_after_last,
  insert_after_start,
}
use fun.Dt.List.{Memory, detached, allocate, push, root_of, back, push_front, push_back}
use fun.Dt.List.IsList.{next_of, prev_of, values, Member, IsList}
use fun.Dt.List.Append.{Loose, appended, append_eq, appended-IsList}

module _ {A : Type 0} where
  pub values-frame :
      (m m' : Memory A) (ps : List Ptr)
      → ((p : Ptr) → has p ps ≡ true → (m'.elements p).item ≡ (m.elements p).item)
      → values m' ps ≡ values m ps
  values-frame m m' [] f = refl
  values-frame m m' (p ∷ ps) f =
      ground (arith, f p, values-frame m m' ps (λ x i. f x (ground arith)))

  pub values-append :
      (m : Memory A) (ps qs : List Ptr) → values m (ps ++ qs) ≡ values m ps ++ values m qs
  values-append m [] qs = refl
  values-append m (p ∷ ps) qs = ap (λ r. (m.elements p).item ∷ r) (values-append m ps qs)

  module _ (m : Memory A) (l r k : Ptr) (ps : List Ptr) (h : IsList m l r k ps) (a : A) where
    -- The memory with a new element of that value, in no list.
    unfoldable pub new : Memory A
    new = allocate m (detached true a)

    fresh_out : has m.fresh (r ∷ ps) ≡ false
    fresh_out = elim (Bool-cases (has m.fresh (r ∷ ps))) [
      | inr n ↦ n
      | inl y ↦ absurd (ground (arith, h.member m.fresh, h.root_old))
    ]

    pub new-IsList : IsList new l r k ps
    unfolding new
    new-IsList =
        let out = fresh_out in
        record {
          list_not_nil = h.list_not_nil;
          root_not_nil = h.root_not_nil;
          meta_not_nil = h.meta_not_nil;
          head_is = h.head_is;
          meta_is = h.meta_is;
          counted = h.counted;
          chain =
              Chain-frame (next_of m) (prev_of m) (next_of new) (prev_of new) r ps r h.chain
                (λ x i. ground (arith, has_ne x m.fresh (r ∷ ps) i out))
                (λ x i. ground (arith, has_ne x m.fresh (r ∷ ps), has-snoc x r ps, out));
          distinct = h.distinct;
          root_apart = h.root_apart;
          root_listed = ground (arith, out, h.root_listed);
          root_bad = ground (arith, out, h.root_bad);
          root_old = omega (arith, h.root_old);
          member = λ p i. new-Member p i;
        }
      where
        new-Member : (p : Ptr) → has p ps ≡ true → Member new l p
        new-Member p i =
            let apart = has_ne p m.fresh ps i (ground (arith, fresh_out)) in
            let known = h.member p i in
            record {
              not_nil = known.not_nil;
              listed = ground (arith, apart, known);
              good = ground (arith, apart, known);
              old = omega (arith, known.old);
            }

    new-Loose : Loose new m.fresh
    unfolding new
    new-Loose = record {
      not_nil = omega (arith, h.root_old);
      unlisted = ground arith;
      good = ground arith;
      old = omega arith;
    }

    pub new-values : values new ps ≡ values m ps
    unfolding new
    new-values =
        values-frame m new ps
          (λ p i. ground (arith, has_ne p m.fresh ps i (ground (arith, fresh_out))))

  -- A memory in which the list `l` holds these values, front first.
  pub record Contains (m : Memory A) (l : Ptr) (xs : List A) : Type 0 where
    pub root : Ptr
    pub meta : Ptr
    pub at : List Ptr
    pub is_list : IsList m l root meta at
    pub are : values m at ≡ xs

  module _ (m : Memory A) (l r k : Ptr) (ps : List Ptr) (h : IsList m l r k ps) (a : A) (e : Ptr)
      (here : has e (r ∷ ps) ≡ true) where
    pub pushed : Memory A
    pushed = appended (new m l r k ps h a) l k e m.fresh

    pub push_eq : push m e a ≡ some (m.fresh, pushed)
    unfolding push pushed new
    push_eq =
        append_eq (new m l r k ps h a) l r k e m.fresh ps (new-IsList m l r k ps h a) here
          (new-Loose m l r k ps h a)

    pub pushed-IsList : IsList pushed l r k (insert_after r ps e m.fresh)
    unfolding pushed
    pushed-IsList =
        appended-IsList (new m l r k ps h a) l r k e m.fresh ps (new-IsList m l r k ps h a) here
          (new-Loose m l r k ps h a)

    pub pushed-values : (qs : List Ptr) → values pushed qs ≡ values (new m l r k ps h a) qs
    unfolding pushed
    pushed-values qs = values-frame (new m l r k ps h a) pushed qs (λ p i. ground arith)

    pub pushed-fresh : (pushed.elements m.fresh).item ≡ a
    unfolding pushed new
    pushed-fresh = ground arith

    pub pushed_item : (p : Ptr) → has p ps ≡ true → (pushed.elements p).item ≡ (m.elements p).item
    unfolding pushed new
    pushed_item p i =
        ground (arith, has_ne p m.fresh ps i (ground (arith, fresh_out m l r k ps h a)))

    pushed_front-values : values pushed (m.fresh ∷ ps) ≡ a ∷ values m ps
    pushed_front-values = ground (arith, pushed-fresh, pushed-values ps, new-values m l r k ps h a)

    pub pushed_back-values : values pushed (ps ++ (m.fresh ∷ [])) ≡ values m ps ++ (a ∷ [])
    pushed_back-values = ground (
      arith,
      values-append pushed ps (m.fresh ∷ []),
      pushed-fresh,
      pushed-values ps,
      new-values m l r k ps h a,
    )

  pub root_of_eq :
      (z : A) (m : Memory A) (l r k : Ptr) (ps : List Ptr)
      → IsList m l r k ps
      → root_of z m l ≡ some (r, m)
  unfolding root_of
  root_of_eq z m l r k ps h = ground (arith, h.head_is, h.root_not_nil, h.list_not_nil)

  module _ (z : A) (m : Memory A) (l : Ptr) (xs : List A) (a : A) (c : Contains m l xs) where
    open c use {root, meta, at, is_list, are}

    first : has root (root ∷ at) ≡ true
    first = ground arith

    last : has (prev_of m root) (root ∷ at) ≡ true
    last = last-has (next_of m) (prev_of m) root at root is_list.chain

    -- `PushFront` never dereferences nil, and puts the value before the others.
    pub push_front_lem : (m' : Memory A) × (push_front z m l a ≡ some m') × Contains m' l (a ∷ xs)
    unfolding push_front
    push_front_lem =
        let m' = pushed m l root meta at is_list a root first in
        let eq = push_eq m l root meta at is_list a root first in
        let order = insert_after_start root at m.fresh in
        (
          m',
          ground (arith, root_of_eq z m l root meta at is_list, eq),
          record {
            root = root;
            meta = meta;
            at = insert_after root at root m.fresh;
            is_list = pushed-IsList m l root meta at is_list a root first;
            are =
                ap (values m') order
                ∙ pushed_front-values m l root meta at is_list a root first
                ∙ ap (λ r. a ∷ r) are;
          },
        )

    -- `PushBack` never dereferences nil, and puts the value behind the others.
    pub push_back_lem :
        (m' : Memory A) × (push_back z m l a ≡ some m') × Contains m' l (xs ++ (a ∷ []))
    unfolding push_back back
    push_back_lem =
        let m' = pushed m l root meta at is_list a (prev_of m root) last in
        let eq = push_eq m l root meta at is_list a (prev_of m root) last in
        let order =
          insert_after_last (next_of m) (prev_of m) root at root m.fresh is_list.chain
            is_list.distinct is_list.root_apart in
        (
          m',
          ground (arith, root_of_eq z m l root meta at is_list, is_list.root_not_nil, eq),
          record {
            root = root;
            meta = meta;
            at = insert_after root at (prev_of m root) m.fresh;
            is_list = pushed-IsList m l root meta at is_list a (prev_of m root) last;
            are =
                ap (values m') order
                ∙ pushed_back-values m l root meta at is_list a (prev_of m root) last
                ∙ ap (λ r. r ++ (a ∷ [])) are;
          },
        )
