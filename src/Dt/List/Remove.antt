-- ===== src/Dt/List/Remove.antt =====
-- `Remove` and the pops of dt/list.go: an element of a list is unlinked and told that it has no list.
use fun.Prelude.{
  ◌-◌, ◌≡◌, ◌≢◌, ap, sym, ◌∙◌, inl, inr, true, false, Option, some, List, [], ◌∷◌, ◌++◌, arith,
  ◌==◌,
}
use mathlib.Core.Path.{subst}
use fun.Links.{
  Ptr, update, has, without, next-has, prev-has, Removed, Chain-remove, has-without,
  Distinct-without, length-without, without-first, without-last, has-last, Chain-last, snoc_cases,
  snoc_inj,
}
use fun.Dt.List.{
  Memory, nil, remove, unchecked_remove, front, back, pop, pop_front, pop_back, removable,
}
use fun.Dt.List.Push.{Contains, values-append, values-frame, root_of_eq}
use fun.Dt.List.IsList.{next_of, prev_of, values, Member, IsList}

module _ {A : Type 0} where
  -- The memory after `e` has been taken out of a list with its length at `k`.
  abbrev pub removed : Memory A → Ptr → Ptr → Memory A
  removed m k e =
      let p = prev_of m e in
      let n = next_of m e in
      let e1 = update m.elements p (record (m.elements p) { next = n }) in
      let e2 = update e1 n (record (e1 n) { prev = p }) in
      record m {
        lengths = update m.lengths k (m.lengths k - 1);
        elements = update e2 e (record (e2 e) { list = nil });
      }

  module _ (m : Memory A) (l r k e : Ptr) (ps : List Ptr) (h : IsList m l r k ps)
      (here : has e ps ≡ true) where
    -- What the commands test, one equation for each.
    record Facts : Type 0 where
      e_nil : (e == nil) ≡ false
      e_list : (m.elements e).list ≡ l
      l_nil : (l == nil) ≡ false
      head_nil : ((m.lists l).head == nil) ≡ false
      k_nil : (k == nil) ≡ false
      n_nil : (next_of m e == nil) ≡ false
      p_nil : (prev_of m e == nil) ≡ false
      no_root : (r == e) ≡ false

    facts : Facts
    facts =
        let later = next-has (next_of m) (prev_of m) r ps r e h.chain (ground arith) in
        let sooner = prev-has (next_of m) (prev_of m) r ps r e h.chain here in
        record {
          e_nil = ground (arith, h.member e);
          e_list = ground (arith, h.member e);
          l_nil = ground arith;
          head_nil = ground (arith, h.head_is);
          k_nil = ground arith;
          n_nil = ground (arith, later, h.member (next_of m e));
          p_nil = ground (arith, sooner, h.member (prev_of m e));
          no_root = ground (arith, h.root_apart);
        }

    unchecked_remove_eq : unchecked_remove m e ≡ some (removed m k e)
    unfolding unchecked_remove
    unchecked_remove_eq = let f = facts in ground (arith, f, h.meta_is)

    removable_eq : removable m e ≡ true
    removable_eq =
        let f = facts in ground (arith, f, h.head_is, h.meta_is, h.counted, length-without ps e)

    removed_links :
        Removed (next_of m) (prev_of m) e (next_of (removed m k e)) (prev_of (removed m k e))
    removed_links =
        let f = facts in
        record {
          over_next = ground (arith, f);
          over_prev = ground (arith, f);
          else_next = λ x i j. ground (arith, f);
          else_prev = λ x i j. ground (arith, f);
        }

    removed-Member : (p : Ptr) → has p ps ≡ true → (p == e) ≡ false → Member (removed m k e) l p
    removed-Member p i n =
        let known = h.member p i in
        record {
          not_nil = known.not_nil;
          listed = ground (arith, known);
          good = ground (arith, known);
          old = known.old;
        }

    pub removed-IsList : IsList (removed m k e) l r k (without ps e)
    removed-IsList =
        let f = facts in
        record {
          list_not_nil = h.list_not_nil;
          root_not_nil = h.root_not_nil;
          meta_not_nil = h.meta_not_nil;
          head_is = h.head_is;
          meta_is = h.meta_is;
          counted = ground (arith, h.counted, length-without ps e);
          chain =
              Chain-remove (next_of m) (prev_of m) e (next_of (removed m k e))
                (prev_of (removed m k e)) r ps r h.chain h.distinct h.root_apart h.root_apart here
                removed_links;
          distinct = Distinct-without ps e h.distinct;
          root_apart = ground (arith, has-without ps e r h.distinct, h.root_apart);
          root_listed = ground (arith, f, h.root_listed);
          root_bad = ground (arith, f, h.root_bad);
          root_old = h.root_old;
          member = λ p i.
              let j = has-without ps e p h.distinct in
              removed-Member p (ground (arith, j)) (ground (arith, j));
        }

    pub removed-values : (qs : List Ptr) → values (removed m k e) qs ≡ values m qs
    removed-values qs = values-frame m (removed m k e) qs (λ p i. ground arith)

    pub pop_eq : (z : A) → pop z m l e ≡ some (e, removed m k e)
    unfolding pop
    pop_eq z = let f = facts in ground (arith, f, removable_eq, unchecked_remove_eq)

    -- `Remove` of an element of a list says so. The list keeps its other elements, in their order and
    -- with their values, the length is one less, and the element has no list.
    pub remove_lem :
        (remove m e ≡ some (true, removed m k e))
        × IsList (removed m k e) l r k (without ps e)
        × (values (removed m k e) (without ps e) ≡ values m (without ps e))
        × (((removed m k e).elements e).list ≡ nil)
    unfolding remove
    remove_lem =
        let f = facts in
        (
          ground (arith, f, removable_eq, unchecked_remove_eq),
          removed-IsList,
          removed-values (without ps e),
          ground arith,
        )

  pub front_eq :
      (z : A) (m : Memory A) (l r k : Ptr) (ps : List Ptr)
      → IsList m l r k ps
      → front z m l ≡ some (next_of m r, m)
  unfolding front
  front_eq z m l r k ps h = ground (arith, root_of_eq z m l r k ps h, h.root_not_nil)

  pub back_eq :
      (z : A) (m : Memory A) (l r k : Ptr) (ps : List Ptr)
      → IsList m l r k ps
      → back z m l ≡ some (prev_of m r, m)
  unfolding back
  back_eq z m l r k ps h = ground (arith, root_of_eq z m l r k ps h, h.root_not_nil)

  snoc_ne : (xs : List A) (x : A) → xs ++ (x ∷ []) ≢ []
  snoc_ne [] x e = cc
  snoc_ne (a ∷ xs) x e = cc

  -- What a pop of the value `x` gives: the memory in which its element is detached.
  pub record Popped (m : Memory A) (l : Ptr) (x : A) (xs : List A)
      (answer : Option (Ptr × Memory A)) : Type 0 where
    pub element : Ptr
    pub not_nil : element ≢ nil
    pub left : Memory A
    pub answered : answer ≡ some (element, left)
    pub item_is : (left.elements element).item ≡ x
    pub still_ok : (left.elements element).ok ≡ true
    pub unlisted : (left.elements element).list ≡ nil
    pub contains : Contains left l xs

  pop_front_from :
      (z : A) (m : Memory A) (l r k : Ptr) (ps : List Ptr) (x : A) (xs : List A)
      → IsList m l r k ps
      → values m ps ≡ x ∷ xs
      → Popped m l x xs (pop_front z m l)
  unfolding pop_front
  pop_front_from z m l r k [] x xs h v = absurd (cc)
  pop_front_from z m l r k (p ∷ ps) x xs h v =
      let here : has p (p ∷ ps) ≡ true = ground arith in
      record {
        element = p;
        not_nil = (h.member p here).not_nil;
        left = removed m k p;
        answered =
            ground
              (arith, front_eq z m l r k (p ∷ ps) h, pop_eq m l r k p (p ∷ ps) h here z, h.chain.0);
        item_is = ground (arith, v);
        still_ok = ground (arith, h.member p here);
        unlisted = ground arith;
        contains = record {
          root = r;
          meta = k;
          at = without (p ∷ ps) p;
          is_list = removed-IsList m l r k p (p ∷ ps) h here;
          are =
              removed-values m l r k p (p ∷ ps) h here (without (p ∷ ps) p)
              ∙ ap (values m) (without-first p ps)
              ∙ ground (arith, v);
        };
      }

  -- `PopFront` never dereferences nil, and takes out the first value with its element.
  pub pop_front_lem :
      (z : A) (m : Memory A) (l : Ptr) (x : A) (xs : List A)
      → Contains m l (x ∷ xs)
      → Popped m l x xs (pop_front z m l)
  pop_front_lem z m l x xs c = pop_front_from z m l c.root c.meta c.at x xs c.is_list c.are

  pop_back_from :
      (z : A) (m : Memory A) (l r k : Ptr) (qs : List Ptr) (p : Ptr) (x : A) (xs : List A)
      → IsList m l r k (qs ++ (p ∷ []))
      → values m (qs ++ (p ∷ [])) ≡ xs ++ (x ∷ [])
      → Popped m l x xs (pop_back z m l)
  unfolding pop_back
  pop_back_from z m l r k qs p x xs h v =
      let ps = qs ++ (p ∷ []) in
      let here : has p ps ≡ true = has-last qs p in
      let order : without ps p ≡ qs = without-last qs p h.distinct in
      let same =
        snoc_inj (values m qs) xs (m.elements p).item x (sym (values-append m qs (p ∷ [])) ∙ v) in
      record {
        element = p;
        not_nil = (h.member p here).not_nil;
        left = removed m k p;
        answered = ground (
          arith,
          back_eq z m l r k ps h,
          pop_eq m l r k p ps h here z,
          Chain-last (next_of m) (prev_of m) r qs p r h.chain,
        );
        item_is = ground (arith, same);
        still_ok = ground (arith, h.member p here);
        unlisted = ground arith;
        contains = record {
          root = r;
          meta = k;
          at = without ps p;
          is_list = removed-IsList m l r k p ps h here;
          are = removed-values m l r k p ps h here (without ps p) ∙ ap (values m) order ∙ same.0;
        };
      }

  -- `PopBack` never dereferences nil, and takes out the last value with its element.
  pub pop_back_lem :
      (z : A) (m : Memory A) (l : Ptr) (x : A) (xs : List A)
      → Contains m l (xs ++ (x ∷ []))
      → Popped m l x xs (pop_back z m l)
  pop_back_lem z m l x xs c = elim (snoc_cases c.at) [
    | inl e ↦ absurd (snoc_ne xs x (sym c.are ∙ ap (values m) e))
    | inr (qs, p, e) ↦
        pop_back_from z m l c.root c.meta qs p x xs (subst (IsList m l c.root c.meta) e c.is_list)
          (ap (values m) (sym e) ∙ c.are)
  ]
