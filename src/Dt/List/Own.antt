-- ===== src/Dt/List/Own.antt =====
-- Lists of dt/list.go that live beside others in one memory: what an operation on one of them leaves of
-- the others.
use fun.Prelude.{
  ◌+◌, ◌<◌, ◌≤◌, ◌≡◌, ◌≢◌, refl, sym, ap, ◌∙◌, inl, inr, true, false, some, List, [], ◌∷◌, ◌++◌,
  arith, Bool-cases,
}
use mathlib.Core.Path.{subst}
use fun.Links.{
  Ptr, has, has_ne, has-snoc, next-has, prev-has, last-has, Chain-frame, insert_after,
  insert_after_last, without-first,
}
use fun.Dt.List.{Memory, pop_front, append}
use fun.Dt.List.IsList.{next_of, prev_of, values, IsList}
use fun.Dt.List.Append.{Loose, appended, append_eq, appended-IsList}
use fun.Dt.List.Push.{values-frame, values-append}
use fun.Dt.List.Middle.{last_or, prev_end}
use fun.Dt.List.Remove.{removed, removed-IsList, removed-values, front_eq, pop_eq}

module _ {A : Type 0} where
  -- The list `l` holds the values `xs` in the elements `ps` round the root `r`, and its length lies behind
  -- the root, where `uncheckedSetup` allocates it.
  pub record Own (m : Memory A) (l r : Ptr) (ps : List Ptr) (xs : List A) : Type 0 where
    pub is_list : IsList m l r (r + 1) ps
    pub are : values m ps ≡ xs
    pub list_old : l < m.fresh
    pub meta_old : r + 1 < m.fresh

  pub Own-frame :
      (m m' : Memory A) (l r : Ptr) (ps : List Ptr) (xs : List A)
      → Own m l r ps xs
      → ((p : Ptr) → has p (r ∷ ps) ≡ true → m'.elements p ≡ m.elements p)
      → m'.lists l ≡ m.lists l
      → m'.lengths (r + 1) ≡ m.lengths (r + 1)
      → m.fresh ≤ m'.fresh
      → Own m' l r ps xs
  Own-frame m m' l r ps xs o same lists lengths fresh =
      let h = o.is_list in
      let at_root = same r (ground arith) in
      record {
        is_list = record {
          list_not_nil = h.list_not_nil;
          root_not_nil = h.root_not_nil;
          meta_not_nil = h.meta_not_nil;
          head_is = ground (arith, h.head_is);
          meta_is = ground (arith, h.meta_is);
          counted = ground (arith, h.counted);
          chain =
              Chain-frame (next_of m) (prev_of m) (next_of m') (prev_of m') r ps r h.chain
                (λ x i. ground (arith, same x i)) (λ x i. ground (arith, same x, has-snoc x r ps));
          distinct = h.distinct;
          root_apart = h.root_apart;
          root_listed = ground (arith, at_root, h.root_listed);
          root_bad = ground (arith, at_root, h.root_bad);
          root_old = omega (arith, h.root_old);
          member = λ p i.
              let known = h.member p i in
              let at = same p (ground (arith, i)) in
              record {
                not_nil = known.not_nil;
                listed = ground (arith, at, known.listed);
                good = ground (arith, at, known.good);
                old = omega (arith, known.old);
              };
        };
        are = values-frame m m' ps (λ p i. ground (arith, same p (ground (arith, i)))) ∙ o.are;
        list_old = omega (arith, o.list_old);
        meta_old = omega (arith, o.meta_old);
      }

  -- A node of another list is none of this one's.
  pub stranger :
      (m : Memory A) (l r : Ptr) (ps : List Ptr) (xs : List A) (e : Ptr)
      → Own m l r ps xs
      → (m.elements e).list ≢ l
      → has e (r ∷ ps) ≡ false
  stranger m l r ps xs e o n = elim (Bool-cases (has e (r ∷ ps))) [
    | inr f ↦ f
    | inl y ↦ absurd (n (ground (arith, o.is_list.member e, o.is_list.root_listed)))
  ]

  pub Own-listed :
      (m : Memory A) (l r : Ptr) (ps : List Ptr) (xs : List A) (e : Ptr)
      → Own m l r ps xs
      → has e (r ∷ ps) ≡ true
      → (m.elements e).list ≡ l
  Own-listed m l r ps xs e o i = ground (arith, o.is_list.member e, o.is_list.root_listed)

  -- The other lists are there as they were, and what is allocated stays so.
  pub record Frame (m m' : Memory A) (l : Ptr) : Type 0 where
    pub others :
        (c r : Ptr) (ps : List Ptr) (xs : List A) → c ≢ l → Own m c r ps xs → Own m' c r ps xs
    pub grows : m.fresh ≤ m'.fresh

  module _ (m : Memory A) (l r p : Ptr) (ps : List Ptr) (x : A) (xs : List A)
      (o : Own m l r (p ∷ ps) (x ∷ xs)) where
    here : has p (p ∷ ps) ≡ true
    here = ground arith

    -- The memory after the first element has been popped.
    unfoldable pub popped : Memory A
    popped = removed m (r + 1) p

    pub popped_eq : (z : A) → pop_front z m l ≡ some (p, popped)
    unfolding pop_front popped
    popped_eq z =
        let h = o.is_list in
        ground (
          arith,
          front_eq z m l r (r + 1) (p ∷ ps) h,
          pop_eq m l r (r + 1) p (p ∷ ps) h here z,
          h.chain.0,
        )

    pub popped-Own : Own popped l r ps xs
    unfolding popped
    popped-Own =
        let h = o.is_list in
        let shorter = removed-IsList m l r (r + 1) p (p ∷ ps) h here in
        let kept = removed-values m l r (r + 1) p (p ∷ ps) h here ps in
        let order = without-first p ps in
        record {
          is_list = subst (IsList popped l r (r + 1)) order shorter;
          are = ground (arith, kept, o.are);
          list_old = o.list_old;
          meta_old = o.meta_old;
        }

    pub popped-Loose : Loose popped p
    unfolding popped
    popped-Loose =
        let known = o.is_list.member p here in
        record {
          not_nil = known.not_nil;
          unlisted = ground arith;
          good = ground (arith, known);
          old = known.old;
        }

    pub popped_item : (popped.elements p).item ≡ x
    unfolding popped
    popped_item = ground (arith, o.are)

    pub popped-Frame : Frame m popped l
    unfolding popped
    popped-Frame =
        let h = o.is_list in
        let n = next-has (next_of m) (prev_of m) r (p ∷ ps) r p h.chain (ground (arith, here)) in
        let q = prev-has (next_of m) (prev_of m) r (p ∷ ps) r p h.chain here in
        record {
          others = λ c rc qs zs ne w.
              let apart : (e : Ptr) → has e (r ∷ p ∷ ps) ≡ true → has e (rc ∷ qs) ≡ false = λ e i.
                stranger m c rc qs zs e w
                  (λ k. ne (sym k ∙ Own-listed m l r (p ∷ ps) (x ∷ xs) e o i)) in
              let a1 = apart p (ground (arith, here)) in
              let a2 = apart (next_of m p) (ground (arith, n)) in
              let a3 = apart (prev_of m p) (ground (arith, q)) in
              let a4 = apart r (ground arith) in
              Own-frame m popped c rc qs zs w
                (λ e i. ground (
                  arith,
                  has_ne e p (rc ∷ qs) i a1,
                  has_ne e (next_of m p) (rc ∷ qs) i a2,
                  has_ne e (prev_of m p) (rc ∷ qs) i a3,
                ))
                refl (ground (arith, a4)) (omega arith);
          grows = omega arith;
        }

  module _ (m : Memory A) (l r v : Ptr) (ps : List Ptr) (xs : List A) (o : Own m l r ps xs)
      (loose : Loose m v) where
    at_end : has (last_or r ps) (r ∷ ps) ≡ true
    at_end =
        let h = o.is_list in
        ground (
          arith,
          last-has (next_of m) (prev_of m) r ps r h.chain,
          prev_end (next_of m) (prev_of m) r ps r h.chain,
        )

    -- The memory after the loose element has been appended behind the last.
    unfoldable pub extended : Memory A
    extended = appended m l (r + 1) (last_or r ps) v

    pub extended_eq : append m (last_or r ps) v ≡ some (v, extended)
    unfolding extended
    extended_eq = append_eq m l r (r + 1) (last_or r ps) v ps o.is_list at_end loose

    pub extended-Own : Own extended l r (ps ++ (v ∷ [])) (xs ++ ((m.elements v).item ∷ []))
    unfolding extended
    extended-Own =
        let h = o.is_list in
        let longer = appended-IsList m l r (r + 1) (last_or r ps) v ps h at_end loose in
        let order =
          ap (λ e. insert_after r ps e v) (sym (prev_end (next_of m) (prev_of m) r ps r h.chain))
          ∙ insert_after_last (next_of m) (prev_of m) r ps r v h.chain h.distinct h.root_apart in
        record {
          is_list = subst (IsList extended l r (r + 1)) order longer;
          are =
              values-append extended ps (v ∷ [])
              ∙ ground (arith, values-frame m extended ps (λ p i. ground arith), o.are);
          list_old = o.list_old;
          meta_old = o.meta_old;
        }

    pub extended-Frame : Frame m extended l
    unfolding extended
    extended-Frame =
        let h = o.is_list in
        let n = next-has (next_of m) (prev_of m) r ps r (last_or r ps) h.chain at_end in
        record {
          others = λ c rc qs zs ne w.
              let apart : (e : Ptr) → has e (r ∷ ps) ≡ true → has e (rc ∷ qs) ≡ false =
                λ e i. stranger m c rc qs zs e w (λ k. ne (sym k ∙ Own-listed m l r ps xs e o i)) in
              let a1 = apart (last_or r ps) at_end in
              let a2 = apart (next_of m (last_or r ps)) (ground (arith, n)) in
              let a3 =
                stranger m c rc qs zs v w (λ k. w.is_list.list_not_nil (sym k ∙ loose.unlisted)) in
              let a4 = apart r (ground arith) in
              Own-frame m extended c rc qs zs w
                (λ e i. ground (
                  arith,
                  has_ne e (last_or r ps) (rc ∷ qs) i a1,
                  has_ne e (next_of m (last_or r ps)) (rc ∷ qs) i a2,
                  has_ne e v (rc ∷ qs) i a3,
                ))
                refl (ground (arith, a4)) (omega arith);
          grows = omega arith;
        }
