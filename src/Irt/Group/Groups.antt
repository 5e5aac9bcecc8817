-- ===== src/Irt/Group/Groups.antt =====
-- What GroupBy of irt/irt.go gives for a sequence of known values.
use fun.Prelude.{
  ◌≡◌, refl, sym, ap, ◌∙◌, Bool, true, false, ◌||◌, List, [], ◌∷◌, ◌++◌, if◌then◌else◌, arith, inl,
  inr, Bool-cases,
}
use mathlib.Core.List.{append-nil, append_assoc}
use fun.Irt.Lists.{Comparable, some_pass, kept, each}
use fun.Irt.{Seq, slice, Denotes, within, within-Denotes}
use fun.Irt.Results.{apply-Denotes}
use fun.Irt.Transform.{with}
use fun.Irt.Consume.{result, collect}
use fun.Irt.Unique.{DistinctKeys, has_key}
use fun.Irt.Group.{
  Grouping, check, group_of, add_group, delete_group, pop_group, add, with_key, group_by, iter,
  grouped,
}

module _ {K V : Type 0} (c : Comparable K) (key : V → K) where
  kept-snoc :
      (p : V → Bool) (vs : List V) (v : V)
      → kept p (vs ++ (v ∷ [])) ≡ kept p vs ++ (if p v then v ∷ [] else [])
  unfolding kept
  kept-snoc p [] v = ground arith
  kept-snoc p (x ∷ vs) v = ground (arith, kept-snoc p vs v)

  kept-none :
      (k : K) (vs : List V) → has_key c key k vs ≡ false → kept (λ v. c.eq k (key v)) vs ≡ []
  unfolding kept some_pass
  kept-none k [] h = refl
  kept-none k (v ∷ vs) h = ground (arith, kept-none k vs)

  grouped-other :
      (ks : List K) (vs : List V) (v : V)
      → some_pass (c.eq (key v)) ks ≡ false
      → grouped c key ks (vs ++ (v ∷ [])) ≡ grouped c key ks vs
  unfolding grouped some_pass
  grouped-other [] vs v h = refl
  grouped-other (k ∷ ks) vs v h = ground (
    arith,
    grouped-other ks vs v,
    kept-snoc (λ x. c.eq k (key x)) vs v,
    append-nil (kept (λ x. c.eq k (key x)) vs),
    c.eq_iff k (key v),
    c.eq_iff (key v) k,
  )

  check-grouped :
      (k : K) (ks : List K) (vs : List V) → check c (grouped c key ks vs) k ≡ some_pass (c.eq k) ks
  unfolding check grouped some_pass
  check-grouped k [] vs = refl
  check-grouped k (k' ∷ ks) vs = ground (arith, check-grouped k ks vs)

  -- A value whose key there is.
  add-there :
      (ks : List K) (vs : List V) (v : V)
      → DistinctKeys c (λ k. k) ks
      → some_pass (c.eq (key v)) ks ≡ true
      → add_group c (grouped c key ks vs) (key v) v ≡ grouped c key ks (vs ++ (v ∷ []))
  unfolding add_group grouped some_pass
  add-there [] vs v d h = absurd (cc h)
  add-there (k ∷ ks) vs v d h = elim (Bool-cases (c.eq (key v) k)) [
    | inl e ↦
        let same = (c.eq_iff (key v) k).0 e in
        let away : some_pass (c.eq (key v)) ks ≡ false = rw same d.0 in
        ground (
          arith,
          grouped-other ks vs v away,
          kept-snoc (λ x. c.eq k (key x)) vs v,
          (c.eq_iff k (key v)).1 (sym same),
        )
    | inr n ↦ ground (
      arith,
      add-there ks vs v d.1,
      kept-snoc (λ x. c.eq k (key x)) vs v,
      append-nil (kept (λ x. c.eq k (key x)) vs),
      c.eq_iff k (key v),
      c.eq_iff (key v) k,
    )
  ]

  -- A value with a new key.
  add-new :
      (ks : List K) (vs : List V) (v : V)
      → some_pass (c.eq (key v)) ks ≡ false
      → has_key c key (key v) vs ≡ false
      → add_group c (grouped c key ks vs) (key v) v
        ≡ grouped c key (ks ++ (key v ∷ [])) (vs ++ (v ∷ []))
  unfolding add_group grouped some_pass
  add-new [] vs v h n = ground (
    arith,
    kept-snoc (λ x. c.eq (key v) (key x)) vs v,
    kept-none (key v) vs n,
    (c.eq_iff (key v) (key v)).1 refl,
  )
  add-new (k ∷ ks) vs v h n = ground (
    arith,
    add-new ks vs v,
    kept-snoc (λ x. c.eq k (key x)) vs v,
    append-nil (kept (λ x. c.eq k (key x)) vs),
    c.eq_iff k (key v),
    c.eq_iff (key v) k,
  )

  -- The table has the groups of these values, and the order has each of their keys once.
  record Groups (og : Grouping K V) (vs : List V) : Type 0 where
    table_is : og.table ≡ grouped c key og.order vs
    once : DistinctKeys c (λ k. k) og.order
    covers : (k : K) → some_pass (c.eq k) og.order ≡ has_key c key k vs

  pass-snoc :
      {A : Type 0} (p : A → Bool) (xs : List A) (x : A)
      → some_pass p (xs ++ (x ∷ [])) ≡ (some_pass p xs || p x)
  unfolding some_pass
  pass-snoc p [] x = ground arith
  pass-snoc p (y ∷ xs) x = ground (arith, pass-snoc p xs x)

  DistinctKeys-snoc :
      (ks : List K) (k : K)
      → DistinctKeys c (λ j. j) ks
      → some_pass (c.eq k) ks ≡ false
      → DistinctKeys c (λ j. j) (ks ++ (k ∷ []))
  unfolding some_pass
  DistinctKeys-snoc [] k d h = ground arith
  DistinctKeys-snoc (j ∷ ks) k d h =
      ground
        (arith, DistinctKeys-snoc ks k d.1, pass-snoc (c.eq j) ks k, c.eq_iff j k, c.eq_iff k j)

  add-known :
      (og : Grouping K V) (v : V)
      → check c og.table (key v) ≡ true
      → add c og (key v) v ≡ record { table = add_group c og.table (key v) v; order = og.order }
  unfolding add
  add-known og v h = ground arith

  add-unknown :
      (og : Grouping K V) (v : V)
      → check c og.table (key v) ≡ false
      → add c og (key v) v
        ≡ record { table = add_group c og.table (key v) v; order = og.order ++ (key v ∷ []) }
  unfolding add
  add-unknown og v h = ground arith

  add-Groups :
      (og : Grouping K V) (vs : List V) (v : V)
      → Groups og vs
      → Groups (add c og (key v) v) (vs ++ (v ∷ []))
  add-Groups og vs v g =
      let tested = ap (λ t. check c t (key v)) g.table_is ∙ check-grouped (key v) og.order vs in
      elim (Bool-cases (some_pass (c.eq (key v)) og.order)) [
        | inl y ↦ rw (add-known og v (tested ∙ y)) (record {
          table_is =
              ap (λ t. add_group c t (key v) v) g.table_is ∙ add-there og.order vs v g.once y;
          once = g.once;
          covers = λ k. covers-old k y;
        })
        | inr n ↦ rw (add-unknown og v (tested ∙ n)) (record {
          table_is =
              ap (λ t. add_group c t (key v) v) g.table_is
              ∙ add-new og.order vs v n (sym (g.covers (key v)) ∙ n);
          once = DistinctKeys-snoc og.order (key v) g.once n;
          covers = λ k.
              pass-snoc (c.eq k) og.order (key v)
              ∙ ap (λ b. b || c.eq k (key v)) (g.covers k)
              ∙ sym (pass-snoc (λ x. c.eq k (key x)) vs v);
        })
      ]
    where
      covers-old :
          (k : K)
          → some_pass (c.eq (key v)) og.order ≡ true
          → some_pass (c.eq k) og.order ≡ has_key c key k (vs ++ (v ∷ []))
      covers-old k y = elim (Bool-cases (c.eq k (key v))) [
        | inl e ↦
            let at : some_pass (c.eq k) og.order ≡ true = rw ((c.eq_iff k (key v)).0 e) y in
            ground (arith, pass-snoc (λ x. c.eq k (key x)) vs v, at)
        | inr n ↦ ground (arith, pass-snoc (λ x. c.eq k (key x)) vs v, g.covers k)
      ]

  group_each :
      {W : Type 0} (xs vs : List V) (og : Grouping K V) (w : W)
      → Groups og vs
      → (og' : Grouping K V) × (each (with_key c key) xs (w, og) ≡ (w, og')) × Groups og' (vs ++ xs)
  unfolding each with_key
  group_each [] vs og w g = (og, refl, rw (append-nil vs) g)
  group_each (x ∷ xs) vs og w g =
      let (og', e, g') =
        group_each xs (vs ++ (x ∷ [])) (add c og (key x) x) w (add-Groups og vs x g) in
      (og', e, rw (sym (append_assoc vs (x ∷ []) xs)) g')

  -- The loop over the sequence that is returned empties the table group by group.
  iter-slice :
      (ks : List K) (vs : List V) (out : List (K × List V))
      → slice ks
          (List (K × List V))
          (λ k s. let r = pop_group c k s.0 in (true, (r.1, s.1 ++ ((k, r.0) ∷ []))))
          (grouped c key ks vs, out)
        ≡ ([], out ++ grouped c key ks vs)
  unfolding slice grouped pop_group group_of delete_group
  iter-slice [] vs out =
      ap (λ (r : List (K × List V)). let t : List (K × List V) × List (K × List V) = ([], r) in t)
        (sym (append-nil out))
  iter-slice (k ∷ ks) vs out =
      let self = (c.eq_iff k k).1 refl in
      let one : K × List V = (k, kept (λ v. c.eq k (key v)) vs) in
      ground (
        arith,
        self,
        iter-slice ks vs (out ++ (one ∷ [])),
        append_assoc out (one ∷ []) (grouped c key ks vs),
      )

  -- GroupBy gives a sequence of each key of the values once, with the values that have it in their order:
  -- collecting that sequence gives the groups, and leaves none behind.
  pub group_by_lem :
      {W : Type 0} (seq : Seq W V) (xs : List V) (w : W)
      → Denotes seq xs
      → (og : Grouping K V) × (group_by c seq key w ≡ (og, w))
        × DistinctKeys c (λ k. k) og.order
        × ((k : K) → some_pass (c.eq k) og.order ≡ has_key c key k xs)
        × (collect (iter c og) og.table ≡ (grouped c key og.order xs, []))
  unfolding group_by collect iter with grouped some_pass
  group_by_lem {W} seq xs w d =
      let start : Grouping K V = record { table = []; order = [] } in
      let (og, e, g) = group_each xs [] start w begin in
      (
        og,
        ap (λ r. result r.1)
              (apply-Denotes (within seq) xs (w, start) (with_key c key) (within-Denotes seq xs d))
            ∙ ap result e,
        g.once,
        g.covers,
        rw g.table_is (ap result (iter-slice og.order xs [])),
      )
    where
      begin : Groups (record { table = []; order = [] }) []
      begin = record { table_is = refl; once = tt; covers = λ k. refl }
