-- ===== src/Dt/List/Append.antt =====
-- `Append` of dt/list.go on an element of a list: it puts a loose element behind it.
use fun.Prelude.{
  ◌+◌, ◌<◌, ◌≡◌, ◌≢◌, inl, inr, true, false, ◌||◌, some, List, ◌∷◌, arith, ◌==◌, Bool-cases,
}
use fun.Links.{
  Ptr, update, has, insert_after, Chain-insert, next-has, Inserted, Distinct-insert_after,
  length-insert_after, has-insert_after,
}
use fun.Dt.List.{Element, Memory, nil, append}
use fun.Dt.List.IsList.{next_of, prev_of, Member, IsList}

module _ {A : Type 0} where
  -- A node that can be put into a list.
  pub record Loose (m : Memory A) (v : Ptr) : Type 0 where
    pub not_nil : v ≢ nil
    pub unlisted : (m.elements v).list ≡ nil
    pub good : (m.elements v).ok ≡ true
    pub old : v < m.fresh

  -- The memory after `v` has been put behind `e` in a list with its length at `k`.
  abbrev pub appended : Memory A → Ptr → Ptr → Ptr → Ptr → Memory A
  appended m l k e v =
      let n = next_of m e in
      let new : Element A = record (m.elements v) { list = l; prev = e; next = n } in
      let e1 = update m.elements v new in
      let e2 = update e1 e (record (e1 e) { next = v }) in
      record m {
        lengths = update m.lengths k (m.lengths k + 1);
        elements = update e2 n (record (e2 n) { prev = v });
      }

  module _ (m : Memory A) (l r k e v : Ptr) (ps : List Ptr) (h : IsList m l r k ps)
      (here : has e (r ∷ ps) ≡ true) (loose : Loose m v) where
    -- What the commands test, one equation for each.
    record Facts : Type 0 where
      e_nil : (e == nil) ≡ false
      e_list : (m.elements e).list ≡ l
      l_nil : (l == nil) ≡ false
      head_nil : ((m.lists l).head == nil) ≡ false
      k_nil : (k == nil) ≡ false
      v_nil : (v == nil) ≡ false
      n_nil : (next_of m e == nil) ≡ false
      apart : (v == e) ≡ false

    facts : Facts
    facts =
        let next = next-has (next_of m) (prev_of m) r ps r e h.chain here in
        record {
          e_nil = ground (arith, h.member e);
          e_list = ground (arith, h.member e);
          l_nil = ground arith;
          head_nil = ground (arith, h.head_is);
          k_nil = ground arith;
          v_nil = ground arith;
          n_nil = ground (arith, next, h.member (next_of m e));
          apart = ground (arith, h.member e);
        }

    pub append_eq : append m e v ≡ some (v, appended m l k e v)
    unfolding append
    append_eq = let f = facts in ground (arith, f, h.meta_is)

    v_out : has v (r ∷ ps) ≡ false
    v_out = elim (Bool-cases (has v (r ∷ ps))) [
      | inr n ↦ n
      | inl y ↦ absurd (ground (arith, h.member v, h.root_listed, loose.unlisted, h.list_not_nil))
    ]

    inserted :
        Inserted
          (next_of m)
          (prev_of m)
          e
          v
          (next_of (appended m l k e v))
          (prev_of (appended m l k e v))
    inserted =
        let f = facts in
        let later = next-has (next_of m) (prev_of m) r ps r e h.chain here in
        let far : (v == next_of m e) ≡ false = ground (arith, later, v_out) in
        record {
          at_e = ground (arith, f, far);
          at_v = ground (arith, f, far);
          back_v = ground (arith, f, far);
          back_next = ground (arith, f, far);
          else_next = λ x i j. ground (arith, f, far);
          else_prev = λ x i j. ground (arith, f, far);
        }

    appended-Member : (p : Ptr) → (has p ps || p == v) ≡ true → Member (appended m l k e v) l p
    appended-Member p i =
        let f = facts in
        let later = next-has (next_of m) (prev_of m) r ps r e h.chain here in
        let known = h.member p in
        record {
          not_nil = ground (arith, known, loose.not_nil);
          listed = ground (arith, known, f);
          good = ground (arith, known, f, loose.good);
          old = ground (arith, known, loose.old);
        }

    pub appended-IsList : IsList (appended m l k e v) l r k (insert_after r ps e v)
    appended-IsList =
        let f = facts in
        let new = v_out in
        record {
          list_not_nil = h.list_not_nil;
          root_not_nil = h.root_not_nil;
          meta_not_nil = h.meta_not_nil;
          head_is = h.head_is;
          meta_is = h.meta_is;
          counted = ground (arith, h.counted, length-insert_after r ps e v);
          chain =
              Chain-insert (next_of m) (prev_of m) e v (next_of (appended m l k e v))
                (prev_of (appended m l k e v)) r ps r h.chain h.distinct h.root_apart h.root_apart
                (ground (arith, v_out)) here inserted;
          distinct = Distinct-insert_after r ps e v h.distinct (ground (arith, new));
          root_apart = ground (arith, new, has-insert_after r ps e v r, h.root_apart);
          root_listed = ground (arith, new, f, h.root_listed);
          root_bad = ground (arith, new, f, h.root_bad);
          root_old = h.root_old;
          member = λ p i. appended-Member p (ground (arith, has-insert_after r ps e v p));
        }
