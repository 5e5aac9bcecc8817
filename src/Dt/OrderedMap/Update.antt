-- ===== src/Dt/OrderedMap/Update.antt =====
-- `Set` of dt/list.go on an element of a list: the value changes, and the list does not.
use fun.Prelude.{◌≡◌, true, List, arith}
use fun.Links.{Ptr, has, Chain-frame}
use fun.Dt.List.{Memory, put, set_item}
use fun.Dt.List.IsList.{next_of, prev_of, IsList}

module _ {A : Type 0} (m : Memory A) (l r k p : Ptr) (ps : List Ptr) (h : IsList m l r k ps)
    (here : has p ps ≡ true) (a : A) where
  -- The memory in which the element has that value.
  abbrev pub updated : Memory A
  updated = put m p (record (m.elements p) { ok = true; item = a })

  pub set_item-eq : set_item m p a ≡ (true, updated)
  unfolding set_item
  set_item-eq =
      let known = h.member p here in
      ground (arith, known.not_nil, known.listed, h.head_is, h.root_apart, here)

  pub updated-IsList : IsList updated l r k ps
  updated-IsList = record {
    list_not_nil = h.list_not_nil;
    root_not_nil = h.root_not_nil;
    meta_not_nil = h.meta_not_nil;
    head_is = h.head_is;
    meta_is = h.meta_is;
    counted = h.counted;
    chain =
        Chain-frame (next_of m) (prev_of m) (next_of updated) (prev_of updated) r ps r h.chain
          (λ x i. ground arith) (λ x i. ground arith);
    distinct = h.distinct;
    root_apart = h.root_apart;
    root_listed = ground (arith, h.root_listed);
    root_bad = ground (arith, h.root_bad, h.root_apart, here);
    root_old = h.root_old;
    member = λ q i.
        let known = h.member q i in
        record {
          not_nil = known.not_nil;
          listed = ground (arith, known.listed);
          good = ground (arith, known.good);
          old = known.old;
        };
  }
