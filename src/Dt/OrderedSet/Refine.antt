-- ===== src/Dt/OrderedSet/Refine.antt =====
-- An ordered set of dt/ordered_set.go is a list without duplicates, in the order of insertion.
use fun.Prelude.{
  ℕ, ◌<◌, ◌≡◌, refl, ap, sym, ◌∙◌, true, false, List, [], ◌∷◌, ◌++◌, Option, none, some,
  if◌then◌else◌, arith, length, inl, inr, Bool-cases,
}
use fun.Links.{Ptr, without}
use fun.Irt.Lists.{Comparable}
use fun.Dt.List.{Memory}
use fun.Dt.List.IsList.{values, IsList}
use fun.Dt.List.Middle.{push_end}
use fun.Dt.List.Remove.{remove_lem, removed}
use fun.Dt.List.Iterate.{iterator_front_lem, length-values}
use fun.Dt.OrderedSet.{OrderedSet, init, len, check, add_ready, add, delete, iterator, load_hash}
use fun.Dt.OrderedSet.Entries.{
  find, member, erased, Once, entries, load-entries, length-entries, set-entries, find-member,
  find-has, Once-snoc, delete-entries, delete_none, values-without, erased_none, Once-erased,
}

module _ {A : Type 0} (c : Comparable A) where
  -- The list holds these values once each, and the map leads from each to its element.
  pub record Holds (m : Memory A) (s : OrderedSet A) (xs : List A) : Type 0 where
    pub ready : s.ready ≡ true
    pub root : Ptr
    pub meta : Ptr
    pub at : List Ptr
    pub is_list : IsList m s.list root meta at
    pub are : values m at ≡ xs
    pub hash_is : s.hash ≡ entries c at xs
    pub once : Once c xs

module _ {A : Type 0} (c : Comparable A) (z : A) (m : Memory A) (s : OrderedSet A) (xs : List A)
    (h : Holds c m s xs) where
  same_length : length h.at ≡ length xs
  same_length = sym (length-values z m h.at) ∙ ap length h.are

  loaded : (v : A) → load_hash c s.hash v ≡ find c h.at xs v
  loaded v = ap (λ t. load_hash c t v) h.hash_is ∙ load-entries c h.at xs v

  is_member : (v : A) → member c v xs ≡ elim (find c h.at xs v) [ none ↦ false | some p ↦ true ]
  is_member v = find-member c h.at xs v same_length

  -- Add of a value that is there changes nothing, and a new one goes to the end.
  add_there : (v : A) → member c v xs ≡ true → add c z m s v ≡ some (true, s, m)
  unfolding add add_ready init
  add_there v y = ground (arith, h.ready, loaded v, is_member v)

  add_new :
      (v : A)
      → member c v xs ≡ false
      → (s' : OrderedSet A) × (m' : Memory A) × (add c z m s v ≡ some (false, s', m'))
        × Holds c m' s' (xs ++ (v ∷ []))
  unfolding add add_ready init
  add_new v n =
      let absent : find c h.at xs v ≡ none = ground (arith, is_member v) in
      let (e, m', b, a, l, w) = push_end z m s.list h.root h.meta h.at h.is_list v in
      let put = set-entries c h.at xs m.fresh v same_length absent in
      let s' : OrderedSet A = record s {
        hash = entries c (h.at ++ (m.fresh ∷ [])) (xs ++ (v ∷ []));
      } in
      (
        s',
        m',
        ground (arith, h.ready, loaded v, absent, b, a, h.hash_is, put),
        record {
          ready = h.ready;
          root = h.root;
          meta = h.meta;
          at = h.at ++ (m.fresh ∷ []);
          is_list = l;
          are = w ∙ ap (λ ys. ys ++ (v ∷ [])) h.are;
          hash_is = refl;
          once = Once-snoc c xs v h.once n;
        },
      )

  -- Delete of a value that is there takes out its element, and of another nothing.
  delete_there :
      (v : A)
      → member c v xs ≡ true
      → (s' : OrderedSet A) × (m' : Memory A) × (delete c m s v ≡ some (true, s', m'))
        × Holds c m' s' (erased c xs v)
  unfolding delete init
  delete_there v y = go (find c h.at xs v) refl
    where
      go :
          (o : Option Ptr)
          → find c h.at xs v ≡ o
          → (s' : OrderedSet A) × (m' : Memory A) × (delete c m s v ≡ some (true, s', m'))
            × Holds c m' s' (erased c xs v)
      go none e = absurd (ground (arith, is_member v))
      go (some p) e =
          let here = find-has c h.at xs v p e in
          let (q, l, w, u) = remove_lem m s.list h.root h.meta p h.at h.is_list here in
          let known = h.is_list.member p here in
          let gone = delete-entries c h.at xs v p h.is_list.distinct e in
          let s' : OrderedSet A = record s { hash = entries c (without h.at p) (erased c xs v) } in
          let e' = ap (λ ys. find c h.at ys v) h.are ∙ e in
          (
            s',
            removed m h.meta p,
            ground (arith, h.ready, loaded v, e, q, known.not_nil, h.hash_is, gone),
            record {
              ready = h.ready;
              root = h.root;
              meta = h.meta;
              at = without h.at p;
              is_list = l;
              are =
                  w
                  ∙ values-without c m h.at v p h.is_list.distinct e'
                  ∙ ap (λ ys. erased c ys v) h.are;
              hash_is = refl;
              once = (Once-erased c xs v h.once).0;
            },
          )

  delete_absent : (v : A) → member c v xs ≡ false → delete c m s v ≡ some (false, s, m)
  unfolding delete init
  delete_absent v n =
      let absent : find c h.at xs v ≡ none = ground (arith, is_member v) in
      ground (arith, h.ready, loaded v, absent, h.hash_is, delete_none c h.at xs v absent)

-- What a list without duplicates answers to Add and to Delete, and its values after that.
module _ {A : Type 0} (c : Comparable A) where
  abbrev pub added : List A → A → List A
  added xs v = if member c v xs then xs else xs ++ (v ∷ [])

module _ {A : Type 0} (c : Comparable A) (z : A) where
  -- Add and Delete say whether the value was there, and never dereference nil. Add puts a new value behind
  -- the others, and Delete takes it out of its place; both keep the values without duplicates. Check and
  -- Len answer by the values, and the iterator yields them in the order of insertion, when it is given one
  -- step more than there are.
  pub ordered_set_lem :
      (m : Memory A) (s : OrderedSet A) (xs : List A) (v : A) (fuel : ℕ)
      → Holds c m s xs
      → length xs < fuel
      → ((s' : OrderedSet A) × (m' : Memory A) × (add c z m s v ≡ some (member c v xs, s', m'))
          × Holds c m' s' (added c xs v))
        × ((s' : OrderedSet A) × (m' : Memory A) × (delete c m s v ≡ some (member c v xs, s', m'))
            × Holds c m' s' (erased c xs v)
            × (member c v (erased c xs v) ≡ false))
        × (check c m s v ≡ (member c v xs, s, m))
        × (len m s ≡ (length xs, s, m))
        × (iterator c z fuel m s ≡ some xs)
  unfolding check len init iterator
  ordered_set_lem m s xs v fuel h f = (
    elim (Bool-cases (member c v xs)) [
      | inl y ↦ rw y (s, m, add_there c z m s xs h v y, h)
      | inr n ↦ rw n (add_new c z m s xs h v n)
    ],
    elim (Bool-cases (member c v xs)) [
      | inl y ↦
          let (s', m', e, h') = delete_there c z m s xs h v y in
          (s', m', rw y e, h', (Once-erased c xs v h.once).1)
      | inr n ↦ (
        s,
        m,
        rw n (delete_absent c z m s xs h v n),
        rw (erased_none c xs v n) h,
        (Once-erased c xs v h.once).1,
      )
    ],
    ground (arith, h.ready, loaded c z m s xs h v, is_member c z m s xs h v),
    ground (arith, h.ready, h.hash_is, length-entries c h.at xs (same_length c z m s xs h)),
    ground (
      arith,
      h.ready,
      iterator_front_lem z m s.list xs fuel
          (record { root = h.root; meta = h.meta; at = h.at; is_list = h.is_list; are = h.are }) f,
    ),
  )
