-- ===== src/Dt/OrderedMap/Refine.antt =====
-- An ordered map of dt/ordered_map.go is a list of pairs without two of one key, in the order of insertion.
use fun.Prelude.{
  ℕ, ◌<◌, ◌≡◌, refl, ap, sym, ◌∙◌, Bool, true, false, List, [], ◌∷◌, ◌++◌, Option, none, some,
  if◌then◌else◌, arith, length, map, inl, inr, Bool-cases, Option-cases,
}
use mathlib.Core.Path.{subst}
use fun.Links.{Ptr, without}
use fun.Irt.Lists.{Comparable}
use fun.Dt.List.{Memory}
use fun.Dt.List.IsList.{IsList}
use fun.Dt.List.IsList
use fun.Dt.List.Middle.{push_end}
use fun.Dt.List.Remove.{remove_lem, removed}
use fun.Dt.List.Iterate.{iterator_front_lem, length-values}
use fun.Dt.OrderedSet.{load_hash}
use fun.Dt.OrderedSet.Entries.{
  find, member, erased, Once, entries, load-entries, length-entries, set-entries, find-member,
  find-has, Once-snoc, delete-entries, Once-erased,
}
use fun.Dt.OrderedMap.{
  OrderedMap, init, len, check, load_key, get, delete, inner_set, set, ensure, iterator, keys,
  values,
}
use fun.Dt.OrderedMap.Update.{updated, set_item-eq, updated-IsList}
use fun.Dt.OrderedMap.Entries.{
  keys_of, keys_of-append, lookup, replaced, erased_key, find-lookup, keys-erased, keys-replaced,
  values-erased, values-replaced, kept_all, lookup-stored, erased_key-absent, stored,
}

module _ {K V : Type 0} (c : Comparable K) where
  -- The list holds these pairs, each key once, and the hash leads from each key to its element.
  pub record Holds (m : Memory (K × V)) (s : OrderedMap K V) (kvs : List (K × V)) : Type 0 where
    pub ready : s.ready ≡ true
    pub root : Ptr
    pub meta : Ptr
    pub at : List Ptr
    pub is_list : IsList m s.list root meta at
    pub are : IsList.values m at ≡ kvs
    pub hash_is : s.hash ≡ entries c at (keys_of kvs)
    pub once : Once c (keys_of kvs)

length-keys {ℓ κ} :
    {A : Type ℓ} {B : Type κ} (kvs : List (A × B)) → length (keys_of kvs) ≡ length kvs
length-keys [] = refl
length-keys (x ∷ kvs) = ground (arith, length-keys kvs)

module _ {K V : Type 0} (c : Comparable K) (zk : K) (zv : V) (m : Memory (K × V))
    (s : OrderedMap K V) (kvs : List (K × V)) (h : Holds c m s kvs) where
  same_length : length h.at ≡ length (keys_of kvs)
  same_length = sym (length-values (zk, zv) m h.at) ∙ ap length h.are ∙ sym (length-keys kvs)

  loaded : (k : K) → load_hash c s.hash k ≡ find c h.at (keys_of kvs) k
  loaded k = ap (λ t. load_hash c t k) h.hash_is ∙ load-entries c h.at (keys_of kvs) k

  is_member :
      (k : K)
      → member c k (keys_of kvs)
        ≡ elim (find c h.at (keys_of kvs) k) [ none ↦ false | some p ↦ true ]
  is_member k = find-member c h.at (keys_of kvs) k same_length

  found_at :
      (k : K) (o : Option Ptr)
      → find c h.at (keys_of kvs) k ≡ o
      → find c h.at (keys_of (IsList.values m h.at)) k ≡ o
  found_at k o e = ap (λ r. find c h.at (keys_of r) k) h.are ∙ e

  absent_at : (k : K) → member c k (keys_of kvs) ≡ false → find c h.at (keys_of kvs) k ≡ none
  absent_at k n = elim (Option-cases (find c h.at (keys_of kvs) k)) [
    | inl e ↦ e
    | inr (p, e) ↦ absurd (ground (arith, n, is_member k, e))
  ]

  present_at :
      (k : K) → member c k (keys_of kvs) ≡ true → (p : Ptr) × (find c h.at (keys_of kvs) k ≡ some p)
  present_at k y = elim (Option-cases (find c h.at (keys_of kvs) k)) [
    | inr q ↦ q
    | inl e ↦ absurd (ground (arith, y, is_member k, e))
  ]

  -- What a call that answers and changes the pairs gives.
  abbrev Gives : Option (Bool × OrderedMap K V × Memory (K × V)) → Bool → List (K × V) → Type 0
  Gives answer b kvs' =
      (s' : OrderedMap K V) × (m' : Memory (K × V)) × (answer ≡ some (b, s', m'))
      × Holds c m' s' kvs'

  set_there :
      (k : K) (v : V) (p : Ptr)
      → find c h.at (keys_of kvs) k ≡ some p
      → Gives (inner_set c zk zv m s k v) true (replaced c kvs k v)
  unfolding inner_set
  set_there k v p e =
      let here = find-has c h.at (keys_of kvs) k p e in
      let m' = updated m s.list h.root h.meta p h.at h.is_list here (k, v) in
      let w = set_item-eq m s.list h.root h.meta p h.at h.is_list here (k, v) in
      let same = keys-replaced c kvs k v in
      (
        s,
        m',
        ground (arith, loaded k, e, w),
        record {
          ready = h.ready;
          root = h.root;
          meta = h.meta;
          at = h.at;
          is_list = updated-IsList m s.list h.root h.meta p h.at h.is_list here (k, v);
          are =
              values-replaced c m h.at k v p h.is_list.distinct (found_at k (some p) e)
              ∙ ap (λ r. replaced c r k v) h.are;
          hash_is = h.hash_is ∙ ap (entries c h.at) (sym same);
          once = subst (Once c) (sym same) h.once;
        },
      )

  set_new :
      (k : K) (v : V)
      → member c k (keys_of kvs) ≡ false
      → Gives (inner_set c zk zv m s k v) false (kvs ++ ((k, v) ∷ []))
  unfolding inner_set
  set_new k v n =
      let absent = absent_at k n in
      let (e, m', b, a, l, w) = push_end (zk, zv) m s.list h.root h.meta h.at h.is_list (k, v) in
      let put = set-entries c h.at (keys_of kvs) m.fresh k same_length absent in
      let longer = keys_of-append kvs ((k, v) ∷ []) in
      let s' : OrderedMap K V = record s {
        hash = entries c (h.at ++ (m.fresh ∷ [])) (keys_of kvs ++ (k ∷ []));
      } in
      (
        s',
        m',
        ground (arith, loaded k, absent, b, a, h.hash_is, put),
        record {
          ready = h.ready;
          root = h.root;
          meta = h.meta;
          at = h.at ++ (m.fresh ∷ []);
          is_list = l;
          are = w ∙ ap (λ ys. ys ++ ((k, v) ∷ [])) h.are;
          hash_is = ap (entries c (h.at ++ (m.fresh ∷ []))) (sym longer);
          once = subst (Once c) (sym longer) (Once-snoc c (keys_of kvs) k h.once n);
        },
      )

  set_lem :
      (k : K) (v : V)
      → Gives (inner_set c zk zv m s k v) (member c k (keys_of kvs)) (stored c kvs k v)
  set_lem k v = elim (Bool-cases (member c k (keys_of kvs))) [
    | inl y ↦ let (p, e) = present_at k y in rw y (set_there k v p e)
    | inr n ↦ rw n (set_new k v n)
  ]

  delete_there :
      (k : K) (p : Ptr)
      → find c h.at (keys_of kvs) k ≡ some p
      → (s' : OrderedMap K V) × (m' : Memory (K × V)) × (delete c zk zv m s k ≡ some (s', m'))
        × Holds c m' s' (erased_key c kvs k)
  unfolding delete init
  delete_there k p e =
      let here = find-has c h.at (keys_of kvs) k p e in
      let (q, l, w, u) = remove_lem m s.list h.root h.meta p h.at h.is_list here in
      let known = h.is_list.member p here in
      let gone = delete-entries c h.at (keys_of kvs) k p h.is_list.distinct e in
      let shorter = keys-erased c kvs k in
      let s' : OrderedMap K V = record s {
        hash = entries c (without h.at p) (erased c (keys_of kvs) k);
      } in
      (
        s',
        removed m h.meta p,
        ground (arith, h.ready, loaded k, e, q, known.not_nil, h.hash_is, gone),
        record {
          ready = h.ready;
          root = h.root;
          meta = h.meta;
          at = without h.at p;
          is_list = l;
          are =
              w
              ∙ values-erased c m h.at k p h.is_list.distinct (found_at k (some p) e)
              ∙ ap (λ r. erased_key c r k) h.are;
          hash_is = ap (entries c (without h.at p)) (sym shorter);
          once = subst (Once c) (sym shorter) (Once-erased c (keys_of kvs) k h.once).0;
        },
      )

  delete_absent : (k : K) → member c k (keys_of kvs) ≡ false → delete c zk zv m s k ≡ some (s, m)
  unfolding delete init
  delete_absent k n = ground (arith, h.ready, loaded k, absent_at k n)

  load_lem :
      (k : K)
      → load_key c zk zv m s k
        ≡ (elim (lookup c kvs k) [ none ↦ (zv, false) | some v ↦ (v, true) ], s, m)
  unfolding load_key init
  load_lem k =
      let found = find-lookup c m h.at k in
      let here = find-has c h.at (keys_of kvs) k in
      elim (Option-cases (find c h.at (keys_of kvs) k)) [
        | inl e ↦
            let none_there : lookup c kvs k ≡ none =
              ap (λ r. lookup c r k) (sym h.are) ∙ ground (arith, found, found_at k none e) in
            ground (arith, h.ready, loaded k, e, none_there)
        | inr (p, e) ↦
            let its : lookup c kvs k ≡ some (m.elements p).item.1 =
              ap (λ r. lookup c r k) (sym h.are) ∙ ground (arith, found, found_at k (some p) e) in
            let known = h.is_list.member p (here p e) in
            ground (arith, h.ready, loaded k, e, its, known.not_nil)
      ]

  iterator_lem : (fuel : ℕ) → length kvs < fuel → iterator c zk zv fuel m s ≡ some kvs
  unfolding iterator init
  iterator_lem fuel f =
      let all =
        iterator_front_lem (zk, zv) m s.list kvs fuel
          (record { root = h.root; meta = h.meta; at = h.at; is_list = h.is_list; are = h.are })
          f in
      let test : K → Bool = λ k. elim (load_hash c s.hash k) [ none ↦ false | some e ↦ true ] in
      let every = kept_all c test kvs (λ k y. ground (arith, loaded k, is_member k, y)) in
      ground (arith, h.ready, all, every)

module _ {K V : Type 0} (c : Comparable K) (zk : K) (zv : V) where
  -- Set says whether the key was there and never dereferences nil: a key that was there keeps its place and
  -- gets the value, and a new one goes behind the others with it. Both keep one pair for each key.
  pub ordered_map_set_lem :
      (m : Memory (K × V)) (s : OrderedMap K V) (kvs : List (K × V)) (k : K) (v : V)
      → Holds c m s kvs
      → (s' : OrderedMap K V) × (m' : Memory (K × V)) × (set c zk zv m s k v
          ≡ some (member c k (keys_of kvs), s', m'))
        × Holds c m' s' (stored c kvs k v)
        × (get c zk zv m' s' k ≡ (v, s', m'))
  unfolding set init get
  ordered_map_set_lem m s kvs k v h =
      let (s', m', e, h') = set_lem c zk zv m s kvs h k v in
      (
        s',
        m',
        ground (arith, h.ready, e),
        h',
        ground (arith, load_lem c zk zv m' s' (stored c kvs k v) h' k, lookup-stored c kvs k v),
      )

  -- Delete never dereferences nil and takes the key out with its value, if it is there. Ensure says whether
  -- the key was there, and sets only one that was not, to the zero value.
  pub ordered_map_delete_lem :
      (m : Memory (K × V)) (s : OrderedMap K V) (kvs : List (K × V)) (k : K)
      → Holds c m s kvs
      → ((s' : OrderedMap K V) × (m' : Memory (K × V)) × (delete c zk zv m s k ≡ some (s', m'))
          × Holds c m' s' (erased_key c kvs k)
          × (member c k (keys_of (erased_key c kvs k)) ≡ false))
        × ((s' : OrderedMap K V) × (m' : Memory (K × V)) × (ensure c zk zv m s k
              ≡ some (member c k (keys_of kvs), s', m'))
            × Holds c m' s' (if member c k (keys_of kvs) then kvs else kvs ++ ((k, zv) ∷ [])))
  unfolding ensure init
  ordered_map_delete_lem m s kvs k h = (
    elim (Bool-cases (member c k (keys_of kvs))) [
      | inl y ↦
          let (p, e) = present_at c zk zv m s kvs h k y in
          let (s', m', q, h') = delete_there c zk zv m s kvs h k p e in (s', m', q, h', gone)
      | inr n ↦ (
        s,
        m,
        delete_absent c zk zv m s kvs h k n,
        subst (Holds c m s) (sym (erased_key-absent c kvs k n)) h,
        gone,
      )
    ],
    elim (Bool-cases (member c k (keys_of kvs))) [
      | inl y ↦
          let (p, e) = present_at c zk zv m s kvs h k y in
          rw y (s, m, ground (arith, h.ready, loaded c zk zv m s kvs h k, e), h)
      | inr n ↦
          let (s', m', e, h') = set_new c zk zv m s kvs h k zv n in
          rw n (
            s',
            m',
            ground (arith, h.ready, loaded c zk zv m s kvs h k, absent_at c zk zv m s kvs h k n, e),
            h',
          )
    ],
  )
    where
      gone : member c k (keys_of (erased_key c kvs k)) ≡ false
      gone = ap (member c k) (keys-erased c kvs k) ∙ (Once-erased c (keys_of kvs) k h.once).1

  -- Load gives the value of the key or else the zero value and false, Check and Len answer by the pairs, and
  -- the iterators over pairs, keys and values yield them in the order of insertion, when they are given one
  -- step more than there are.
  pub ordered_map_read_lem :
      (m : Memory (K × V)) (s : OrderedMap K V) (kvs : List (K × V)) (k : K) (fuel : ℕ)
      → Holds c m s kvs
      → length kvs < fuel
      → (load_key c zk zv m s k
          ≡ (elim (lookup c kvs k) [ none ↦ (zv, false) | some v ↦ (v, true) ], s, m))
        × (check c zk zv m s k ≡ (member c k (keys_of kvs), s, m))
        × (len m s ≡ (length kvs, s, m))
        × (iterator c zk zv fuel m s ≡ some kvs)
        × (keys c zk zv fuel m s ≡ some (map (λ kv. kv.0) kvs))
        × (values c zk zv fuel m s ≡ some (map (λ kv. kv.1) kvs))
  unfolding check len init keys values
  ordered_map_read_lem m s kvs k fuel h f =
      let every = iterator_lem c zk zv m s kvs h fuel f in
      let all =
        iterator_front_lem (zk, zv) m s.list kvs fuel
          (record { root = h.root; meta = h.meta; at = h.at; is_list = h.is_list; are = h.are })
          f in
      (
        load_lem c zk zv m s kvs h k,
        ground (arith, h.ready, loaded c zk zv m s kvs h k, is_member c zk zv m s kvs h k),
        ground (
          arith,
          h.ready,
          h.hash_is,
          length-entries c h.at (keys_of kvs) (same_length c zk zv m s kvs h),
          length-keys kvs,
        ),
        every,
        ground (arith, h.ready, all),
        rw every refl,
      )
