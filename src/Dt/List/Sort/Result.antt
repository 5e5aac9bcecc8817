-- ===== src/Dt/List/Sort/Result.antt =====
-- `SortMerge` of dt/list.go as its caller sees it: the list's header is a copy of the sorted list's.
use fun.Prelude.{
  ℕ, suc, ◌+◌, ◌<◌, ◌≤◌, ◌≡◌, ◌≢◌, refl, sym, ◌∙◌, inl, inr, Bool, true, false, some, List, [], ◌∷◌,
  length, arith,
}
use fun.Links.{Ptr, has, update}
use fun.Dt.Heap.Order.{Ordering, Sorted, passing}
use fun.Dt.List.{Memory, nil, len, is_ok, root_of, front, iterator_front}
use fun.Dt.List.Iterate.{iterator_front_lem, is_ok-member}
use fun.Dt.List.Own.{Own, Own-frame}
use fun.Dt.List.Sort.{is_in, merge_sort, sort_merge}
use fun.Dt.List.Sort.Merge.{front-first}
use fun.Dt.List.Sort.Shift.{Own-len}
use fun.Dt.List.Sort.Whole.{Arranged, counted, merge_sort_lem}

module _ {A : Type 0} (z : A) where
  -- Two lists with one header answer alike.
  module _ (m : Memory A) (l o : Ptr) (same : m.lists l ≡ m.lists o) (ln : l ≢ nil) (on : o ≢ nil)
      (set : (m.lists o).head ≢ nil) where
    len-same : len m l ≡ len m o
    len-same = ground arith

    front-same : front z m l ≡ front z m o
    unfolding front root_of
    front-same = ground arith

    iterator_front-same : (fuel : ℕ) → iterator_front z fuel m l ≡ iterator_front z fuel m o
    unfolding iterator_front
    iterator_front-same fuel = rw front-same refl

  first_elsewhere :
      (m : Memory A) (l o r : Ptr) (ps : List Ptr) (xs : List A)
      → Own m o r ps xs
      → 0 < length xs
      → l ≢ o
      → (e : Ptr) × (front z m o ≡ some (e, m)) × (is_ok m e ≡ true) × (is_in m e l ≡ false)
  first_elsewhere m l o r ps [] w h n = absurd (omega arith)
  first_elsewhere m l o r [] (x ∷ xs) w h n = absurd (cc w.are)
  first_elsewhere m l o r (p ∷ ps) (x ∷ xs) w h n =
      let here : has p (p ∷ ps) ≡ true = ground arith in
      let owner = (w.is_list.member p here).listed in
      (
        p,
        (front-first z m o r p ps x xs w).0,
        is_ok-member m o r (r + 1) (p ∷ ps) w.is_list p here,
        ground (arith, owner),
      )

  module _ (less : A → A → Bool) (m : Memory A) (l r : Ptr) (ps : List Ptr) (xs : List A)
      (own : Own m l r ps xs) where
    arranged : Arranged z less m l xs (merge_sort z less (suc (len m l)) m l)
    arranged =
        merge_sort_lem z less (suc (len m l)) m l r ps xs own
          (omega (arith, Own-len m l r ps xs own))

    -- The memory after `SortMerge`.
    sorted_memory : Memory A
    sorted_memory =
        let a = arranged in record a.after { lists = update a.after.lists l (a.after.lists a.list) }

    sort_merge_eq : sort_merge z less m l ≡ some sorted_memory
    unfolding sort_merge sorted_memory
    sort_merge_eq = let a = arranged in rw a.answered (ground (arith, a.holds.is_list.list_not_nil))

    headers_same : sorted_memory.lists l ≡ sorted_memory.lists arranged.list
    unfolding sorted_memory
    headers_same = ground arith

    sorted_Own : Own sorted_memory arranged.list arranged.root arranged.at arranged.are
    unfolding sorted_memory
    sorted_Own =
        let a = arranged in
        Own-frame a.after sorted_memory a.list a.root a.at a.are a.holds (λ e i. refl)
          (ground arith) refl (omega arith)

    head_set : (sorted_memory.lists arranged.list).head ≢ nil
    head_set = let h = sorted_Own.is_list in λ e. h.root_not_nil (sym h.head_is ∙ e)

    -- `SortMerge` of a list that holds some values dereferences no nil and ends within its fuel, which is
    -- one round more than there are values. The iterator then yields the same values sorted, and as many
    -- as `Len` says.
    pub sort_merge_lem :
        (m' : Memory A) × (ys : List A) × (sort_merge z less m l ≡ some m')
        × ((fuel : ℕ) → length ys < fuel → iterator_front z fuel m' l ≡ some ys)
        × (len m' l ≡ length ys)
        × (Ordering less → Sorted less ys)
        × ((p : A → Bool) → passing p ys ≡ passing p xs)
    sort_merge_lem =
        let a = arranged in
        let o = sorted_Own in
        let ln = own.is_list.list_not_nil in
        let on = o.is_list.list_not_nil in
        (
          sorted_memory,
          a.are,
          sort_merge_eq,
          λ fuel f.
              iterator_front-same sorted_memory l a.list headers_same ln on head_set fuel
              ∙ iterator_front_lem z sorted_memory a.list a.are fuel
                  (record {
                    root = a.root;
                    meta = a.root + 1;
                    at = a.at;
                    is_list = o.is_list;
                    are = o.are;
                  })
                  f,
          len-same sorted_memory l a.list headers_same ln on head_set
              ∙ Own-len sorted_memory a.list a.root a.at a.are o,
          a.sorted,
          a.same,
        )

    -- After `SortMerge` of two values or more, `Front` of the list gives a valid element that `In` says is
    -- not in the list: the elements belong to another header object.
    pub sort_merge-is_in :
        2 ≤ length xs
        → (m' : Memory A) × (e : Ptr) × (sort_merge z less m l ≡ some m')
          × (front z m' l ≡ some (e, m'))
          × (is_ok m' e ≡ true)
          × (is_in m' e l ≡ false)
    sort_merge-is_in h =
        let a = arranged in
        let o = sorted_Own in
        let apart : l ≢ a.list = elim a.place [
          | inl k ↦ absurd (omega (arith, k.1))
          | inr k ↦ omega (arith, k, own.list_old)
        ] in
        let some_values : 0 < length a.are = counted z less a.are xs a.same (omega arith) in
        let (e, f, good, out) =
          first_elsewhere sorted_memory l a.list a.root a.at a.are o some_values apart in
        (
          sorted_memory,
          e,
          sort_merge_eq,
          front-same sorted_memory l a.list headers_same own.is_list.list_not_nil
                o.is_list.list_not_nil head_set
              ∙ f,
          good,
          out,
        )
