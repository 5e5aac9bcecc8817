-- ===== src/Dt/List/Sort.antt =====
-- The merge sort of dt/list.go over the memory of lists. `less a b` is `cf(a, b) < 0`. A loop runs on fuel;
-- running out of it is `none`, as a nil dereference is.
pub mod Merged
pub mod Shift
pub mod Extend
pub mod Loops
pub mod Merge
pub mod Parts
pub mod Whole
pub mod Result
use fun.Prelude.{
  ℕ, zero, suc, ◌+◌, ◌/◌, Bool, true, false, not, ◌&&◌, Option, none, some, ltb, ◌==◌,
  if◌then◌else◌,
}
use fun.Links.{Ptr, update}
use fun.Dt.List.{
  Memory, Header, ◌>>=◌, nil, load_list, non_nil, len, is_ok, front, back, pop_front, push_back,
  append,
}

module _ {A : Type 0} where
  -- `e.In(l)`, of an element that is not nil
  abbrev pub is_in : Memory A → Ptr → Ptr → Bool
  is_in m e l = let o = (m.elements e).list in non_nil m o && o == l

  -- `&List[T]{}`
  unfoldable pub new_list : Memory A → Ptr × Memory A
  new_list m =
      let unset : Header = record { head = nil; meta = nil } in
      (m.fresh, record m { lists = update m.lists m.fresh unset; fresh = m.fresh + 1 })

module _ {A : Type 0} (zero_value : A) where
  -- `e.Value()`
  abbrev pub value_of : Memory A → Ptr → A
  value_of m e = if e == nil then zero_value else (m.elements e).item

  -- `out.Back().Append(list.PopFront())`
  unfoldable pub shift : Memory A → Ptr → Ptr → Option (Memory A)
  unfolding back pop_front append
  shift m out list = do
    (b, m) ← back zero_value m out
    (e, m) ← pop_front zero_value m list
    (v, m) ← append m b e
    some m

  -- The loop of `split`, down to a length of `half`.
  unfoldable pub split_loop : ℕ → ℕ → Memory A → Ptr → Ptr → Option (Memory A)
  unfolding shift
  split_loop zero half m list out = none
  split_loop (suc fuel) half m list out = elim (ltb half (len m list)) [
    | true ↦ shift m out list >>= (λ m. split_loop fuel half m list out)
    | false ↦ some m
  ]

  -- `split(list)`
  unfoldable pub split : Memory A → Ptr → Option (Ptr × Memory A)
  unfolding new_list split_loop
  split m list =
      let total = len m list in
      let (out, m) = new_list m in
      split_loop (suc total) (total / 2) m list out >>= (λ m. some (out, m))

  -- The iterator of `out.Extend(list.IteratorFront())` from the element `e` on.
  unfoldable pub extend_from : ℕ → Memory A → Ptr → Ptr → Option (Memory A)
  unfolding push_back
  extend_from zero m out e = none
  extend_from (suc fuel) m out e = elim (is_ok m e) [
    | true ↦
        push_back zero_value m out (value_of m e)
        >>= (λ m. extend_from fuel m out (m.elements e).next)
    | false ↦ some m
  ]

  -- `out.Extend(list.IteratorFront())`, for two lists
  unfoldable pub extend : Memory A → Ptr → Ptr → Option (Memory A)
  unfolding front extend_from
  extend m out list = do (e, m) ← front zero_value m list; extend_from (len m list + 1) m out e

  module _ (less : A → A → Bool) where
    -- The loop of `merge`.
    unfoldable pub merge_loop : ℕ → Memory A → Ptr → Ptr → Ptr → Option (Memory A)
    unfolding front shift
    merge_loop zero m a b out = none
    merge_loop (suc fuel) m a b out = elim (not (len m a == 0) && not (len m b == 0)) [
      | true ↦ do
        (x, m) ← front zero_value m a
        (y, m) ← front zero_value m b
        let from = if less (value_of m x) (value_of m y) then a else b
        shift m out from >>= (λ m. merge_loop fuel m a b out)
      | false ↦ some m
    ]

    -- `merge(cf, a, b)`
    unfoldable pub merge : Memory A → Ptr → Ptr → Option (Ptr × Memory A)
    unfolding new_list merge_loop extend
    merge m a b =
        let (out, m) = new_list m in
        do
          m ← merge_loop (suc (len m a + len m b)) m a b out
          m ← extend m out a
          m ← extend m out b
          some (out, m)

    -- `mergeSort(head, cf)`
    unfoldable pub merge_sort : ℕ → Memory A → Ptr → Option (Ptr × Memory A)
    unfolding split merge
    merge_sort zero m head = none
    merge_sort (suc fuel) m head = elim (ltb (len m head) 2) [
      | true ↦ some (head, m)
      | false ↦ do
        (tail, m) ← split m head
        (head, m) ← merge_sort fuel m head
        (tail, m) ← merge_sort fuel m tail
        merge m head tail
    ]

    -- `l.SortMerge(cf)`: the list's header becomes a copy of the header of the sorted list.
    unfoldable pub sort_merge : Memory A → Ptr → Option (Memory A)
    unfolding merge_sort
    sort_merge m l = do
      (o, m) ← merge_sort (suc (len m l)) m l
      h ← load_list m o
      some (record m { lists = update m.lists l h })
