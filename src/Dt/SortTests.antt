-- ===== src/Dt/SortTests.antt =====
-- The merge sort, `Copy` and `Reset` of the list at a concrete memory, and runs of them.
use fun.Prelude.{
  ℕ, ◌<◌, ◌≡◌, ◌⊎◌, refl, true, false, some, Bool, List, [], ◌∷◌, length, arith, ltb, ◌==◌,
  if◌then◌else◌,
}
use fun.Links.{Ptr, has}
use fun.Dt.Heap.Order.{Ordering, Sorted, passing}
use fun.Dt.List.{Element, Memory, len, is_ok, front, iterator_front, ◌>>=◌}
use fun.Dt.List.IsList.{Member}
use fun.Dt.List.Own.{Own}
use fun.Dt.List.Setup.{Unused}
use fun.Dt.List.Sort.{is_in, sort_merge}
use fun.Dt.List.Sort.Result.{sort_merge_lem, sort_merge-is_in}
use fun.Dt.List.Whole.{copy, copy_lem}
use fun.Dt.List.Reset.{reset, reset_lem}

abbrev node : ℕ → ℕ → ℕ → Bool → Element ℕ
node n p v good = record { next = n; prev = p; list = 1; ok = good; item = v }

-- The list 1 with the values 5, 1 and 3 at 4, 5 and 6, round its root at 2, with its length at 3.
abbrev three : Memory ℕ
three = record {
  elements = λ p.
      if p == 4
      then node 5 2 5 true
      else if p == 5
      then node 6 4 1 true
      else if p == 6
      then node 2 5 3 true
      else node 4 6 0 false;
  lists = λ l. record { head = 2; meta = 3 };
  lengths = λ k. 3;
  fresh = 7;
}

three-Member : (p : ℕ) → has p (4 ∷ 5 ∷ 6 ∷ []) ≡ true → Member three 1 p
three-Member p i = record {
  not_nil = ground arith;
  listed = ground arith;
  good = ground arith;
  old = ground arith;
}

three-Own : Own three 1 2 (4 ∷ 5 ∷ 6 ∷ []) (5 ∷ 1 ∷ 3 ∷ [])
three-Own = record {
  is_list = record {
    list_not_nil = omega arith;
    root_not_nil = omega arith;
    meta_not_nil = omega arith;
    head_is = refl;
    meta_is = refl;
    counted = refl;
    chain = (refl, refl, (refl, refl, (refl, refl, (refl, refl))));
    distinct = (refl, (refl, (refl, tt)));
    root_apart = refl;
    root_listed = refl;
    root_bad = refl;
    root_old = omega arith;
    member = three-Member;
  };
  are = refl;
  list_old = omega arith;
  meta_old = omega arith;
}

sort_merge_lem_example :
    (m : Memory ℕ) × (ys : List ℕ) × (sort_merge 0 ltb three 1 ≡ some m)
    × ((fuel : ℕ) → length ys < fuel → iterator_front 0 fuel m 1 ≡ some ys)
    × (len m 1 ≡ length ys)
    × (Ordering ltb → Sorted ltb ys)
    × ((p : ℕ → Bool) → passing p ys ≡ passing p (5 ∷ 1 ∷ 3 ∷ []))
sort_merge_lem_example = sort_merge_lem 0 ltb three 1 2 (4 ∷ 5 ∷ 6 ∷ []) (5 ∷ 1 ∷ 3 ∷ []) three-Own

sort_merge-is_in_example :
    (m : Memory ℕ) × (e : Ptr) × (sort_merge 0 ltb three 1 ≡ some m)
    × (front 0 m 1 ≡ some (e, m))
    × (is_ok m e ≡ true)
    × (is_in m e 1 ≡ false)
sort_merge-is_in_example =
    sort_merge-is_in 0 ltb three 1 2 (4 ∷ 5 ∷ 6 ∷ []) (5 ∷ 1 ∷ 3 ∷ []) three-Own (omega arith)

sort_run : (sort_merge 0 ltb three 1 >>= (λ m. iterator_front 0 9 m 1)) ≡ some (1 ∷ 3 ∷ 5 ∷ [])
unfolding sort_merge iterator_front
sort_run = refl

copy_lem_example :
    (m : Memory ℕ) × (os : List Ptr) × (copy 0 three 1 ≡ some (7, m))
    × ((Own m 7 8 os (5 ∷ 1 ∷ 3 ∷ [])) ⊎ ((◌≡◌ {A = List ℕ} (5 ∷ 1 ∷ 3 ∷ []) []) × Unused m 7))
    × Own m 1 2 (4 ∷ 5 ∷ 6 ∷ []) (5 ∷ 1 ∷ 3 ∷ [])
copy_lem_example = copy_lem 0 three 1 2 (4 ∷ 5 ∷ 6 ∷ []) (5 ∷ 1 ∷ 3 ∷ []) three-Own

reset_run : (m : Memory ℕ) × (reset 0 three 1 ≡ some m) × Own m 1 2 [] []
reset_run = reset_lem 0 three 1 2 (4 ∷ 5 ∷ 6 ∷ []) (5 ∷ 1 ∷ 3 ∷ []) three-Own
