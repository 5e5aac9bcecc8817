-- ===== src/Dt/Tests.antt =====
-- The theorems about the list at concrete memories.
use fun.Prelude.{ℕ, ◌≡◌, refl, true, false, Bool, some, [], ◌∷◌, arith, ltb, ◌==◌, if◌then◌else◌}
use fun.Links.{has}
use fun.Dt.List.{
  Element, Memory, nil, push_front, push_back, pop_front, pop_back, iterator_front, is_sorted,
  remove,
}
use fun.Dt.List.IsList.{values, Member, IsList}
use fun.Dt.List.Setup.{holds, unused}
use fun.Dt.List.Ends.{pushes_lem, pops_lem}
use fun.Dt.List.Push.{Contains}
use fun.Dt.List.Remove.{Popped, remove_lem, removed}
use fun.Dt.List.Iterate.{iterator_front_lem, is_sorted_lem, is_sorted_ignores_last}

abbrev elem : ℕ → ℕ → ℕ → Bool → Element ℕ
elem n p v good = record { next = n; prev = p; list = 1; ok = good; item = v }

-- The list 1 with the values 5 and `v`, at 4 and 5, round its root at 2, with its length at 3.
abbrev pair : ℕ → Memory ℕ
pair v = record {
  elements =
      λ p. if p == 4 then elem 5 2 5 true else if p == 5 then elem 2 4 v true else elem 4 5 0 false;
  lists = λ l. record { head = 2; meta = 3 };
  lengths = λ k. 2;
  fresh = 6;
}

pair-Member : (v p : ℕ) → has p (4 ∷ 5 ∷ []) ≡ true → Member (pair v) 1 p
pair-Member v p i = record {
  not_nil = ground arith;
  listed = ground arith;
  good = ground arith;
  old = ground arith;
}

pair-IsList : (v : ℕ) → IsList (pair v) 1 2 3 (4 ∷ 5 ∷ [])
pair-IsList v = record {
  list_not_nil = omega arith;
  root_not_nil = omega arith;
  meta_not_nil = omega arith;
  head_is = refl;
  meta_is = refl;
  counted = refl;
  chain = (refl, refl, (refl, refl, (refl, refl)));
  distinct = (refl, (refl, tt));
  root_apart = refl;
  root_listed = refl;
  root_bad = refl;
  root_old = omega arith;
  member = pair-Member v;
}

abbrev pair-Contains : (v : ℕ) → Contains (pair v) 1 (5 ∷ v ∷ [])
pair-Contains v = record {
  root = 2;
  meta = 3;
  at = 4 ∷ 5 ∷ [];
  is_list = pair-IsList v;
  are = refl;
}

pushes_lem_example :
    ((m : Memory ℕ) × (push_front 0 (pair 7) 1 9 ≡ some m) × Contains m 1 (9 ∷ 5 ∷ 7 ∷ []))
    × ((m : Memory ℕ) × (push_back 0 (pair 7) 1 9 ≡ some m) × Contains m 1 (5 ∷ 7 ∷ 9 ∷ []))
pushes_lem_example = pushes_lem 0 (pair 7) 1 (5 ∷ 7 ∷ []) 9 (holds (pair-Contains 7))

-- The list at 3 of this memory has no root.
abbrev no_roots : Memory ℕ
no_roots = record {
  elements = λ p. elem 0 0 0 false;
  lists = λ l. record { head = nil; meta = nil };
  lengths = λ k. 0;
  fresh = 4;
}

pushes_run :
    ((m : Memory ℕ) × (push_front 0 no_roots 3 9 ≡ some m) × Contains m 3 (9 ∷ []))
    × ((m : Memory ℕ) × (push_back 0 no_roots 3 9 ≡ some m) × Contains m 3 (9 ∷ []))
pushes_run =
    pushes_lem 0 no_roots 3 [] 9
      (unused (record { not_nil = omega arith; no_root = refl; room = omega arith }) refl)

pops_lem_example :
    Popped (pair 7) 1 5 (7 ∷ []) (pop_front 0 (pair 7) 1)
    × Popped (pair 7) 1 7 (5 ∷ []) (pop_back 0 (pair 7) 1)
pops_lem_example = pops_lem 0 (pair 7) 1 5 7 (7 ∷ []) (5 ∷ []) (pair-Contains 7) refl

remove_lem_example :
    (remove (pair 7) 5 ≡ some (true, removed (pair 7) 3 5))
    × IsList (removed (pair 7) 3 5) 1 2 3 (4 ∷ [])
    × (values (removed (pair 7) 3 5) (4 ∷ []) ≡ 5 ∷ [])
    × (((removed (pair 7) 3 5).elements 5).list ≡ nil)
remove_lem_example = remove_lem (pair 7) 1 2 3 5 (4 ∷ 5 ∷ []) (pair-IsList 7) refl

iterator_run : iterator_front 0 3 (pair 7) 1 ≡ some (5 ∷ 7 ∷ [])
iterator_run = iterator_front_lem 0 (pair 7) 1 (5 ∷ 7 ∷ []) 3 (pair-Contains 7) (omega arith)

sorted_run : is_sorted 0 ltb (pair 7) 1 ≡ some true
sorted_run = is_sorted_lem 0 ltb (pair 7) 1 (5 ∷ 7 ∷ []) (pair-Contains 7)

-- 5, 1 is as sorted as 5, 7.
is_sorted_ignores_last_example : is_sorted 0 ltb (pair 7) 1 ≡ is_sorted 0 ltb (pair 1) 1
is_sorted_ignores_last_example =
    is_sorted_ignores_last 0 ltb (pair 7) (pair 1) 1 1 (5 ∷ []) 7 1 (pair-Contains 7)
      (pair-Contains 1) refl
