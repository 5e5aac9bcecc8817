-- ===== src/Dt/Heap/Tests.antt =====
-- The theorems about heaps at concrete inputs.
use fun.Prelude.{ℕ, ◌≡◌, refl, Bool, false, List, [], ◌∷◌, some, ltb, arith}
use fun.Dt.List.{Memory, ◌>>=◌}
use fun.Dt.List.IsList.{IsList}
use fun.Dt.List.Push.{Contains}
use fun.Dt.Heap.{heap_push}
use fun.Dt.Heap.Push.{placed}
use fun.Dt.Heap.Order.{Ordering, Sorted, passing}
use fun.Dt.Heap.Sort.{heap_of, heap_push_lem, push_each, pop_each, heap_sort_lem}

-- The empty list 1 round its root at 2, with its length at 3.
abbrev cleared : Memory ℕ
cleared = record {
  elements = λ p. record { next = 2; prev = 2; list = 1; ok = false; item = 0 };
  lists = λ p. record { head = 2; meta = 3 };
  lengths = λ p. 0;
  fresh = 4;
}

cleared-IsList : IsList cleared 1 2 3 []
cleared-IsList = record {
  list_not_nil = omega arith;
  root_not_nil = omega arith;
  meta_not_nil = omega arith;
  head_is = refl;
  meta_is = refl;
  counted = refl;
  chain = (refl, refl);
  distinct = tt;
  root_apart = refl;
  root_listed = refl;
  root_bad = refl;
  root_old = omega arith;
  member = λ p i. absurd (cc i);
}

abbrev cleared-Contains : Contains cleared 1 []
cleared-Contains = record { root = 2; meta = 3; at = []; is_list = cleared-IsList; are = refl }

abbrev below : ℕ → ℕ → Bool
below a b = ltb a b

below-Ordering : Ordering below
below-Ordering = record {
  one_way = λ a b h. ground (arith, h);
  chains = λ a b c h i. ground (arith, h, i);
}

heap_push_lem_run :
    (m' : Memory ℕ) × (heap_push 0 cleared (heap_of below 1) 5 ≡ some (heap_of below 1, m'))
    × Contains m' 1 (placed below 5 [])
    × (Ordering below → Sorted below [] → Sorted below (placed below 5 []))
heap_push_lem_run = heap_push_lem 0 below cleared 1 [] 5 cleared-Contains

heap_sort_lem_example :
    (zs : List ℕ) × (push_each 0 below cleared (heap_of below 1) (7 ∷ 5 ∷ 9 ∷ [])
        >>= (λ s. pop_each 0 below 3 s.1 s.0)
      ≡ some zs)
    × Sorted below zs
    × ((p : ℕ → Bool) → passing p zs ≡ passing p (7 ∷ 5 ∷ 9 ∷ []))
heap_sort_lem_example =
    heap_sort_lem 0 below cleared 1 (7 ∷ 5 ∷ 9 ∷ []) cleared-Contains below-Ordering
