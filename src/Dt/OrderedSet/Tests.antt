-- ===== src/Dt/OrderedSet/Tests.antt =====
-- The theorem about ordered sets at a concrete input.
use fun.Prelude.{
  ℕ, ◌≡◌, refl, true, false, [], ◌∷◌, some, ◌==◌, ==_iff, arith, length, if◌then◌else◌,
}
use fun.Irt.Lists.{Comparable}
use fun.Links.{Ptr}
use fun.Dt.List.{Memory, Element}
use fun.Dt.List.IsList.{IsList}
use fun.Dt.OrderedSet.{OrderedSet, check, len, add, delete, iterator}
use fun.Dt.OrderedSet.Entries.{member, erased, entries}
use fun.Dt.OrderedSet.Refine.{Holds, added, ordered_set_lem}

abbrev numbers : Comparable ℕ
numbers = record { eq = λ a b. a == b; eq_iff = ==_iff }

abbrev cell : Ptr → Element ℕ
cell p =
    if p == 4
    then record { next = 2; prev = 2; list = 1; ok = true; item = 5 }
    else record { next = 4; prev = 4; list = 1; ok = false; item = 0 }

-- The list 1 with the value 5 at 4, round its root at 2, with its length at 3.
abbrev single : Memory ℕ
single = record {
  elements = cell;
  lists = λ p. record { head = 2; meta = 3 };
  lengths = λ p. 1;
  fresh = 5;
}

single-IsList : IsList single 1 2 3 (4 ∷ [])
single-IsList = record {
  list_not_nil = omega arith;
  root_not_nil = omega arith;
  meta_not_nil = omega arith;
  head_is = refl;
  meta_is = refl;
  counted = refl;
  chain = (refl, refl, (refl, refl));
  distinct = (refl, tt);
  root_apart = refl;
  root_listed = refl;
  root_bad = refl;
  root_old = omega arith;
  member = λ p i. record {
    not_nil = ground (arith, i);
    listed = ground (arith, i);
    good = ground (arith, i);
    old = ground (arith, i);
  };
}

abbrev five : OrderedSet ℕ
five = record { hash = (5, 4) ∷ []; list = 1; ready = true }

five-Holds : Holds numbers single five (5 ∷ [])
unfolding entries member
five-Holds = record {
  ready = refl;
  root = 2;
  meta = 3;
  at = 4 ∷ [];
  is_list = single-IsList;
  are = refl;
  hash_is = refl;
  once = (refl, tt);
}

ordered_set_lem_example :
    ((s' : OrderedSet ℕ) × (m' : Memory ℕ) × (add numbers 0 single five 7
        ≡ some (member numbers 7 (5 ∷ []), s', m'))
      × Holds numbers m' s' (added numbers (5 ∷ []) 7))
    × ((s' : OrderedSet ℕ) × (m' : Memory ℕ) × (delete numbers single five 7
          ≡ some (member numbers 7 (5 ∷ []), s', m'))
        × Holds numbers m' s' (erased numbers (5 ∷ []) 7)
        × (member numbers 7 (erased numbers (5 ∷ []) 7) ≡ false))
    × (check numbers single five 7 ≡ (member numbers 7 (5 ∷ []), five, single))
    × (len single five ≡ (length {A = ℕ} (5 ∷ []), five, single))
    × (iterator numbers 0 2 single five ≡ some (5 ∷ []))
ordered_set_lem_example =
    ordered_set_lem numbers 0 single five (5 ∷ []) 7 2 five-Holds (omega arith)
