-- ===== src/Dt/OrderedMap/Tests.antt =====
-- The theorems about ordered maps at a concrete map, with the value 50 for the key 5.
use fun.Prelude.{ℕ, ◌≡◌, refl, true, false, [], ◌∷◌, some, ◌==◌, ==_iff, arith, if◌then◌else◌}
use fun.Links.{Ptr}
use fun.Dt.List.{Memory, Element}
use fun.Dt.List.IsList.{IsList}
use fun.Dt.OrderedSet.Entries.{member, entries}
use fun.Irt.Lists.{Comparable}
use fun.Dt.OrderedMap.{
  OrderedMap, check, len, load_key, get, set, delete, ensure, iterator, keys, values,
}
use fun.Dt.OrderedMap.Entries.{erased_key, replaced, lookup}
use fun.Dt.OrderedMap.Refine.{
  Holds, ordered_map_set_lem, ordered_map_delete_lem, ordered_map_read_lem,
}

abbrev numbers : Comparable ℕ
numbers = record { eq = λ a b. a == b; eq_iff = ==_iff }

abbrev pair_cell : Ptr → Element (ℕ × ℕ)
pair_cell p =
    if p == 4
    then record { next = 2; prev = 2; list = 1; ok = true; item = (5, 50) }
    else record { next = 4; prev = 4; list = 1; ok = false; item = (0, 0) }

abbrev held : Memory (ℕ × ℕ)
held = record {
  elements = pair_cell;
  lists = λ p. record { head = 2; meta = 3 };
  lengths = λ p. 1;
  fresh = 5;
}

held-IsList : IsList held 1 2 3 (4 ∷ [])
held-IsList = record {
  list_not_nil = omega arith;
  root_not_nil = omega arith;
  meta_not_nil = omega arith;
  head_is = refl;
  meta_is = refl;
  counted = refl;
  chain = (refl, refl, (refl, refl));
  distinct = (refl, tt);
  root_apart = refl;
  root_listed = refl;
  root_bad = refl;
  root_old = omega arith;
  member = λ p i. record {
    not_nil = ground (arith, i);
    listed = ground (arith, i);
    good = ground (arith, i);
    old = ground (arith, i);
  };
}

abbrev fifty : OrderedMap ℕ ℕ
fifty = record { hash = (5, 4) ∷ []; list = 1; ready = true }

fifty-Holds : Holds numbers held fifty ((5, 50) ∷ [])
unfolding entries member
fifty-Holds = record {
  ready = refl;
  root = 2;
  meta = 3;
  at = 4 ∷ [];
  is_list = held-IsList;
  are = refl;
  hash_is = refl;
  once = (refl, tt);
}

-- The value of the key 5 becomes 60, in its place.
ordered_map_set_lem_example :
    (s : OrderedMap ℕ ℕ) × (m : Memory (ℕ × ℕ)) × (set numbers 0 0 held fifty 5 60
      ≡ some (true, s, m))
    × Holds numbers m s ((5, 60) ∷ [])
    × (get numbers 0 0 m s 5 ≡ (60, s, m))
unfolding member replaced
ordered_map_set_lem_example =
    ordered_map_set_lem numbers 0 0 held fifty ((5, 50) ∷ []) 5 60 fifty-Holds

ordered_map_delete_lem_example :
    ((s : OrderedMap ℕ ℕ) × (m : Memory (ℕ × ℕ)) × (delete numbers 0 0 held fifty 7 ≡ some (s, m))
      × Holds numbers m s ((5, 50) ∷ [])
      × (member numbers 7 (5 ∷ []) ≡ false))
    × ((s : OrderedMap ℕ ℕ) × (m : Memory (ℕ × ℕ)) × (ensure numbers 0 0 held fifty 7
          ≡ some (false, s, m))
        × Holds numbers m s ((5, 50) ∷ (7, 0) ∷ []))
unfolding member erased_key
ordered_map_delete_lem_example =
    ordered_map_delete_lem numbers 0 0 held fifty ((5, 50) ∷ []) 7 fifty-Holds

ordered_map_read_lem_example :
    (load_key numbers 0 0 held fifty 5 ≡ ((50, true), fifty, held))
    × (check numbers 0 0 held fifty 5 ≡ (true, fifty, held))
    × (len held fifty ≡ (1, fifty, held))
    × (iterator numbers 0 0 2 held fifty ≡ some ((5, 50) ∷ []))
    × (keys numbers 0 0 2 held fifty ≡ some (5 ∷ []))
    × (values numbers 0 0 2 held fifty ≡ some (50 ∷ []))
unfolding member lookup
ordered_map_read_lem_example =
    ordered_map_read_lem numbers 0 0 held fifty ((5, 50) ∷ []) 5 2 fifty-Holds (omega arith)
