-- ===== src/Dt/OrderedSet/Entries.antt =====
-- The map of an ordered set of dt/ordered_set.go against the elements of its list.
use fun.Prelude.{
  ◌≡◌, refl, Bool, true, false, ◌||◌, List, [], ◌∷◌, ◌++◌, Option, none, some, if◌then◌else◌, arith,
  length, inl, inr, Bool-cases,
}
use fun.Links.{Ptr, has, Distinct, without}
use fun.Irt.Lists.{Comparable}
use fun.Dt.List.{Memory}
use fun.Dt.List.IsList.{values}
use fun.Dt.OrderedSet.{load_hash, delete_hash, set_hash}

module _ {A : Type 0} (c : Comparable A) where
  -- The element of a value, for elements and values side by side.
  unfoldable pub find : List Ptr → List A → A → Option Ptr
  find [] xs v = none
  find (p ∷ ps) [] v = none
  find (p ∷ ps) (x ∷ xs) v = if c.eq v x then some p else find ps xs v

  -- Whether the value is there.
  unfoldable pub member : A → List A → Bool
  member v [] = false
  member v (x ∷ xs) = if c.eq v x then true else member v xs

  -- The values without this one.
  unfoldable pub erased : List A → A → List A
  erased [] v = []
  erased (x ∷ xs) v = if c.eq v x then xs else x ∷ erased xs v

  -- No value is there twice.
  abbrev pub Once : List A → Type 0
  Once [] = Unit
  Once (x ∷ xs) = (member x xs ≡ false) × Once xs

  -- The map that belongs to these elements and values.
  unfoldable pub entries : List Ptr → List A → List (A × Ptr)
  entries [] xs = []
  entries (p ∷ ps) [] = []
  entries (p ∷ ps) (x ∷ xs) = (x, p) ∷ entries ps xs

  pub load-entries :
      (ps : List Ptr) (xs : List A) (v : A) → load_hash c (entries ps xs) v ≡ find ps xs v
  unfolding load_hash entries find
  load-entries [] xs v = refl
  load-entries (p ∷ ps) [] v = refl
  load-entries (p ∷ ps) (x ∷ xs) v = ground (arith, load-entries ps xs v)

  pub length-entries :
      (ps : List Ptr) (xs : List A) → length ps ≡ length xs → length (entries ps xs) ≡ length xs
  unfolding entries
  length-entries [] xs l = l
  length-entries (p ∷ ps) [] l = refl
  length-entries (p ∷ ps) (x ∷ xs) l = ground (arith, length-entries ps xs)

  pub set-entries :
      (ps : List Ptr) (xs : List A) (q : Ptr) (v : A)
      → length ps ≡ length xs
      → find ps xs v ≡ none
      → set_hash c (entries ps xs) v q ≡ entries (ps ++ (q ∷ [])) (xs ++ (v ∷ []))
  unfolding set_hash entries find
  set-entries [] [] q v l n = refl
  set-entries [] (x ∷ xs) q v l n = absurd (omega (arith, l))
  set-entries (p ∷ ps) [] q v l n = absurd (omega (arith, l))
  set-entries (p ∷ ps) (x ∷ xs) q v l n = ground (arith, set-entries ps xs q v)

  pub find-member :
      (ps : List Ptr) (xs : List A) (v : A)
      → length ps ≡ length xs
      → member v xs ≡ elim (find ps xs v) [ none ↦ false | some p ↦ true ]
  unfolding find member
  find-member [] [] v l = refl
  find-member [] (x ∷ xs) v l = absurd (omega (arith, l))
  find-member (p ∷ ps) [] v l = absurd (omega (arith, l))
  find-member (p ∷ ps) (x ∷ xs) v l = ground (arith, find-member ps xs v)

  pub find-has :
      (ps : List Ptr) (xs : List A) (v : A) (q : Ptr) → find ps xs v ≡ some q → has q ps ≡ true
  unfolding find
  find-has [] xs v q h = absurd (cc h)
  find-has (p ∷ ps) [] v q h = absurd (cc h)
  find-has (p ∷ ps) (x ∷ xs) v q h = ground (arith, find-has ps xs v q)

  pub member-snoc : (xs : List A) (v w : A) → member w (xs ++ (v ∷ [])) ≡ (member w xs || c.eq w v)
  unfolding member
  member-snoc [] v w = ground arith
  member-snoc (x ∷ xs) v w = ground (arith, member-snoc xs v w)

  pub Once-snoc : (xs : List A) (v : A) → Once xs → member v xs ≡ false → Once (xs ++ (v ∷ []))
  unfolding member
  Once-snoc [] v o n = ground arith
  Once-snoc (x ∷ xs) v o n =
      ground (arith, Once-snoc xs v o.1, member-snoc xs v x, c.eq_iff x v, c.eq_iff v x)

  pub delete-entries :
      (ps : List Ptr) (xs : List A) (v : A) (q : Ptr)
      → Distinct ps
      → find ps xs v ≡ some q
      → delete_hash c (entries ps xs) v ≡ entries (without ps q) (erased xs v)
  unfolding delete_hash entries find erased
  delete-entries [] xs v q d h = absurd (cc h)
  delete-entries (p ∷ ps) [] v q d h = absurd (cc h)
  delete-entries (p ∷ ps) (x ∷ xs) v q d h =
      ground (arith, delete-entries ps xs v q, find-has ps xs v q)

  pub delete_none :
      (ps : List Ptr) (xs : List A) (v : A)
      → find ps xs v ≡ none
      → delete_hash c (entries ps xs) v ≡ entries ps xs
  unfolding delete_hash entries find
  delete_none [] xs v h = refl
  delete_none (p ∷ ps) [] v h = refl
  delete_none (p ∷ ps) (x ∷ xs) v h = ground (arith, delete_none ps xs v)

  pub values-without :
      (m : Memory A) (ps : List Ptr) (v : A) (q : Ptr)
      → Distinct ps
      → find ps (values m ps) v ≡ some q
      → values m (without ps q) ≡ erased (values m ps) v
  unfolding find erased
  values-without m [] v q d h = absurd (cc h)
  values-without m (p ∷ ps) v q d h =
      ground (arith, values-without m ps v q, find-has ps (values m ps) v q)

  pub erased_none : (xs : List A) (v : A) → member v xs ≡ false → erased xs v ≡ xs
  unfolding member erased
  erased_none [] v h = refl
  erased_none (x ∷ xs) v h = ground (arith, erased_none xs v)

  member-erased : (xs : List A) (v w : A) → member w xs ≡ false → member w (erased xs v) ≡ false
  unfolding member erased
  member-erased [] v w h = refl
  member-erased (x ∷ xs) v w h = ground (arith, member-erased xs v w)

  pub Once-erased :
      (xs : List A) (v : A) → Once xs → Once (erased xs v) × (member v (erased xs v) ≡ false)
  unfolding member erased
  Once-erased [] v o = (tt, refl)
  Once-erased (x ∷ xs) v o = elim (Bool-cases (c.eq v x)) [
    | inl y ↦ rw y (o.1, rw ((c.eq_iff v x).0 y) o.0)
    | inr n ↦
        let rest = Once-erased xs v o.1 in
        rw n ((member-erased xs v x o.0, rest.0), ground (arith, rest.1))
  ]
