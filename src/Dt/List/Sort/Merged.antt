-- ===== src/Dt/List/Sort/Merged.antt =====
-- Two sorted lists of values merged: from two equal heads the second list's goes first.
use fun.Prelude.{
  ◌+◌, ◌≡◌, refl, Bool, true, false, List, [], ◌∷◌, ◌++◌, All, All-map, arith, inl, inr, Bool-cases,
}
use fun.Dt.Heap.Order.{Ordering, Sorted, passing}

module _ {A : Type 0} (less : A → A → Bool) where
  -- What `merge` makes of lists of these values.
  unfoldable pub merged : List A → List A → List A
  merged [] ys = ys
  merged (x ∷ xs) [] = x ∷ xs
  merged (x ∷ xs) (y ∷ ys) = elim (less x y) [
    | true ↦ x ∷ merged xs (y ∷ ys)
    | false ↦ y ∷ merged (x ∷ xs) ys
  ]

  pub merged-nil : (xs : List A) → merged xs [] ≡ xs
  unfolding merged
  merged-nil [] = refl
  merged-nil (x ∷ xs) = refl

  pub passing-merged :
      (p : A → Bool) (xs ys : List A) → passing p (merged xs ys) ≡ passing p xs + passing p ys
  unfolding merged passing
  passing-merged p [] ys = omega arith
  passing-merged p (x ∷ xs) [] = ground arith
  passing-merged p (x ∷ xs) (y ∷ ys) =
      ground (arith, passing-merged p xs (y ∷ ys), passing-merged p (x ∷ xs) ys)

  All-merged : (P : A → Type 0) (xs ys : List A) → All P xs → All P ys → All P (merged xs ys)
  unfolding merged
  All-merged P [] ys h k = k
  All-merged P (x ∷ xs) [] h k = h
  All-merged P (x ∷ xs) (y ∷ ys) h k = elim (Bool-cases (less x y)) [
    | inl l ↦ rw (l, All) (h.0, All-merged P xs (y ∷ ys) h.1 k)
    | inr g ↦ rw (g, All) (k.0, All-merged P (x ∷ xs) ys h k.1)
  ]

  -- Two sorted lists merge into a sorted one.
  pub merged-Sorted :
      (xs ys : List A)
      → Ordering less
      → Sorted less xs
      → Sorted less ys
      → Sorted less (merged xs ys)
  unfolding merged
  merged-Sorted [] ys o h k = k
  merged-Sorted (x ∷ xs) [] o h k = h
  merged-Sorted (x ∷ xs) (y ∷ ys) o h k = elim (Bool-cases (less x y)) [
    | inl l ↦
        let back = o.one_way x y l in
        let above = All-map ys (λ z q. o.chains x y z back q) k.0 in
        rw (l, Sorted)
          (
            All-merged (λ z. less z x ≡ false) xs (y ∷ ys) h.0 (back, above),
            merged-Sorted xs (y ∷ ys) o h.1 k,
          )
    | inr g ↦
        let above = All-map xs (λ z q. o.chains y x z g q) h.0 in
        rw (g, Sorted)
          (
            All-merged (λ z. less z y ≡ false) (x ∷ xs) ys (g, above) k.0,
            merged-Sorted (x ∷ xs) ys o h k.1,
          )
  ]

pub passing-append :
    {A : Type 0} (p : A → Bool) (xs ys : List A)
    → passing p (xs ++ ys) ≡ passing p xs + passing p ys
unfolding passing
passing-append p [] ys = omega arith
passing-append p (x ∷ xs) ys = ground (arith, passing-append p xs ys)
