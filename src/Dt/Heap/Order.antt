-- ===== src/Dt/Heap/Order.antt =====
-- Sorted lists, and what placing a value into one makes of it.
use fun.Prelude.{
  ℕ, ◌+◌, ◌≡◌, refl, Bool, true, false, List, [], ◌∷◌, All, if◌then◌else◌, length, arith, inl, inr,
  Bool-cases,
}
use fun.Dt.Heap.Push.{below_all, placed}

-- A comparison that orders all values, some of them perhaps equal.
pub record Ordering {A : Type 0} (less : A → A → Bool) : Type 0 where
  pub one_way : (a b : A) → less a b ≡ true → less b a ≡ false
  pub chains : (a b c : A) → less b a ≡ false → less c b ≡ false → less c a ≡ false

module _ {A : Type 0} (less : A → A → Bool) where
  -- No value is below one before it.
  abbrev pub Sorted : List A → Type 0
  Sorted [] = Unit
  Sorted (x ∷ xs) = All (λ y. less y x ≡ false) xs × Sorted xs

-- How many values pass the test.
unfoldable pub passing : {A : Type 0} → (A → Bool) → List A → ℕ
passing p [] = 0
passing p (x ∷ xs) = (if p x then 1 else 0) + passing p xs

module _ {A : Type 0} (less : A → A → Bool) (o : Ordering less) where
  below_all-All :
      (t : A) (xs : List A) → below_all less t xs ≡ true → All (λ y. less y t ≡ false) xs
  unfolding below_all
  below_all-All t [] h = tt
  below_all-All t (x ∷ xs) h = elim (Bool-cases (less t x)) [
    | inl y ↦ (o.one_way t x y, below_all-All t xs (ground (arith, h)))
    | inr n ↦ absurd (ground (arith, h))
  ]

  reached :
      (t x : A) (xs : List A)
      → All (λ y. less y x ≡ false) xs
      → below_all less t (x ∷ xs) ≡ false
      → less t x ≡ false
  unfolding below_all
  reached t x [] a h = ground (arith, h)
  reached t x (y ∷ ys) a h = elim (Bool-cases (less t x)) [
    | inr n ↦ n
    | inl l ↦ elim (Bool-cases (less t y)) [
      | inr n ↦ o.chains x y t a.0 n
      | inl l' ↦ reached t x ys a.1 (ground (arith, h))
    ]
  ]

  placed-All : (P : A → Type 0) (t : A) (xs : List A) → P t → All P xs → All P (placed less t xs)
  unfolding placed
  placed-All P t [] p a = (p, tt)
  placed-All P t (x ∷ xs) p a = elim (Bool-cases (below_all less t (x ∷ xs))) [
    | inl y ↦ rw y (p, a)
    | inr n ↦ rw n (a.0, placed-All P t xs p a.1)
  ]

  pub placed-Sorted : (t : A) (xs : List A) → Sorted less xs → Sorted less (placed less t xs)
  unfolding placed
  placed-Sorted t [] s = (tt, tt)
  placed-Sorted t (x ∷ xs) s = elim (Bool-cases (below_all less t (x ∷ xs))) [
    | inl y ↦ rw y (below_all-All t (x ∷ xs) y, s)
    | inr n ↦
        rw n (
          placed-All (λ y. less y x ≡ false) t xs (reached t x xs s.0 n) s.0,
          placed-Sorted t xs s.1,
        )
  ]

pub passing-placed :
    {A : Type 0} (less : A → A → Bool) (p : A → Bool) (t : A) (xs : List A)
    → passing p (placed less t xs) ≡ (if p t then 1 else 0) + passing p xs
unfolding placed passing
passing-placed less p t [] = refl
passing-placed less p t (x ∷ xs) = ground (arith, passing-placed less p t xs)

pub passing_all : {A : Type 0} (xs : List A) → passing (λ x. true) xs ≡ length xs
unfolding passing
passing_all [] = refl
passing_all (x ∷ xs) = ground (arith, passing_all xs)
