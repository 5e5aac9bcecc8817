-- ===== src/Strut/Replace/Lists.antt =====
-- Taking and dropping in a list that is written as a sum.
use fun.Prelude.{
  ℕ, zero, suc, ◌+◌, ◌-◌, ◌≤◌, ◌≡◌, refl, sym, ap, ◌∙◌, List, [], ◌∷◌, ◌++◌, length, length-append,
  take, drop, arith,
}
use fun.Strut.Replace.{copy_at}

module _ {A : Type 0} where
  pub take-front : (xs ys : List A) (n : ℕ) → length xs ≡ n → take n (xs ++ ys) ≡ xs
  take-front [] ys zero e = refl
  take-front [] ys (suc n) e = absurd (omega arith)
  take-front (x ∷ xs) ys zero e = absurd (omega arith)
  take-front (x ∷ xs) ys (suc n) e = ap (λ r. x ∷ r) (take-front xs ys n (omega arith))

  pub drop-front : (xs ys : List A) (n : ℕ) → length xs ≡ n → drop n (xs ++ ys) ≡ ys
  drop-front [] ys zero e = refl
  drop-front [] ys (suc n) e = absurd (omega arith)
  drop-front (x ∷ xs) ys zero e = absurd (omega arith)
  drop-front (x ∷ xs) ys (suc n) e = drop-front xs ys n (omega arith)

  drop-nil : (j : ℕ) → drop {A = A} j [] ≡ []
  drop-nil zero = refl
  drop-nil (suc j) = refl

  pub drop-drop : (i j : ℕ) (xs : List A) → drop j (drop i xs) ≡ drop (i + j) xs
  drop-drop zero j xs = ground arith
  drop-drop (suc i) j [] = drop-nil j ∙ sym (drop-nil (suc i + j))
  drop-drop (suc i) j (x ∷ xs) =
      let e : suc (i + j) ≡ suc i + j = omega arith in
      drop-drop i j xs ∙ ap (λ n. drop n (x ∷ xs)) e

  take-nil : (j : ℕ) → take {A = A} j [] ≡ []
  take-nil zero = refl
  take-nil (suc j) = refl

  pub take-take : (m n : ℕ) (xs : List A) → m ≤ n → take m (take n xs) ≡ take m xs
  take-take zero n xs h = refl
  take-take (suc m) zero xs h = absurd (omega arith)
  take-take (suc m) (suc n) [] h = refl
  take-take (suc m) (suc n) (x ∷ xs) h = ap (λ r. x ∷ r) (take-take m n xs (omega arith))

  pub drop-take : (m n : ℕ) (xs : List A) → drop m (take n xs) ≡ take (n - m) (drop m xs)
  drop-take zero n xs = ground arith
  drop-take (suc m) zero xs = ground arith
  drop-take (suc m) (suc n) [] = sym (take-nil (suc n - suc m))
  drop-take (suc m) (suc n) (x ∷ xs) =
      let e : n - m ≡ suc n - suc m = omega arith in
      drop-take m n xs ∙ ap (λ k. take k (drop m xs)) e

  pub take_all : (n : ℕ) (xs : List A) → length xs ≤ n → take n xs ≡ xs
  take_all zero [] h = refl
  take_all zero (x ∷ xs) h = absurd (omega arith)
  take_all (suc n) [] h = refl
  take_all (suc n) (x ∷ xs) h = ap (λ r. x ∷ r) (take_all n xs (omega arith))

  pub drop_all : (n : ℕ) (xs : List A) → length xs ≤ n → drop n xs ≡ []
  drop_all zero [] h = refl
  drop_all zero (x ∷ xs) h = absurd (omega arith)
  drop_all (suc n) [] h = refl
  drop_all (suc n) (x ∷ xs) h = drop_all n xs (omega arith)

  pub take-add : (i j : ℕ) (xs : List A) → take (i + j) xs ≡ take i xs ++ take j (drop i xs)
  take-add zero j xs = ground arith
  take-add (suc i) j [] = take-nil (suc i + j) ∙ sym (take-nil j)
  take-add (suc i) j (x ∷ xs) =
      let e : suc i + j ≡ suc (i + j) = omega arith in
      ap (λ n. take n (x ∷ xs)) e ∙ ap (λ r. x ∷ r) (take-add i j xs)

  pub take-past :
      (xs ys : List A) (n : ℕ) → length xs ≤ n → take n (xs ++ ys) ≡ xs ++ take (n - length xs) ys
  take-past [] ys n h = ground arith
  take-past (x ∷ xs) ys zero h = absurd (omega arith)
  take-past (x ∷ xs) ys (suc n) h =
      let e : n - length xs ≡ suc n - suc (length xs) = omega arith in
      ap (λ r. x ∷ r) (take-past xs ys n (omega arith) ∙ ap (λ k. xs ++ take k ys) e)

  -- A copy over a part of the same length.
  pub copy_at-middle :
      (a b d src : List A) (i : ℕ)
      → length a ≡ i
      → length src ≡ length b
      → copy_at (a ++ (b ++ d)) i src ≡ a ++ (src ++ d)
  unfolding copy_at
  copy_at-middle a b d src i e f =
      let whole = length-append a (b ++ d) in
      let rest = length-append b d in
      let fits : take (length (a ++ (b ++ d)) - i) src ≡ src =
        take_all (length (a ++ (b ++ d)) - i) src (omega (arith, whole, rest)) in
      rw fits (
        ap (λ p. p ++ (src ++ drop (i + length src) (a ++ (b ++ d)))) (take-front a (b ++ d) i e)
        ∙ ap (λ p. a ++ (src ++ p))
            (sym (drop-drop i (length src) (a ++ (b ++ d)))
              ∙ ap (drop (length src)) (drop-front a (b ++ d) i e)
              ∙ drop-front b d (length src) (sym f)))
