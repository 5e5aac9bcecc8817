-- ===== src/Irt/Filter.antt =====
-- The combinators of irt/irt.go that leave out some of the values: Keep, Remove, While, Until, Limit and
-- what is made of them. A pointer is an `Option`, and so is an error.
use fun.Prelude.{
  ℕ, zero, suc, ◌+◌, ◌≡◌, refl, ap, ◌∙◌, Bool, true, false, not, List, [], ◌∷◌, take, if◌then◌else◌,
  arith,
}
use fun.Prelude.Int.{ℤ, pos, negsuc, pos_part, leb_ℤ}
use fun.Irt.Lists.{kept, prefix}
use fun.Irt.{Op, Body, Seq, pure, slice, Denotes, outer, inner}

abbrev pub notf {ℓ} : {W : Type 0} {A : Type ℓ} → Op W A Bool → Op W A Bool
notf op x w = let r = op x w in (not r.0, r.1)

module _ {ℓ} {W : Type 0} {A : Type ℓ} where
  -- `Keep`
  unfoldable pub keep : Seq W A → Op W A Bool → Seq W A
  keep seq prd L yield =
      seq L λ x s. let r = prd x s.0 in if r.0 then yield x (r.1, s.1) else (true, (r.1, s.1))

  -- `Remove`
  unfoldable pub remove : Seq W A → Op W A Bool → Seq W A
  unfolding keep
  remove seq prd = keep seq (notf prd)

  -- `While`
  unfoldable pub while : Seq W A → Op W A Bool → Seq W A
  while seq prd L yield =
      seq L λ x s. let r = prd x s.0 in if r.0 then yield x (r.1, s.1) else (false, (r.1, s.1))

  -- `Until`
  unfoldable pub until : Seq W A → Op W A Bool → Seq W A
  unfolding while
  until seq prd = while seq (notf prd)

  -- The loop of `Limit`, with the counter as its local variable.
  unfoldable pub limit_from : Seq W A → ℤ → ℕ → (L : Type 0) → Body W L A → W × L → W × (L × ℕ)
  limit_from seq n c L yield s =
      let body : Body W (L × ℕ) A = λ x t.
        let r = yield x (outer t) in
        let c' = t.1.1 + 1 in
        if r.0 then (not (leb_ℤ n (pos c')), inner r.1 c') else (false, inner r.1 t.1.1) in
      seq (L × ℕ) body (inner s c)

  -- `Limit`
  unfoldable pub limit : Seq W A → ℤ → Seq W A
  unfolding limit_from
  limit seq n L yield s = if leb_ℤ n (pos 0) then s else outer (limit_from seq n 0 L yield s)

  -- `ForEachWhile`
  unfoldable pub for_each_while : Seq W A → Op W A Bool → Seq W A
  for_each_while seq op L yield =
      seq L λ x s. let r = op x s.0 in if r.0 then yield x (r.1, s.1) else (false, (r.1, s.1))

  -- `ForEach`
  unfoldable pub for_each : Seq W A → (A → W → W) → Seq W A
  for_each seq op L yield = seq L λ x s. yield x (op x s.0, s.1)

  keep-slice :
      (p : A → Bool) (xs : List A) (L : Type 0) (yield : Body W L A) (s : W × L)
      → keep (slice xs) (pure p) L yield s ≡ slice (kept p xs) L yield s
  unfolding slice keep kept
  keep-slice p [] L yield s = refl
  keep-slice p (x ∷ xs) L yield s =
      ground (arith, keep-slice p xs L yield s, keep-slice p xs L yield (yield x s).1)

  while-slice :
      (p : A → Bool) (xs : List A) (L : Type 0) (yield : Body W L A) (s : W × L)
      → while (slice xs) (pure p) L yield s ≡ slice (prefix p xs) L yield s
  unfolding slice while prefix
  while-slice p [] L yield s = refl
  while-slice p (x ∷ xs) L yield s = ground (arith, while-slice p xs L yield (yield x s).1)

  -- Keep of a test without effects.
  pub keep-Denotes :
      (seq : Seq W A) (p : A → Bool) (xs : List A)
      → Denotes seq xs
      → Denotes (keep seq (pure p)) (kept p xs)
  unfolding keep
  keep-Denotes seq p xs d = record { runs = λ L yield s. d.runs L _ s ∙ keep-slice p xs L yield s }

  pub while-Denotes :
      (seq : Seq W A) (p : A → Bool) (xs : List A)
      → Denotes seq xs
      → Denotes (while seq (pure p)) (prefix p xs)
  unfolding while
  while-Denotes seq p xs d = record {
    runs = λ L yield s. d.runs L _ s ∙ while-slice p xs L yield s;
  }

  limit-slice :
      (m n c : ℕ) (xs : List A) (L : Type 0) (yield : Body W L A) (s : W × L)
      → m ≡ c + suc n
      → outer (limit_from (slice xs) (pos m) c L yield s) ≡ slice (take (suc n) xs) L yield s
  unfolding slice limit_from
  limit-slice m n c [] L yield s e = refl
  limit-slice m zero c (x ∷ xs) L yield s e = ground arith
  limit-slice m (suc n) c (x ∷ xs) L yield s e =
      ground (arith, limit-slice m n (c + 1) xs L yield (yield x s).1)

  pub limit-pos :
      (seq : Seq W A) (n : ℕ) (L : Type 0) (yield : Body W L A) (s : W × L)
      → limit seq (pos (suc n)) L yield s ≡ outer (limit_from seq (pos (suc n)) 0 L yield s)
  unfolding limit
  limit-pos seq n L yield s = ground arith

  pub limit-zero :
      (seq : Seq W A) (L : Type 0) (yield : Body W L A) (s : W × L)
      → limit seq (pos zero) L yield s ≡ s
  unfolding limit
  limit-zero seq L yield s = ground arith

  pub limit-negsuc :
      (seq : Seq W A) (n : ℕ) (L : Type 0) (yield : Body W L A) (s : W × L)
      → limit seq (negsuc n) L yield s ≡ s
  unfolding limit
  limit-negsuc seq n L yield s = ground arith

  -- Limit yields the first values, none for a limit that is not positive.
  pub limit-Denotes :
      (seq : Seq W A) (n : ℤ) (xs : List A)
      → Denotes seq xs
      → Denotes (limit seq n) (take (pos_part n) xs)
  unfolding limit_from slice
  limit-Denotes seq (negsuc n) xs d = record { runs = λ L yield s. limit-negsuc seq n L yield s }
  limit-Denotes seq (pos zero) xs d = record { runs = λ L yield s. limit-zero seq L yield s }
  limit-Denotes seq (pos (suc n)) xs d = record {
    runs = λ L yield s.
        limit-pos seq n L yield s
        ∙ ap outer (d.runs (L × ℕ) _ (inner s 0))
        ∙ limit-slice (suc n) n 0 xs L yield s (omega arith);
  }

  pub remove-Denotes :
      (seq : Seq W A) (p : A → Bool) (xs : List A)
      → Denotes seq xs
      → Denotes (remove seq (pure p)) (kept (λ x. not (p x)) xs)
  unfolding remove
  remove-Denotes seq p xs d = keep-Denotes seq (λ x. not (p x)) xs d

  pub until-Denotes :
      (seq : Seq W A) (p : A → Bool) (xs : List A)
      → Denotes seq xs
      → Denotes (until seq (pure p)) (prefix (λ x. not (p x)) xs)
  unfolding until
  until-Denotes seq p xs d = while-Denotes seq (λ x. not (p x)) xs d
