-- ===== src/Irt/Generate.antt =====
-- The sequences of irt/irt.go that come from a function or from numbers. A loop that ends only when
-- `yield` says no is given fuel; what it does with enough of it is proved.
use fun.Prelude.{
  ℕ, zero, suc, ◌+◌, ◌≤◌, ◌<◌, ◌≡◌, refl, ◌∙◌, Bool, true, false, not, List, [], ◌∷◌, if◌then◌else◌,
  arith, Option, none, some,
}
use fun.Prelude.Int.{ℤ, pos, negsuc, pos_part, leb_ℤ, eqb_ℤ, ◌+ℤ◌}
use fun.Irt.{Op, Body, Seq, slice, Denotes, outer}
use fun.Irt.Filter.{limit, limit_from, limit-pos, limit-zero, limit-negsuc, while}

module _ {ℓ} {W : Type 0} {A : Type ℓ} where
  -- `Generate`
  pub generate : ℕ → (W → A × W) → Seq W A
  generate zero op L yield s = s
  generate (suc fuel) op L yield s =
      let v = op s.0 in
      let r = yield v.0 (v.1, s.1) in
      let rest = generate fuel op L yield r.1 in if r.0 then rest else r.1

  -- `GenerateN`, with the rounds that are left.
  generate_rounds : ℕ → (W → A × W) → Seq W A
  generate_rounds zero op L yield s = s
  generate_rounds (suc n) op L yield s =
      let v = op s.0 in
      let r = yield v.0 (v.1, s.1) in
      let rest = generate_rounds n op L yield r.1 in if r.0 then rest else r.1

  pub generate_n : ℤ → (W → A × W) → Seq W A
  unfolding generate_rounds
  generate_n num op = generate_rounds (pos_part num) op

  -- `GenerateOk`, with `none` for not ok.
  pub generate_ok : ℕ → (W → Option A × W) → Seq W A
  generate_ok zero gen L yield s = s
  generate_ok (suc fuel) gen L yield s =
      let v = gen s.0 in
      elim v.0 [
        | none ↦ (v.1, s.1)
        | some x ↦
            let r = yield x (v.1, s.1) in
            let rest = generate_ok fuel gen L yield r.1 in if r.0 then rest else r.1
      ]

  -- `GenerateWhile`
  pub generate_while : ℕ → (W → A × W) → Op W A Bool → Seq W A
  unfolding generate
  generate_while fuel op prd = while (generate fuel op) prd

module _ {W : Type 0} where
  -- `MonotonicFrom`
  pub monotonic_from : ℕ → ℤ → Seq W ℤ
  monotonic_from zero start L yield s = s
  monotonic_from (suc fuel) start L yield s =
      let r = yield start s in
      let rest = monotonic_from fuel (start +ℤ pos 1) L yield r.1 in if r.0 then rest else r.1

  -- `Monotonic`
  pub monotonic : ℕ → Seq W ℤ
  unfolding monotonic_from
  monotonic fuel = monotonic_from fuel (pos 1)

  -- `Range`
  pub range : ℕ → ℤ → ℤ → Seq W ℤ
  range zero next end L yield s = s
  range (suc fuel) next end L yield s =
      let r = yield next s in
      let rest = range fuel (next +ℤ pos 1) end L yield r.1 in
      if leb_ℤ next end then (if not r.0 then r.1 else if eqb_ℤ next end then r.1 else rest) else s

-- So many integers, from one on.
unfoldable pub up_from : ℤ → ℕ → List ℤ
up_from start zero = []
up_from start (suc n) = start ∷ up_from (start +ℤ pos 1) n

module _ {ℓ} {W : Type 0} {A : Type ℓ} where
  limit-rounds :
      (m n c fuel : ℕ) (op : W → A × W) (L : Type 0) (yield : Body W L A) (s : W × L)
      → m ≡ c + suc n
      → n < fuel
      → outer (limit_from (generate fuel op) (pos m) c L yield s)
        ≡ generate_rounds (suc n) op L yield s
  unfolding generate generate_rounds limit_from
  limit-rounds m n c zero op L yield s e l = absurd (omega (arith, l))
  limit-rounds m zero c (suc fuel) op L yield s e l = ground arith
  limit-rounds m (suc n) c (suc fuel) op L yield s e l =
      let v = op s.0 in
      ground (arith, limit-rounds m n (c + 1) fuel op L yield (yield v.0 (v.1, s.1)).1)

  -- A limit on the endless sequence of a function's results is the sequence of so many of its results:
  -- the function is called no more often than its results are asked for. Fuel that is as large as the
  -- limit is enough.
  pub limit-generate :
      (n : ℤ) (fuel : ℕ) (op : W → A × W) (L : Type 0) (yield : Body W L A) (s : W × L)
      → pos_part n ≤ fuel
      → limit (generate fuel op) n L yield s ≡ generate_n n op L yield s
  unfolding generate_n generate_rounds
  limit-generate (negsuc n) fuel op L yield s l = limit-negsuc (generate fuel op) n L yield s
  limit-generate (pos zero) fuel op L yield s l = limit-zero (generate fuel op) L yield s
  limit-generate (pos (suc n)) fuel op L yield s l =
      limit-pos (generate fuel op) n L yield s
      ∙ limit-rounds (suc n) n 0 fuel op L yield s (omega arith) (omega (arith, l))

below-end : (start end : ℤ) (n : ℕ) → start +ℤ pos n ≡ end → leb_ℤ start end ≡ true
unfolding ◌+ℤ◌
below-end start end n e = ground arith

above-end : (start : ℤ) (n : ℕ) → leb_ℤ start (start +ℤ negsuc n) ≡ false
unfolding ◌+ℤ◌
above-end start n = ground arith

at-end : (start end : ℤ) → start +ℤ pos 0 ≡ end → eqb_ℤ start end ≡ true
unfolding ◌+ℤ◌
at-end start end e = ground arith

before-end : (start end : ℤ) (n : ℕ) → start +ℤ pos (suc n) ≡ end → eqb_ℤ start end ≡ false
unfolding ◌+ℤ◌
before-end start end n e = ground arith

step-end : (start end : ℤ) (n : ℕ) → start +ℤ pos (suc n) ≡ end → start +ℤ pos 1 +ℤ pos n ≡ end
unfolding ◌+ℤ◌
step-end start end n e = ground arith

module _ {W : Type 0} where
  range-slice :
      (n fuel : ℕ) (start end : ℤ) (L : Type 0) (yield : Body W L ℤ) (s : W × L)
      → start +ℤ pos n ≡ end
      → n < fuel
      → range fuel start end L yield s ≡ slice (up_from start (suc n)) L yield s
  unfolding range slice up_from
  range-slice n zero start end L yield s e l = absurd (omega (arith, l))
  range-slice zero (suc fuel) start end L yield s e l =
      ground (arith, below-end start end 0 e, at-end start end e)
  range-slice (suc n) (suc fuel) start end L yield s e l =
      let rest =
        range-slice n fuel (start +ℤ pos 1) end L yield (yield start s).1 (step-end start end n e)
          (omega arith) in
      simp (below-end start end (suc n) e, before-end start end n e) (ground (arith, rest))

  range-none :
      (n fuel : ℕ) (start : ℤ) (L : Type 0) (yield : Body W L ℤ) (s : W × L)
      → range fuel start (start +ℤ negsuc n) L yield s ≡ s
  unfolding range
  range-none n zero start L yield s = refl
  range-none n (suc fuel) start L yield s = ground (arith, above-end start n)

  -- Range yields the integers from its start to its end, both included, and none if the end is below
  -- the start. Fuel for each of them is enough.
  pub range_lem :
      (n fuel : ℕ) (start : ℤ)
      → n < fuel
      → Denotes {W = W} (range fuel start (start +ℤ pos n)) (up_from start (suc n))
        × Denotes {W = W} (range fuel start (start +ℤ negsuc n)) []
  unfolding slice
  range_lem n fuel start l = (
    record { runs = λ L yield s. range-slice n fuel start (start +ℤ pos n) L yield s refl l },
    record { runs = λ L yield s. range-none n fuel start L yield s },
  )
