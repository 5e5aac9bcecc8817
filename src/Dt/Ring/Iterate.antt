-- ===== src/Dt/Ring/Iterate.antt =====
-- The iterators of dt/ring.go on a ring that holds some values.
use fun.Prelude.{
  ℕ, zero, suc, ◌+◌, ◌-◌, ◌≤◌, ◌<◌, ◌≡◌, refl, ap, sym, ◌∙◌, true, false, List, [], ◌∷◌, ◌++◌, some,
  ltb, ◌==◌, arith, length, get_or, drop, Bool-cases, inl, inr,
}
use mathlib.Core.List.{reverse, reverse-cons}
use fun.Dt.Ring.{Ring, after, before, oldest, init, iterate, fifo, lifo}
use fun.Dt.Ring.Holds.{Holds, ahead, oldest-Holds}
use fun.Dt.Ring.Walk.{
  get_or-drop, drop_all, after-ahead, before-ahead, ahead_inj, round_empty, round_full, round_end,
}

module _ {A : Type 0} (z : A) where
  -- Behind the last value there are only empty slots, up to the start.
  empty_end :
      (fuel d : ℕ) (r : Ring A) (x : A) (xs : List A) (from i : ℕ)
      → Holds z r (x ∷ xs)
      → from < r.size
      → ahead r.size r.pos from + suc (length xs) ≤ r.size
      → i < r.size
      → ahead r.size r.pos i + d ≡ ahead r.size r.pos from
      → d < fuel
      → iterate fuel r from (after r) i false ≡ some []
  empty_end zero d r x xs from i h fb fl b e f = absurd (omega (arith, f))
  empty_end (suc fuel) zero r x xs from i h fb fl b e f =
      round_end fuel r from i (after r) (ground (arith, ahead_inj r i from b fb h.within))
  empty_end (suc fuel) (suc d) r x xs from i h fb fl b e f =
      let step = after-ahead r i b h.within h.small in
      let rest =
        empty_end fuel d r x xs from (after r i) h fb fl step.0 (ground arith) (omega arith) in
      let other : (i == from) ≡ false = ground (arith, ahead_inj r i from b fb h.within) in
      ap (iterate (suc fuel) r from (after r) i) (sym other)
      ∙ round_empty fuel (length xs) r from i (after r) [] h.counts b (h.empty i b (omega arith)).0
          rest

  -- From here on the values that have not come yet.
  forward_walk :
      (fuel d : ℕ) (r : Ring A) (x : A) (xs : List A) (from i : ℕ)
      → Holds z r (x ∷ xs)
      → from < r.size
      → ahead r.size r.pos from + suc (length xs) ≤ r.size
      → i < r.size
      → ahead r.size r.pos from ≤ ahead r.size r.pos i
      → ahead r.size r.pos i + suc d ≡ r.size
      → suc (d + ahead r.size r.pos from) < fuel
      → iterate fuel r from (after r) i (i == from)
        ≡ some (drop (ahead r.size r.pos i + suc (length xs) - r.size) (x ∷ xs))
  forward_walk zero d r x xs from i h fb fl b a e f = absurd (omega (arith, f))
  forward_walk (suc fuel) zero r x xs from i h fb fl b a e f =
      let step = after-ahead r i b h.within h.small in
      let rest =
        empty_end fuel (ahead r.size r.pos from) r x xs from (after r i) h fb fl step.0
          (ground arith) (omega arith) in
      let at : ahead r.size r.pos i + suc (length xs) - r.size ≡ length xs = omega arith in
      let one =
        get_or-drop (x ∷ xs) (length xs) z (omega arith) ∙ ap (λ n. drop n (x ∷ xs)) (sym at) in
      let here = h.full i b (omega arith) in
      round_full fuel (length xs) r from i (after r) (get_or (x ∷ xs) (length xs) z) [] h.counts b
        (here.0, here.1 ∙ ap (λ n. get_or (x ∷ xs) n z) at) rest
      ∙ ap some (ap (λ vs. get_or (x ∷ xs) (length xs) z ∷ vs) (sym (drop_all (x ∷ xs))) ∙ one)
  forward_walk (suc fuel) (suc d) r x xs from i h fb fl b a e f =
      let step = after-ahead r i b h.within h.small in
      let far : ahead r.size r.pos (after r i) ≡ suc (ahead r.size r.pos i) = ground arith in
      let away : (after r i == from) ≡ false =
        ground (arith, ahead_inj r (after r i) from step.0 fb h.within) in
      let rest =
        ap (iterate fuel r from (after r) (after r i)) (sym away)
        ∙ forward_walk fuel d r x xs from (after r i) h fb fl step.0 (omega arith) (omega arith)
            (omega arith) in
      let k = ahead r.size r.pos i + suc (length xs) - r.size in
      elim (Bool-cases (ltb (ahead r.size r.pos i + suc (length xs)) r.size)) [
        | inl y ↦
            let l : ahead r.size r.pos i + suc (length xs) < r.size = ground arith in
            let same : ahead r.size r.pos (after r i) + suc (length xs) - r.size ≡ k =
              omega arith in
            round_empty fuel (length xs) r from i (after r) _ h.counts b (h.empty i b l).0 rest
            ∙ ap (λ n. some (drop n (x ∷ xs))) same
        | inr n ↦
            let l : r.size ≤ ahead r.size r.pos i + suc (length xs) = ground arith in
            let next : ahead r.size r.pos (after r i) + suc (length xs) - r.size ≡ suc k =
              omega arith in
            round_full fuel (length xs) r from i (after r) _ _ h.counts b (h.full i b l) rest
            ∙ ap (λ n. some (get_or (x ∷ xs) k z ∷ drop n (x ∷ xs))) next
            ∙ ap some (get_or-drop (x ∷ xs) k z (omega arith))
      ]

  -- The values at these indices, the last first.
  abbrev back_from : List A → ℕ → List A
  back_from xs zero = []
  back_from xs (suc n) = get_or xs n z ∷ back_from xs n

  backward_round :
      (fuel d : ℕ) (r : Ring A) (x : A) (xs : List A) (from i : ℕ)
      → Holds z r (x ∷ xs)
      → i < r.size
      → ahead r.size r.pos i ≡ d
      → iterate fuel r from (before r) (before r i) false
        ≡ some (back_from (x ∷ xs) (d + suc (length xs) - r.size))
      → iterate (suc fuel) r from (before r) i (i == from)
        ≡ some (back_from (x ∷ xs) (suc d + suc (length xs) - r.size))
  backward_round fuel d r x xs from i h b e rest =
      elim (Bool-cases (ltb (d + suc (length xs)) r.size)) [
        | inl y ↦
            let l : ahead r.size r.pos i + suc (length xs) < r.size = ground arith in
            round_empty fuel (length xs) r from i (before r) _ h.counts b (h.empty i b l).0 rest
            ∙ ap (λ n. some (back_from (x ∷ xs) n)) (ground arith)
        | inr n ↦
            let l : r.size ≤ ahead r.size r.pos i + suc (length xs) = ground arith in
            let k : suc d + suc (length xs) - r.size ≡ suc (d + suc (length xs) - r.size) =
              ground arith in
            let at : ahead r.size r.pos i + suc (length xs) - r.size
                ≡ d + suc (length xs) - r.size =
              omega arith in
            let here = h.full i b l in
            round_full fuel (length xs) r from i (before r) _ _ h.counts b
              (here.0, here.1 ∙ ap (λ n. get_or (x ∷ xs) n z) at) rest
            ∙ ap (λ n. some (back_from (x ∷ xs) n)) (sym k)
      ]

  backward_walk :
      (fuel d : ℕ) (r : Ring A) (x : A) (xs : List A) (from i : ℕ)
      → Holds z r (x ∷ xs)
      → i < r.size
      → from < r.size
      → ahead r.size r.pos from + 1 ≡ r.size
      → ahead r.size r.pos i ≡ d
      → suc d < fuel
      → iterate fuel r from (before r) i (i == from)
        ≡ some (back_from (x ∷ xs) (suc d + suc (length xs) - r.size))
  backward_walk zero d r x xs from i h b fb fe e f = absurd (omega (arith, f))
  backward_walk (suc zero) d r x xs from i h b fb fe e f = absurd (omega (arith, f))
  backward_walk (suc (suc fuel)) zero r x xs from i h b fb fe e f =
      let step = before-ahead r i b h.within h.small in
      let start : (before r i == from) ≡ true =
        ground (arith, ahead_inj r (before r i) from step.0 fb h.within) in
      let stop : 0 ≡ 0 + suc (length xs) - r.size = omega (arith, h.fits) in
      backward_round (suc fuel) zero r x xs from i h b e (
        round_end fuel r from (before r i) (before r) start
        ∙ ap (λ n. some (back_from (x ∷ xs) n)) stop)
  backward_walk (suc (suc fuel)) (suc d) r x xs from i h b fb fe e f =
      let step = before-ahead r i b h.within h.small in
      let far : ahead r.size r.pos (before r i) ≡ d = ground arith in
      let less : suc d < r.size = ground (arith, h.within) in
      let away : (before r i == from) ≡ false =
        ground (arith, ahead_inj r (before r i) from step.0 fb h.within) in
      backward_round (suc fuel) (suc d) r x xs from i h b e (
        ap (iterate (suc fuel) r from (before r) (before r i)) (sym away)
        ∙ backward_walk (suc fuel) d r x xs from (before r i) h step.0 fb fe far (omega (arith, f)))

  back_from-cons :
      (x : A) (xs : List A) (n : ℕ) → back_from (x ∷ xs) (suc n) ≡ back_from xs n ++ (x ∷ [])
  back_from-cons x xs zero = refl
  back_from-cons x xs (suc n) = ap (λ vs. get_or xs n z ∷ vs) (back_from-cons x xs n)

  back_from-reverse : (xs : List A) → back_from xs (length xs) ≡ reverse xs
  back_from-reverse [] = refl
  back_from-reverse (x ∷ xs) =
      back_from-cons x xs (length xs)
      ∙ ap (λ ys. ys ++ (x ∷ [])) (back_from-reverse xs)
      ∙ sym (reverse-cons x xs)

  iterate_none :
      (fuel : ℕ) (r : Ring A) (from : ℕ) (advance : ℕ → ℕ)
      → r.count ≡ 0
      → iterate (suc fuel) r from advance from true ≡ some []
  unfolding iterate
  iterate_none fuel r from advance e = ground arith

  fifo_ready :
      (r : Ring A)
      → r.ready ≡ true
      → fifo z r ≡ iterate (suc r.size) r (oldest r) (after r) (oldest r) true
  unfolding fifo init
  fifo_ready r e = ground arith

  lifo_ready :
      (r : Ring A)
      → r.ready ≡ true
      → lifo z r ≡ iterate (suc r.size) r (before r r.pos) (before r) (before r r.pos) true
  unfolding lifo init
  lifo_ready r e = ground arith

  same : (n : ℕ) → true ≡ (n == n)
  same n = ground arith

  -- FIFO yields the values of a ring, the oldest first, and LIFO the newest first, each when it is used
  -- for the first time.
  pub ring_iterators_lem :
      (r : Ring A) (xs : List A)
      → Holds z r xs
      → (fifo z r ≡ some xs) × (lifo z r ≡ some (reverse xs))
  ring_iterators_lem r [] h = (
    fifo_ready r h.ready ∙ iterate_none r.size r (oldest r) (after r) h.counts,
    lifo_ready r h.ready ∙ iterate_none r.size r (before r r.pos) (before r) h.counts,
  )
  ring_iterators_lem r (x ∷ xs) h =
      let o = oldest-Holds z r (x ∷ xs) h in
      let from = oldest r in
      let d = r.size - suc (ahead r.size r.pos from) in
      let start : ahead r.size r.pos from + suc (length xs) - r.size ≡ 0 = omega (arith, o.1) in
      let last = before-ahead r r.pos h.within h.within h.small in
      let far : ahead r.size r.pos (before r r.pos) ≡ r.size - 1 = ground arith in
      let all : suc (r.size - 1) + suc (length xs) - r.size ≡ suc (length xs) =
        omega (arith, h.two) in
      (
        fifo_ready r h.ready
            ∙ ap (iterate (suc r.size) r from (after r) from) (same from)
            ∙ forward_walk (suc r.size) d r x xs from from h o.0 o.1 o.0 (omega arith)
                (omega (arith, o.1)) (omega (arith, o.1))
            ∙ ap (λ n. some (drop n (x ∷ xs))) start,
        lifo_ready r h.ready
            ∙ ap (iterate (suc r.size) r (before r r.pos) (before r) (before r r.pos))
                (same (before r r.pos))
            ∙ backward_walk (suc r.size) (r.size - 1) r x xs (before r r.pos) (before r r.pos) h
                last.0 last.0 (omega (arith, h.two)) far (omega (arith, h.two))
            ∙ ap (λ n. some (back_from (x ∷ xs) n)) all
            ∙ ap some (back_from-reverse (x ∷ xs)),
      )
