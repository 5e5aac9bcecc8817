-- ===== src/Strut/Replace/Same.antt =====
-- `replaceInPlace` of strut/mut.go for a text as long as the old one.
use fun.Prelude.{
  ℕ, zero, suc, ◌+◌, ◌≤◌, ◌<◌, ◌≡◌, sym, ap, ◌∙◌, inl, inr, List, ◌++◌, Option, length,
  length-append, length-take, length-drop, take, drop, take-append-drop, arith, Bool-cases,
  Option-cases,
}
use mathlib.Core.List.{append_assoc}
use fun.Prelude.Int.{ℤ}
use fun.Strut.Replace.{copy_at, room, same_loop}
use fun.Strut.Replace.Lists.{take-front, drop-front, drop-drop, take-add, copy_at-middle}
use fun.Strut.Replace.Matches.{Finds, within, replaced_from}

module _ {A : Type 0} (index : List A → List A → Option ℕ) (finds : Finds index) (old new : List A)
    (n : ℤ) (some_old : 0 < length old) where
  copied :
      (s : List A) (p : ℕ)
      → p + length new ≤ length s
      → copy_at s p new ≡ take p s ++ (new ++ drop (p + length new) s)
  copied s p h =
      let w = length new in
      let parts : s ≡ take p s ++ (take w (drop p s) ++ drop (p + w) s) =
        sym (take-append-drop p s)
        ∙ ap (λ r. take p s ++ r)
            (sym (take-append-drop w (drop p s))
              ∙ ap (λ r. take w (drop p s) ++ r) (drop-drop p w s)) in
      ap (λ t. copy_at t p new) parts
      ∙ copy_at-middle (take p s) (take w (drop p s)) (drop (p + w) s) new p
          (omega (arith, length-take p s))
          (omega (arith, length-take w (drop p s), length-drop p s))

  copy_length :
      (s : List A) (p : ℕ) → p + length new ≤ length s → length (copy_at s p new) ≡ length s
  copy_length s p h = omega (
    arith,
    ap length (copied s p h),
    length-append (take p s) (new ++ drop (p + length new) s),
    length-append new (drop (p + length new) s),
    length-take p s,
    length-drop (p + length new) s,
  )

  -- One replacement of the same length, and the rest of the loop behind it.
  same_step :
      (start i : ℕ) (s : List A) (rest : List A → List A)
      → length old ≡ length new
      → i + length old ≤ length (drop start s)
      → take (i + start + length new) (copy_at s (i + start) new)
          ++ rest (drop (i + start + length new) (copy_at s (i + start) new))
        ≡ take start s
          ++ (take i (drop start s) ++ (new ++ rest (drop (i + length old) (drop start s))))
  same_step start i s rest l h =
      let p = i + start in
      let w = length new in
      let q : p + w ≤ length s = omega (arith, length-drop start s, h, l) in
      let made : copy_at s p new ≡ (take p s ++ new) ++ drop (p + w) s =
        copied s p q ∙ sym (append_assoc (take p s) new (drop (p + w) s)) in
      let size : length (take p s ++ new) ≡ p + w =
        omega (arith, length-append (take p s) new, length-take p s, q) in
      let places : p + w ≡ start + (i + length old) = omega (arith, l) in
      let front : take (p + w) (copy_at s p new) ≡ take p s ++ new =
        ap (take (p + w)) made ∙ take-front (take p s ++ new) (drop (p + w) s) (p + w) size in
      let behind : drop (p + w) (copy_at s p new) ≡ drop (i + length old) (drop start s) =
        ap (drop (p + w)) made
        ∙ drop-front (take p s ++ new) (drop (p + w) s) (p + w) size
        ∙ ap (λ j. drop j s) places
        ∙ sym (drop-drop start (i + length old) s) in
      let swap : p ≡ start + i = omega arith in
      let head : take p s ≡ take start s ++ take i (drop start s) =
        ap (λ j. take j s) swap ∙ take-add start i s in
      let d = drop (i + length old) (drop start s) in
      ap (λ t. t ++ rest (drop (p + w) (copy_at s p new))) front
      ∙ ap (λ t. (take p s ++ new) ++ rest t) behind
      ∙ append_assoc (take p s) new (rest d)
      ∙ ap (λ t. t ++ (new ++ rest d)) head
      ∙ append_assoc (take start s) (take i (drop start s)) (new ++ rest d)

  -- The loop for a text as long as the old one.
  pub same_loop_lem :
      (fuel k start : ℕ) (s : List A)
      → length old ≡ length new
      → start ≤ length s
      → same_loop index old new n fuel k start s
        ≡ take start s ++ replaced_from index old new n fuel k (drop start s)
  unfolding same_loop replaced_from
  same_loop_lem zero k start s l h = sym (take-append-drop start s)
  same_loop_lem (suc fuel) k start s l h = elim (Bool-cases (room n k)) [
    | inr f ↦ ground (arith, f, take-append-drop start s)
    | inl r ↦ elim (Option-cases (index (drop start s) old)) [
      | inl e ↦ ground (arith, r, e, take-append-drop start s)
      | inr (i, e) ↦
          let inside = within index finds old new n some_old (drop start s) i e in
          let s' = copy_at s (i + start) new in
          let q = i + start + length new in
          let size : length s' ≡ length s =
            copy_length s (i + start) (omega (arith, inside, length-drop start s, l)) in
          let loop =
            same_loop_lem fuel (k + 1) q s' l
              (omega (arith, inside, length-drop start s, l, size)) in
          let step = same_step start i s (replaced_from index old new n fuel (k + 1)) l inside in
          rw r (rw e (loop ∙ step))
    ]
  ]
