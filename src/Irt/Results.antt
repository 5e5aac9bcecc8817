-- ===== src/Irt/Results.antt =====
-- What the functions of Consume.antt give for a sequence of known values.
use fun.Prelude.{
  ℕ, zero, suc, ◌+◌, ◌≡◌, refl, ap, sym, ◌∙◌, Bool, true, false, List, [], ◌∷◌, ◌++◌, take, length,
  arith, Option, none, some,
}
use mathlib.Core.List.{append_assoc, append-nil}
use fun.Prelude.Int.{ℤ, pos, negsuc, pos_part}
use fun.Irt.Lists.{head_of, last_of, fold_left, each, some_pass, first_error, first_no}
use fun.Irt.{Op, Seq, pure, slice, Denotes, within, within-Denotes}
use fun.Irt.Filter.{notf}
use fun.Irt.Consume.{
  collect, first_n_from, collect_first_n, initial, final, apply, apply_while, apply_unless,
  apply_until, count, reduce, contains, result,
}

module _ {W A : Type 0} where
  collect-slice :
      (xs out : List A) (w : W)
      → slice xs (List A) (λ x s. (true, (s.0, s.1 ++ (x ∷ [])))) (w, out) ≡ (w, out ++ xs)
  unfolding slice
  collect-slice [] out w =
      ap (λ (r : List A). let t : W × List A = (w, r) in t) (sym (append-nil out))
  collect-slice (x ∷ xs) out w =
      collect-slice xs (out ++ (x ∷ [])) w
      ∙ ap (λ (r : List A). let t : W × List A = (w, r) in t) (append_assoc out (x ∷ []) xs)

  first_n-slice :
      (m n : ℕ) (xs out : List A) (idx : ℕ) (w : W)
      → m ≡ idx + suc n
      → first_n_from (slice xs) (pos m) out idx w ≡ (out ++ take (suc n) xs, w)
  unfolding slice first_n_from
  first_n-slice m n [] out idx w e = ground (arith, append-nil out)
  first_n-slice m zero (x ∷ xs) out idx w e = ground arith
  first_n-slice m (suc n) (x ∷ xs) out idx w e = ground (
    arith,
    first_n-slice m n xs (out ++ (x ∷ [])) (idx + 1) w,
    append_assoc out (x ∷ []) (take (suc n) xs),
  )

  each_same : (xs : List A) (w : W) → each (λ x u. u) xs w ≡ w
  unfolding each
  each_same [] w = refl
  each_same (x ∷ xs) w = each_same xs w

  reduce-slice :
      {B : Type 0} (f : B → A → B) (b : B) (xs : List A) (w : W)
      → slice xs B (λ x s. (true, (s.0, f s.1 x))) (w, b) ≡ (w, fold_left f b xs)
  unfolding slice fold_left
  reduce-slice f b [] w = refl
  reduce-slice f b (x ∷ xs) w = reduce-slice f (f b x) xs w

  contains_no :
      (eq : A → A → Bool) (c : A) (xs : List A) (w : W)
      → (first_no (notf (λ x (u : W × Bool). let ok = eq c x in (ok, (u.0, ok)))) xs (w, false)).1
        ≡ (w, some_pass (eq c) xs)
  unfolding first_no some_pass
  contains_no eq c [] w = refl
  contains_no eq c (x ∷ xs) w = ground (arith, contains_no eq c xs w)

  final-slice :
      (xs : List A) (o : Option A) (w : W)
      → slice xs (Option A) (λ x s. (true, (s.0, some x))) (w, o) ≡ (w, last_of xs o)
  unfolding slice last_of
  final-slice [] o w = refl
  final-slice (x ∷ xs) o w = final-slice xs (some x) w

  initial-slice :
      (xs : List A) (w : W)
      → slice xs (Option A) (λ x s. (false, (s.0, some x))) (w, none) ≡ (w, head_of xs)
  unfolding slice head_of
  initial-slice [] w = refl
  initial-slice (x ∷ xs) w = refl

  apply-slice :
      (op : A → W → W) (xs : List A) (k : ℕ) (w : W)
      → slice xs ℕ (λ x s. (true, (op x s.0, s.1 + 1))) (w, k) ≡ (each op xs w, k + length xs)
  unfolding slice each
  apply-slice op [] k w = ground arith
  apply-slice op (x ∷ xs) k w = ground (arith, apply-slice op xs (k + 1) (op x w))

  while-slice :
      (op : Op W A Bool) (xs : List A) (k : ℕ) (w : W)
      → slice xs ℕ (λ x s. let r = op x s.0 in (r.0, (r.1, s.1 + 1))) (w, k)
        ≡ ((first_no op xs w).1, k + (first_no op xs w).0)
  unfolding slice first_no
  while-slice op [] k w = ground arith
  while-slice op (x ∷ xs) k w = ground (arith, while-slice op xs (k + 1) (op x w).1)

  until-slice :
      {E : Type 0} (op : Op W A (Option E)) (xs : List A) (w : W)
      → slice xs
          (Option E)
          (λ x s.
            let r = op x s.0 in
            elim r.0 [ none ↦ (true, (r.1, s.1)) | some e ↦ (false, (r.1, some e)) ])
          (w, none)
        ≡ ((first_error op xs w).1, (first_error op xs w).0)
  unfolding slice first_error
  until-slice op [] w = refl
  until-slice op (x ∷ xs) w = ground (arith, until-slice op xs (op x w).1)

  first_n-pos :
      (seq : Seq W A) (n : ℕ) (w : W)
      → collect_first_n seq (pos (suc n)) w ≡ first_n_from seq (pos (suc n)) [] 0 w
  unfolding collect_first_n
  first_n-pos seq n w = ground arith

  first_n-no : (seq : Seq W A) (n : ℤ) (w : W) → pos_part n ≡ 0 → collect_first_n seq n w ≡ ([], w)
  unfolding collect_first_n
  first_n-no seq (pos n) w e = ground arith
  first_n-no seq (negsuc n) w e = ground arith

  first_n-Denotes :
      (seq : Seq W A) (n : ℤ) (xs : List A) (w : W)
      → Denotes seq xs
      → collect_first_n seq n w ≡ (take (pos_part n) xs, w)
  unfolding first_n_from
  first_n-Denotes seq (negsuc n) xs w d = first_n-no seq (negsuc n) w refl
  first_n-Denotes seq (pos zero) xs w d = first_n-no seq (pos zero) w refl
  first_n-Denotes seq (pos (suc n)) xs w d =
      first_n-pos seq n w
      ∙ ap (λ (t : W × (List A × ℕ)). let r : List A × W = (t.1.0, t.0) in r)
          (d.runs (List A × ℕ) _ (w, ([], 0)))
      ∙ first_n-slice (suc n) n xs [] 0 w (omega arith)

  pub collect-Denotes :
      (seq : Seq W A) (xs : List A) (w : W) → Denotes seq xs → collect seq w ≡ (xs, w)
  unfolding collect
  collect-Denotes seq xs w d = ap result (d.runs (List A) _ (w, []) ∙ collect-slice xs [] w)

  pub apply-Denotes :
      (seq : Seq W A) (xs : List A) (w : W) (op : A → W → W)
      → Denotes seq xs
      → apply seq op w ≡ (length xs, each op xs w)
  unfolding apply
  apply-Denotes seq xs w op d = ap result (d.runs ℕ _ (w, 0) ∙ apply-slice op xs 0 w) ∙ ground arith

  apply_while-Denotes :
      (seq : Seq W A) (xs : List A) (w : W) (test : Op W A Bool)
      → Denotes seq xs
      → apply_while seq test w ≡ first_no test xs w
  unfolding apply_while
  apply_while-Denotes seq xs w test d =
      ap result (d.runs ℕ _ (w, 0) ∙ while-slice test xs 0 w) ∙ ground arith

module _ {W A : Type 0} where
  contains-Denotes :
      (seq : Seq W A) (xs : List A) (w : W) (eq : A → A → Bool) (c : A)
      → Denotes seq xs
      → contains eq seq c w ≡ (some_pass (eq c) xs, w)
  unfolding contains apply_unless
  contains-Denotes seq xs w eq c d =
      ap (λ r. result r.1)
        (apply_while-Denotes (within seq) xs (w, false)
          (notf (λ x (u : W × Bool). let ok = eq c x in (ok, (u.0, ok)))) (within-Denotes seq xs d))
      ∙ ap result (contains_no eq c xs w)

  -- What the functions give that look at the values of a sequence, and leave the world as it is: all
  -- the values, the first ones, the very first and the last, how many there are, their fold, whether
  -- one is equal to a given one, and whether there are any.
  pub consume_lem :
      (seq : Seq W A) (xs : List A) (w : W) (n : ℤ) (eq : A → A → Bool) (c : A) {B : Type 0}
      (f : B → A → B) (b : B)
      → Denotes seq xs
      → (collect seq w ≡ (xs, w))
        × (collect_first_n seq n w ≡ (take (pos_part n) xs, w))
        × (initial seq w ≡ (head_of xs, w))
        × (final seq w ≡ (last_of xs none, w))
        × (count seq w ≡ (length xs, w))
        × (reduce b seq (λ r. pure (f r)) w ≡ (fold_left f b xs, w))
        × (contains eq seq c w ≡ (some_pass (eq c) xs, w))
  unfolding initial final count reduce
  consume_lem seq xs w n eq c {B} f b d = (
    collect-Denotes seq xs w d,
    first_n-Denotes seq n xs w d,
    ap result (d.runs (Option A) _ (w, none) ∙ initial-slice xs w),
    ap result (d.runs (Option A) _ (w, none) ∙ final-slice xs none w),
    apply-Denotes seq xs w (λ x u. u) d
        ∙ ap (λ (u : W). let r : ℕ × W = (length xs, u) in r) (each_same xs w),
    ap result (d.runs B _ (w, b) ∙ reduce-slice f b xs w),
    contains-Denotes seq xs w eq c d,
  )

  -- What the functions do that call another with the values in turn: Apply with all of them, ApplyWhile
  -- up to the first that says no, and ApplyUntil up to the first error. Nothing is called after that,
  -- and the effects are those of the calls.
  pub apply_lem :
      (seq : Seq W A) (xs : List A) (w : W) (op : A → W → W) (test : Op W A Bool) {E : Type 0}
      (try : Op W A (Option E))
      → Denotes seq xs
      → (apply seq op w ≡ (length xs, each op xs w))
        × (apply_while seq test w ≡ first_no test xs w)
        × (apply_until seq try w ≡ first_error try xs w)
  unfolding apply_until
  apply_lem seq xs w op test {E} try d = (
    apply-Denotes seq xs w op d,
    apply_while-Denotes seq xs w test d,
    ap result (d.runs (Option E) _ (w, none) ∙ until-slice try xs w),
  )
