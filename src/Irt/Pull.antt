-- ===== src/Irt/Pull.antt =====
-- The functions of irt/irt.go that run two sequences side by side. iter.Pull (package iter of the
-- standard library) is the list of the values that are still to be pulled, for a sequence without
-- effects of its own.
use fun.Prelude.{◌≡◌, ◌↔◌, refl, ap, Bool, true, false, not, List, [], ◌∷◌, if◌then◌else◌, arith}
use fun.Irt.Lists.{Comparable}
use fun.Irt.{Body, Seq, slice, Denotes}
use fun.Irt.Consume.{collect}
use fun.Irt.Results.{collect-Denotes}

module _ {W A : Type 0} where
  -- `iter.Pull`
  pub pull : Seq W A → W → List A
  pull seq w = (collect seq w).0

  pull-Denotes : (seq : Seq W A) (xs : List A) (w : W) → Denotes seq xs → pull seq w ≡ xs
  unfolding pull
  pull-Denotes seq xs w d = ap (λ (r : List A × W). r.0) (collect-Denotes seq xs w d)

module _ {W A B : Type 0} where
  -- The loop of `Zip`.
  pub zip_loop : List A → List B → Seq W (A × B)
  zip_loop [] ys L yield s = s
  zip_loop (x ∷ xs) [] L yield s = s
  zip_loop (x ∷ xs) (y ∷ ys) L yield s =
      let r = yield (x, y) s in
      let rest = zip_loop xs ys L yield r.1 in if not r.0 then r.1 else rest

  -- `Zip`
  pub zip : Seq W A → Seq W B → Seq W (A × B)
  unfolding zip_loop
  zip rh lh L yield s = zip_loop (pull rh s.0) (pull lh s.0) L yield s

-- The pairs of the values at the same positions.
unfoldable pub paired : {A B : Type 0} → List A → List B → List (A × B)
paired [] ys = []
paired (x ∷ xs) [] = []
paired (x ∷ xs) (y ∷ ys) = (x, y) ∷ paired xs ys

module _ {A : Type 0} (c : Comparable A) where
  -- The loop of `Equal`.
  pub equal_loop : List A → List A → Bool
  equal_loop [] [] = true
  equal_loop [] (y ∷ ys) = false
  equal_loop (x ∷ xs) [] = false
  equal_loop (x ∷ xs) (y ∷ ys) =
      let rest = equal_loop xs ys in if not (c.eq x y) then false else rest

  -- `Equal`
  pub equal : {W : Type 0} → Seq W A → Seq W A → W → Bool
  unfolding equal_loop
  equal rh lh w = equal_loop (pull rh w) (pull lh w)

  equal_loop_iff : (xs ys : List A) → (equal_loop xs ys ≡ true) ↔ (xs ≡ ys)
  unfolding equal_loop
  equal_loop_iff [] [] = ground arith
  equal_loop_iff [] (y ∷ ys) = ground arith
  equal_loop_iff (x ∷ xs) [] = ground arith
  equal_loop_iff (x ∷ xs) (y ∷ ys) = ground (arith, equal_loop_iff xs ys, c.eq_iff x y)

  -- Equal says whether the sequences have the same values in the same order.
  pub equal_lem :
      {W : Type 0} (rh lh : Seq W A) (xs ys : List A) (w : W)
      → Denotes rh xs
      → Denotes lh ys
      → (equal rh lh w ≡ true) ↔ (xs ≡ ys)
  unfolding equal
  equal_lem rh lh xs ys w d e =
      rw (equal, pull-Denotes rh xs w d, pull-Denotes lh ys w e) (equal_loop_iff xs ys)

module _ {W A B : Type 0} where
  zip-slice :
      (xs : List A) (ys : List B) (L : Type 0) (yield : Body W L (A × B)) (s : W × L)
      → zip_loop xs ys L yield s ≡ slice (paired xs ys) L yield s
  unfolding zip_loop slice paired
  zip-slice [] ys L yield s = refl
  zip-slice (x ∷ xs) [] L yield s = refl
  zip-slice (x ∷ xs) (y ∷ ys) L yield s = ground (arith, zip-slice xs ys L yield (yield (x, y) s).1)

  -- Zip yields the pairs of the values at the same positions, as many as the shorter sequence has.
  pub zip-Denotes :
      (rh : Seq W A) (lh : Seq W B) (xs : List A) (ys : List B)
      → Denotes rh xs
      → Denotes lh ys
      → Denotes (zip rh lh) (paired xs ys)
  unfolding zip
  zip-Denotes rh lh xs ys d e = record {
    runs = λ L yield s.
        rw (zip, pull-Denotes rh xs s.0 d, pull-Denotes lh ys s.0 e) (zip-slice xs ys L yield s);
  }
