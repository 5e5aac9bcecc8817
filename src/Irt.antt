-- ===== src/Irt.antt =====
-- irt/irt.go: sequences, `iter.Seq[T]`, over the state `W` of the world. A sequence is a function that
-- calls `yield` with its values in turn and stops when that returns false. A `for range` loop is a call
-- with the loop's body as `yield`; what the body assigns is put beside the world, in the local state.
-- A function that a combinator takes is an `Op`: it may change the world.
pub mod Chain
pub mod Consume
pub mod Filter
pub mod Generate
pub mod Group
pub mod Lists
pub mod Pairs
pub mod Pull
pub mod Results
pub mod Sink
mod Tests
pub mod Transform
pub mod Unique
use fun.Prelude.{◌≡◌, refl, ap, ◌∙◌, arith, Bool, true, false, List, [], ◌∷◌, if◌then◌else◌}

abbrev pub Op {ℓ κ} : Type 0 → Type ℓ → Type κ → Type (ℓ ⊔ κ)
Op W A B = A → W → B × W

-- A body of a loop, with the local state `L`; it says whether to go on.
abbrev pub Body {ℓ} : Type 0 → Type 0 → Type ℓ → Type ℓ
Body W L A = A → W × L → Bool × (W × L)

-- `iter.Seq[T]`; a `Seq2` is one of pairs.
abbrev pub Seq {ℓ} : Type 0 → Type ℓ → Type (ℓ ⊔ 1)
Seq W A = (L : Type 0) → Body W L A → W × L → W × L

-- A function without effects.
abbrev pub pure {ℓ κ} : {W : Type 0} {A : Type ℓ} {B : Type κ} → (A → B) → Op W A B
pure f a w = (f a, w)

module _ {ℓ} {W : Type 0} {A : Type ℓ} where
  -- `slices.Values`, and so `Slice`.
  unfoldable pub slice : List A → Seq W A
  slice [] L yield s = s
  slice (x ∷ xs) L yield s =
      let r = yield x s in let rest = slice xs L yield r.1 in if r.0 then rest else r.1

  -- The sequence yields these values, has no effects of its own, and heeds a yield that says no.
  pub record Denotes (seq : Seq W A) (xs : List A) : Type (ℓ ⊔ 1) where
    pub runs : (L : Type 0) (yield : Body W L A) (s : W × L) → seq L yield s ≡ slice xs L yield s

-- The world and the local state of the loop around, and the state with one more local variable.
abbrev pub outer : {W L M : Type 0} → W × (L × M) → W × L
outer s = (s.0, s.1.0)

abbrev pub inner : {W L M : Type 0} → W × L → M → W × (L × M)
inner s m = (s.0, (s.1, m))

module _ {ℓ} {W : Type 0} {A : Type ℓ} where
  -- A loop over a sequence from which the body returns: whether it ran to the end. So `Flush`.
  unfoldable pub flush : Seq W A → {L : Type 0} → Body W L A → W × L → Bool × (W × L)
  flush seq {L} yield s =
      let body : Body W (L × Bool) A = λ x t. let r = yield x (outer t) in (r.0, inner r.1 r.0) in
      let t = seq (L × Bool) body (inner s true) in (t.1.1, outer t)

module _ {ℓ} {W M : Type 0} {A : Type ℓ} where
  -- A sequence in a world with one more variable, which it does not touch.
  unfoldable pub within : Seq W A → Seq (W × M) A
  within seq L yield s =
      let body : Body W (L × M) A =
        λ x t. let r = yield x ((t.0, t.1.1), t.1.0) in (r.0, (r.1.0.0, (r.1.1, r.1.0.1))) in
      let t = seq (L × M) body (s.0.0, (s.1, s.0.1)) in ((t.0, t.1.1), t.1.0)

  -- A sequence whose functions share a variable, which starts anew at each call.
  unfoldable pub local : M → Seq (W × M) A → Seq W A
  local m seq L yield s =
      let body : Body (W × M) L A =
        λ x t. let r = yield x (t.0.0, t.1) in (r.0, ((r.1.0, t.0.1), r.1.1)) in
      let t = seq L body ((s.0, m), s.1) in (t.0.0, t.1)

  within-slice :
      (xs : List A) (L : Type 0) (yield : Body (W × M) L A) (s : (W × M) × L)
      → within (slice xs) L yield s ≡ slice xs L yield s
  unfolding within slice
  within-slice [] L yield s = refl
  within-slice (x ∷ xs) L yield s = ground (arith, within-slice xs L yield (yield x s).1)

  pub within-Denotes : (seq : Seq W A) (xs : List A) → Denotes seq xs → Denotes (within seq) xs
  unfolding within
  within-Denotes seq xs d = record {
    runs = λ L yield s.
        ap (λ (t : W × (L × M)). let u : (W × M) × L = ((t.0, t.1.1), t.1.0) in u)
          (d.runs (L × M) _ (s.0.0, (s.1, s.0.1)))
        ∙ within-slice xs L yield s;
  }
