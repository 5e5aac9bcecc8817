-- ===== src/Irt/Transform.antt =====
-- The combinators of irt/irt.go that change each value, and the pairs of irt/kv.go.
use fun.Prelude.{
  ℕ, ◌+◌, ◌≡◌, refl, ap, ◌∙◌, Bool, true, List, [], ◌∷◌, map, if◌then◌else◌, arith, Option, none,
  some,
}
use fun.Irt.Lists.{indexed, thread_all}
use fun.Irt.{Op, Body, Seq, pure, slice, Denotes, outer, inner, flush}

-- `KV`
pub record Kv {ℓ κ} (A : Type ℓ) (B : Type κ) : Type (ℓ ⊔ κ) where
  pub key : A
  pub value : B

-- `MakeKV`
abbrev pub make_kv {ℓ κ} : {A : Type ℓ} {B : Type κ} → A → B → Kv A B
make_kv a b = record { key = a; value = b }

module _ {ℓ κ} {W : Type 0} {A : Type ℓ} {B : Type κ} where
  -- `Convert`
  unfoldable pub convert : Seq W A → Op W A B → Seq W B
  convert seq op L yield = seq L λ x s. let r = op x s.0 in yield r.0 (r.1, s.1)

  -- `With`
  unfoldable pub with : Seq W A → Op W A B → Seq W (A × B)
  with seq op L yield = seq L λ x s. let r = op x s.0 in yield (x, r.0) (r.1, s.1)

  -- `WithEach`
  pub with_each : Seq W A → (W → B × W) → Seq W (A × B)
  with_each seq op L yield = seq L λ x s. let r = op s.0 in yield (x, r.0) (r.1, s.1)

  -- `Flip`, `First` and `Second`, by Convert2 and Merge.
  unfoldable pub flip : Seq W (A × B) → Seq W (B × A)
  flip seq L yield = seq L λ p s. yield (p.1, p.0) s

  unfoldable pub first : Seq W (A × B) → Seq W A
  first seq L yield = seq L λ p s. yield p.0 s

  unfoldable pub second : Seq W (A × B) → Seq W B
  second seq L yield = seq L λ p s. yield p.1 s

  -- `KVjoin` and `KVsplit`
  unfoldable pub kv_join : Seq W (A × B) → Seq W (Kv A B)
  kv_join seq L yield = seq L λ p s. yield (make_kv p.0 p.1) s

  pub kv_split : Seq W (Kv A B) → Seq W (A × B)
  kv_split seq L yield = seq L λ e s. yield (e.key, e.value) s

  -- `ResolveWrap`; the functions are values of the sequence.
  pub resolve_wrap : Seq W (Op W A B) → A → Seq W B
  resolve_wrap seq wrapping L yield =
      seq L λ operation s. let r = operation wrapping s.0 in yield r.0 (r.1, s.1)

  pub convert-slice :
      (xs : List A) (f : A → B) (L : Type 0) (yield : Body W L B) (s : W × L)
      → slice xs L (λ x s. yield (f x) s) s ≡ slice (map f xs) L yield s
  unfolding slice
  convert-slice [] f L yield s = refl
  convert-slice (x ∷ xs) f L yield s = ground (arith, convert-slice xs f L yield (yield (f x) s).1)

  pub convert-Denotes :
      (seq : Seq W A) (f : A → B) (xs : List A)
      → Denotes seq xs
      → Denotes (convert seq (pure f)) (map f xs)
  unfolding convert
  convert-Denotes seq f xs d = record {
    runs = λ L yield s. d.runs L _ s ∙ convert-slice xs f L yield s;
  }

module _ {ℓ κ} {W : Type 0} {A : Type ℓ} {B : Type κ} where
  -- The pairs that a function makes, whatever shape it gives them.
  pub with-Denotes :
      (seq : Seq W A) (f : A → B) (xs : List A)
      → Denotes seq xs
      → Denotes (with seq (pure f)) (map (λ x. (x, f x)) xs)
  unfolding with
  with-Denotes seq f xs d = record {
    runs = λ L yield s. d.runs L _ s ∙ convert-slice xs (λ x. (x, f x)) L yield s;
  }

  -- Flip, First and Second of a sequence of pairs.
  pub flip-Denotes :
      (seq : Seq W (A × B)) (ps : List (A × B))
      → Denotes seq ps
      → Denotes (flip seq) (map (λ p. (p.1, p.0)) ps)
  unfolding flip
  flip-Denotes seq ps d = record {
    runs = λ L yield s. d.runs L _ s ∙ convert-slice ps (λ p. (p.1, p.0)) L yield s;
  }

  pub first-Denotes :
      (seq : Seq W (A × B)) (ps : List (A × B))
      → Denotes seq ps
      → Denotes (first seq) (map (λ p. p.0) ps)
  unfolding first
  first-Denotes seq ps d = record {
    runs = λ L yield s. d.runs L _ s ∙ convert-slice ps (λ p. p.0) L yield s;
  }

  pub second-Denotes :
      (seq : Seq W (A × B)) (ps : List (A × B))
      → Denotes seq ps
      → Denotes (second seq) (map (λ p. p.1) ps)
  unfolding second
  second-Denotes seq ps d = record {
    runs = λ L yield s. d.runs L _ s ∙ convert-slice ps (λ p. p.1) L yield s;
  }

  -- A sequence of pairs that is joined and split again is the same function.
  pub kv_split-join : (seq : Seq W (A × B)) → kv_split (kv_join seq) ≡ seq
  unfolding kv_split kv_join
  kv_split-join seq = refl

module _ {ℓ} {W : Type 0} {A : Type ℓ} where
  -- `Resolve`
  pub resolve : Seq W (W → A × W) → Seq W A
  resolve seq L yield = seq L λ operation s. let r = operation s.0 in yield r.0 (r.1, s.1)

  -- `Flush` of a sequence into `yield`, for its effects.
  abbrev pub forward : Seq W A → Seq W A
  forward seq L yield s = (flush seq yield s).1

  -- `Modify`, with `none` for a nil function.
  unfoldable pub modify : Seq W A → Option (Op W A A) → Seq W A
  unfolding convert
  modify seq op = elim op [ none ↦ forward seq | some f ↦ forward (convert seq f) ]

  abbrev lift : Option (A → A) → Option (Op W A A)
  lift none = none
  lift (some f) = some (pure f)

  -- The loop over the operations in `ModifyAll`, which it has rid of the nil ones.
  pub through : List (Op W A A) → Op W A A
  through [] x w = (x, w)
  through (op ∷ ops) x w = let r = op x w in through ops r.0 r.1

  pub operations : List (Option (Op W A A)) → List (Op W A A)
  operations [] = []
  operations (none ∷ ops) = operations ops
  operations (some op ∷ ops) = op ∷ operations ops

  -- `ModifyAll`
  pub modify_all : Seq W A → List (Option (Op W A A)) → Seq W A
  unfolding convert through operations
  modify_all seq ops = elim (operations ops) [
    | [] ↦ forward seq
    | f ∷ fs ↦ forward (convert seq (through (f ∷ fs)))
  ]

  -- `Index`, from a number.
  pub index_from : ℕ → Seq W A → Seq W (ℕ × A)
  index_from n seq L yield s =
      let body : Body W (L × ℕ) A = λ x t.
        let r = yield (t.1.1, x) (outer t) in (r.0, inner r.1 (if r.0 then t.1.1 + 1 else t.1.1)) in
      outer (seq (L × ℕ) body (inner s n))

  -- `Index`
  unfoldable pub index : Seq W A → Seq W (ℕ × A)
  unfolding index_from
  index seq = index_from 0 seq

  flush-slice :
      (xs : List A) (b : Bool) (L : Type 0) (yield : Body W L A) (s : W × L)
      → outer (
          slice xs
            (L × Bool)
            (λ x t. let r = yield x (outer t) in (r.0, inner r.1 r.0))
            (inner s b))
        ≡ slice xs L yield s
  unfolding slice
  flush-slice [] b L yield s = refl
  flush-slice (x ∷ xs) b L yield s = ground (arith, flush-slice xs true L yield (yield x s).1)

  -- Forwarding a sequence changes nothing.
  pub forward-Denotes : (seq : Seq W A) (xs : List A) → Denotes seq xs → Denotes (forward seq) xs
  unfolding flush
  forward-Denotes seq xs d = record {
    runs =
        λ L yield s. ap outer (d.runs (L × Bool) _ (inner s true)) ∙ flush-slice xs true L yield s;
  }

  index-slice :
      (n : ℕ) (xs : List A) (L : Type 0) (yield : Body W L (ℕ × A)) (s : W × L)
      → index_from n (slice xs) L yield s ≡ slice (indexed n xs) L yield s
  unfolding index_from slice indexed
  index-slice n [] L yield s = refl
  index-slice n (x ∷ xs) L yield s =
      ground (arith, index-slice (n + 1) xs L yield (yield (n, x) s).1)

  pub index-Denotes :
      (seq : Seq W A) (xs : List A) → Denotes seq xs → Denotes (index seq) (indexed 0 xs)
  unfolding index index_from
  index-Denotes seq xs d = record {
    runs = λ L yield s. ap outer (d.runs (L × ℕ) _ (inner s 0)) ∙ index-slice 0 xs L yield s;
  }

  through-thread :
      (fs : List (Option (A → A))) (x : A) (w : W)
      → through (operations (map (lift) fs)) x w ≡ (thread_all fs x, w)
  unfolding through operations thread_all
  through-thread [] x w = refl
  through-thread (none ∷ fs) x w = through-thread fs x w
  through-thread (some f ∷ fs) x w = through-thread fs (f x) w
