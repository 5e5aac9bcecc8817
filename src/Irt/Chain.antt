-- ===== src/Irt/Chain.antt =====
-- The combinators of irt/irt.go that yield the values of several sequences in turn: Chain and what is
-- made of it.
use fun.Prelude.{
  ◌≡◌, refl, ap, ◌∙◌, Bool, true, false, List, [], ◌∷◌, ◌++◌, map, if◌then◌else◌, arith, Option,
  none, some,
}
use fun.Irt.{Body, Seq, pure, slice, Denotes, outer, inner, flush}
use fun.Irt.Lists.{concat, spread}
use fun.Irt.Transform.{convert, convert-Denotes}

module _ {ℓ} {W : Type 0} {A : Type ℓ} where
  -- `Chain`; an inner sequence may be nil.
  unfoldable pub chain : Seq W (Option (Seq W A)) → Seq W A
  chain seq L yield = seq L λ q s. elim q [ none ↦ (true, s) | some i ↦ flush i yield s ]

  -- `Join` and `Append`
  pub join : List (Option (Seq W A)) → Seq W A
  unfolding chain
  join seqs = chain (slice seqs)

  pub append : Option (Seq W A) → List A → Seq W A
  unfolding chain
  append seq more = chain (slice (seq ∷ some (slice more) ∷ []))

  -- `ChainSlices`
  pub chain_slices : Seq W (List A) → Seq W A
  unfolding chain convert
  chain_slices seq = chain (convert seq (pure (λ xs. some (slice xs))))

  -- A loop over a list, and whether it ran to the end.
  flushed : List A → {L : Type 0} → Body W L A → W × L → Bool × (W × L)
  flushed [] yield s = (true, s)
  flushed (x ∷ xs) yield s =
      let r = yield x s in let rest = flushed xs yield r.1 in if r.0 then rest else (false, r.1)

  flush-slice :
      (xs : List A) (L : Type 0) (yield : Body W L A) (s : W × L)
      → flush (slice xs) yield s ≡ flushed xs yield s
  unfolding flush slice flushed
  flush-slice [] L yield s = refl
  flush-slice (x ∷ xs) L yield s = ground (arith, flush-slice xs L yield (yield x s).1)

  flush-Denotes :
      (seq : Seq W A) (xs : List A)
      → Denotes seq xs
      → (L : Type 0) (yield : Body W L A) (s : W × L) → flush seq yield s ≡ flushed xs yield s
  unfolding flush
  flush-Denotes seq xs d L yield s =
      ap (λ (t : W × (L × Bool)). (t.1.1, outer t)) (d.runs (L × Bool) _ (inner s true))
      ∙ flush-slice xs L yield s

  slice-append :
      (xs ys : List A) (L : Type 0) (yield : Body W L A) (s : W × L)
      → slice (xs ++ ys) L yield s ≡ (
          if (flushed xs yield s).0
          then slice ys L yield (flushed xs yield s).1
          else (flushed xs yield s).1)
  unfolding slice flushed
  slice-append [] ys L yield s = refl
  slice-append (x ∷ xs) ys L yield s = ground (arith, slice-append xs ys L yield (yield x s).1)

  -- The inner sequences that are not nil denote these values, one after the other.
  pub data Inners : List (Option (Seq W A)) → List A → Type (ℓ ⊔ 1) where
    no_inner : Inners [] []
    nil_inner : {qs : List (Option (Seq W A))} {ys : List A} → Inners qs ys → Inners (none ∷ qs) ys
    some_inner :
        {q : Seq W A} {qs : List (Option (Seq W A))} {ys : List A} (xs : List A)
        → Denotes q xs
        → Inners qs ys
        → Inners (some q ∷ qs) (xs ++ ys)

  chain-slice :
      {qs : List (Option (Seq W A))} {xs : List A}
      → Inners qs xs
      → (L : Type 0) (yield : Body W L A) (s : W × L)
      → chain (slice qs) L yield s ≡ slice xs L yield s
  unfolding chain slice
  chain-slice no_inner L yield s = refl
  chain-slice (nil_inner i) L yield s = chain-slice i L yield s
  chain-slice (some_inner {q} {qs} {ys} xs d i) L yield s =
      let r = flush-Denotes q xs d L yield s in
      let rest = chain-slice i L yield (flushed xs yield s).1 in
      ground (arith, r, slice-append xs ys L yield s, rest)

  -- Chain yields the values of the inner sequences in turn, and skips those that are nil.
  pub chain-Denotes :
      (seq : Seq W (Option (Seq W A))) (qs : List (Option (Seq W A))) (xs : List A)
      → Denotes seq qs
      → Inners qs xs
      → Denotes (chain seq) xs
  unfolding chain
  chain-Denotes seq qs xs d i = record {
    runs = λ L yield s. d.runs L _ s ∙ chain-slice i L yield s;
  }

  slice-Denotes : (xs : List A) → Denotes {W = W} (slice xs) xs
  slice-Denotes xs = record { runs = λ L yield s. refl }

  slices-Inners : (xss : List (List A)) → Inners (map (λ xs. some (slice xs)) xss) (concat xss)
  unfolding concat
  slices-Inners [] = no_inner
  slices-Inners (xs ∷ xss) = some_inner xs (slice-Denotes xs) (slices-Inners xss)

  -- ChainSlices yields the concatenation of the slices.
  pub chain_slices-Denotes :
      (seq : Seq W (List A)) (xss : List (List A))
      → Denotes seq xss
      → Denotes (chain_slices seq) (concat xss)
  unfolding chain_slices
  chain_slices-Denotes seq xss d =
      chain-Denotes (convert seq (pure (λ xs. some (slice xs)))) (map (λ xs. some (slice xs)) xss)
        (concat xss) (convert-Denotes seq (λ xs. some (slice xs)) xss d) (slices-Inners xss)

  -- Append yields the values of a sequence that is not nil, and then the others.
  pub append-Denotes :
      (seq : Seq W A) (xs more : List A)
      → Denotes seq xs
      → Denotes (append (some seq) more) (xs ++ (more ++ []))
  unfolding append
  append-Denotes seq xs more d =
      chain-Denotes (slice (some seq ∷ some (slice more) ∷ [])) (some seq ∷ some (slice more) ∷ [])
        (xs ++ (more ++ [])) (record { runs = λ L yield s. refl })
        (some_inner xs d (some_inner more (slice-Denotes more) no_inner))

module _ {κ μ} {W : Type 0} {B : Type κ} {C : Type μ} where
  flushed-map :
      (f : B → C) (bs : List B) (L : Type 0) (yield : Body W L C) (s : W × L)
      → flushed bs (λ b t. yield (f b) t) s ≡ flushed (map f bs) yield s
  unfolding flushed
  flushed-map f [] L yield s = refl
  flushed-map f (b ∷ bs) L yield s = ground (arith, flushed-map f bs L yield (yield (f b) s).1)

module _ {ℓ κ} {W : Type 0} {A : Type ℓ} {B : Type κ} where
  -- `Flatten`
  pub flatten : Seq W (A × Seq W B) → Seq W (A × B)
  flatten seq L yield = seq L λ p s. flush p.1 (λ v t. yield (p.0, v) t) s

  -- `FlattenSlice`
  pub flatten_slice : Seq W (A × List B) → Seq W (A × B)
  unfolding flatten convert
  flatten_slice seq = flatten (convert seq (pure (λ p. (p.0, slice p.1))))

  -- `ReverseMapping`
  pub reverse_mapping : Seq W (A × List B) → Seq W (B × A)
  reverse_mapping seq L yield = seq L λ p s. flush (slice p.1) (λ v t. yield (v, p.0) t) s

  spread-slice {μ} :
      {C : Type μ} (f : A → B → C) (ps : List (A × List B)) (L : Type 0) (yield : Body W L C)
      (s : W × L)
      → slice ps L (λ p t. flush (slice p.1) (λ b u. yield (f p.0 b) u) t) s
        ≡ slice (spread f ps) L yield s
  unfolding slice spread
  spread-slice f [] L yield s = refl
  spread-slice f ((a, bs) ∷ ps) L yield s =
      let one = flush-slice bs L (λ b u. yield (f a b) u) s ∙ flushed-map (f a) bs L yield s in
      let rest = spread-slice f ps L yield (flushed (map (f a) bs) yield s).1 in
      ground (arith, one, rest, slice-append (map (f a) bs) (spread f ps) L yield s)

  -- FlattenSlice and ReverseMapping yield each value of each list with its key.
  pub flatten_slice-Denotes :
      (seq : Seq W (A × List B)) (ps : List (A × List B))
      → Denotes seq ps
      → Denotes (flatten_slice seq) (spread (λ a b. (a, b)) ps)
        × Denotes (reverse_mapping seq) (spread (λ a b. (b, a)) ps)
  unfolding flatten_slice reverse_mapping
  flatten_slice-Denotes seq ps d = (
    record { runs = λ L yield s. d.runs L _ s ∙ spread-slice (λ a b. (a, b)) ps L yield s },
    record { runs = λ L yield s. d.runs L _ s ∙ spread-slice (λ a b. (b, a)) ps L yield s },
  )
