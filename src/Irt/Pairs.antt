-- ===== src/Irt/Pairs.antt =====
-- The combinators of irt/irt.go over pairs (`iter.Seq2`), each the loop of the one over single values with
-- a function of two arguments, and those that are composed of others. A pointer is an `Option`, and so
-- is an error.
use fun.Prelude.{
  ℕ, ◌≡◌, refl, sym, ap, Bool, true, false, not, List, [], ◌∷◌, map, Option, none, some,
}
use fun.Prelude.Int.{ℤ}
use fun.Irt.Lists.{kept, prefix}
use fun.Irt.{Op, Seq, pure, Denotes, flush}
use fun.Irt.Filter.{
  keep, remove, while, until, limit, for_each, for_each_while, notf, while-Denotes, remove-Denotes,
  until-Denotes,
}
use fun.Irt.Transform.{Kv, make_kv, convert, index, kv_join, first, modify, first-Denotes}
use fun.Irt.Chain.{chain}
use fun.Irt.Consume.{initial, final, apply, apply_while, apply_until, count, reduce, has_values}

-- A function of two arguments, as one of a pair.
abbrev pub paired_op {ℓ κ μ} :
    {W : Type 0} {A : Type ℓ} {B : Type κ} {C : Type μ} → (A → Op W B C) → Op W (A × B) C
paired_op op p = op p.0 p.1

module _ {ℓ κ} {W : Type 0} {A : Type ℓ} {B : Type κ} where
  -- `Convert2`
  pub convert2 {μ ν} :
      {C : Type μ} {D : Type ν} → Seq W (A × B) → (A → Op W B (C × D)) → Seq W (C × D)
  unfolding convert
  convert2 seq op = convert seq (paired_op op)

  -- `Merge`
  pub merge {μ} : {C : Type μ} → Seq W (A × B) → (A → Op W B C) → Seq W C
  unfolding convert
  merge seq op = convert seq (paired_op op)

  -- `With2`
  pub with2 {μ} : {C : Type μ} → Seq W C → Op W C (A × B) → Seq W (A × B)
  unfolding convert
  with2 seq op = convert seq op

  -- `With3`
  pub with3 {μ} : {C : Type μ} → Seq W A → Op W A (B × C) → Seq W (Kv A B × C)
  with3 seq op L yield = seq L λ k s. let r = op k s.0 in yield (make_kv k r.0.0, r.0.1) (r.1, s.1)

  -- `Keep2` and `Remove2`
  pub keep2 : Seq W (A × B) → (A → Op W B Bool) → Seq W (A × B)
  unfolding keep
  keep2 seq prd = keep seq (paired_op prd)

  pub remove2 : Seq W (A × B) → (A → Op W B Bool) → Seq W (A × B)
  unfolding remove
  remove2 seq prd = remove seq (paired_op prd)

  -- `While2` and `Until2`
  pub while2 : Seq W (A × B) → (A → Op W B Bool) → Seq W (A × B)
  unfolding while
  while2 seq prd = while seq (paired_op prd)

  pub until2 : Seq W (A × B) → (A → Op W B Bool) → Seq W (A × B)
  unfolding until
  until2 seq prd = until seq (paired_op prd)

  -- `Limit2`
  pub limit2 : Seq W (A × B) → ℤ → Seq W (A × B)
  unfolding limit
  limit2 seq n = limit seq n

  -- `ForEach2` and `ForEachWhile2`
  pub for_each2 : Seq W (A × B) → (A → B → W → W) → Seq W (A × B)
  unfolding for_each
  for_each2 seq op = for_each seq (λ p. op p.0 p.1)

  pub for_each_while2 : Seq W (A × B) → (A → Op W B Bool) → Seq W (A × B)
  unfolding for_each_while
  for_each_while2 seq op = for_each_while seq (paired_op op)

  -- `Modify2`
  pub modify2 : Seq W (A × B) → Option (A → Op W B (A × B)) → Seq W (A × B)
  unfolding modify
  modify2 seq op = modify seq (elim op [ none ↦ none | some f ↦ some (paired_op f) ])

  -- `Index2`
  pub index2 : Seq W (A × B) → Seq W (ℕ × Kv A B)
  unfolding index kv_join
  index2 seq = index (kv_join seq)

  -- `Chain2`
  pub chain2 : Seq W (Option (Seq W (A × B))) → Seq W (A × B)
  unfolding chain
  chain2 seq = chain seq

  -- `Flush2`
  pub flush2 :
      Seq W (A × B) → {L : Type 0} → (A → B → W × L → Bool × (W × L)) → W × L → Bool × (W × L)
  unfolding flush
  flush2 seq yield s = flush seq (λ p. yield p.0 p.1) s

module _ {W A B : Type 0} where
  -- `Initial2`, `Final2`, `HasValues2` and `Count2`
  pub initial2 : Seq W (A × B) → W → Option (A × B) × W
  unfolding initial
  initial2 seq w = initial seq w

  pub final2 : Seq W (A × B) → W → Option (A × B) × W
  unfolding final
  final2 seq w = final seq w

  pub has_values2 : Seq W (A × B) → W → Bool × W
  unfolding has_values
  has_values2 seq w = has_values seq w

  pub count2 : Seq W (A × B) → W → ℕ × W
  unfolding count
  count2 seq w = count seq w

  -- `Reduce2`
  pub reduce2 : {C : Type 0} → C → Seq W (A × B) → (C → A → Op W B C) → W → C × W
  unfolding reduce
  reduce2 zero_value seq rfn w = reduce zero_value seq (λ c. paired_op (rfn c)) w

  -- `Apply2`, `ApplyWhile2`, `ApplyUnless2` and `ApplyUntil2`
  unfoldable pub apply2 : Seq W (A × B) → (A → B → W → W) → W → ℕ × W
  unfolding apply
  apply2 seq op w = apply seq (λ p. op p.0 p.1) w

  pub apply_while2 : Seq W (A × B) → (A → Op W B Bool) → W → ℕ × W
  unfolding apply_while
  apply_while2 seq op w = apply_while seq (paired_op op) w

  pub apply_unless2 : Seq W (A × B) → (A → Op W B Bool) → W → ℕ × W
  unfolding apply_while
  apply_unless2 seq op w = apply_while seq (notf (paired_op op)) w

  pub apply_until2 : {E : Type 0} → Seq W (A × B) → (A → Op W B (Option E)) → W → Option E × W
  unfolding apply_until
  apply_until2 seq op w = apply_until seq (paired_op op) w

abbrev is_nil {ℓ} : {A : Type ℓ} → Option A → Bool
is_nil none = true
is_nil (some a) = false

-- What a pointer refers to, or the zero value.
abbrev derefz {ℓ} : {A : Type ℓ} → A → Option A → A
derefz zero_value none = zero_value
derefz zero_value (some a) = a

module _ {ℓ} {W : Type 0} {A : Type ℓ} (zero_value : A) where
  -- `RemoveNils`, `DerefWithZeros`, `Deref` and `UntilNil`
  pub remove_nils : Seq W (Option A) → Seq W (Option A)
  unfolding remove
  remove_nils seq = remove seq (pure is_nil)

  pub deref_with_zeros : Seq W (Option A) → Seq W A
  unfolding convert
  deref_with_zeros seq = convert seq (pure (derefz zero_value))

  pub deref : Seq W (Option A) → Seq W A
  unfolding remove_nils convert
  deref seq = convert (remove_nils seq) (pure (derefz zero_value))

  pub until_nil : Seq W (Option A) → Seq W A
  unfolding deref until
  until_nil seq = deref (until seq (pure is_nil))

module _ {ℓ} {W : Type 0} {A : Type ℓ} where
  -- `KeepOk` and `WhileOk`
  pub keep_ok : Seq W (A × Bool) → Seq W A
  unfolding first keep
  keep_ok seq = first (keep seq (pure (λ p. p.1)))

  pub while_ok : Seq W (A × Bool) → Seq W A
  unfolding first while
  while_ok seq = first (while seq (pure (λ p. p.1)))

module _ {ℓ κ} {W : Type 0} {A : Type ℓ} {E : Type κ} where
  -- `RemoveErrors`, `WhileSuccess` and `UntilError`
  pub remove_errors : Seq W (A × Option E) → Seq W A
  unfolding first remove
  remove_errors seq = first (remove seq (pure (λ p. not (is_nil p.1))))

  pub while_success : Seq W (A × Option E) → Seq W A
  unfolding first while
  while_success seq = first (while seq (pure (λ p. is_nil p.1)))

  pub until_error : Seq W (A × Option E) → Seq W A
  unfolding first until
  until_error seq = first (until seq (pure (λ p. not (is_nil p.1))))

-- The values that came without an error, and those that came before the first error.
abbrev pub successes {ℓ κ} : {A : Type ℓ} {E : Type κ} → List (A × Option E) → List A
successes [] = []
successes ((a, none) ∷ ps) = a ∷ successes ps
successes ((a, some e) ∷ ps) = successes ps

abbrev pub before_error {ℓ κ} : {A : Type ℓ} {E : Type κ} → List (A × Option E) → List A
before_error [] = []
before_error ((a, none) ∷ ps) = a ∷ before_error ps
before_error ((a, some e) ∷ ps) = []

module _ {ℓ κ} {A : Type ℓ} {E : Type κ} where
  successes_kept :
      (ps : List (A × Option E))
      → map (λ p. p.0) (kept (λ p. not (not (is_nil p.1))) ps) ≡ successes ps
  unfolding kept
  successes_kept [] = refl
  successes_kept ((a, none) ∷ ps) = ap (λ r. a ∷ r) (successes_kept ps)
  successes_kept ((a, some e) ∷ ps) = successes_kept ps

  prefix_while :
      (ps : List (A × Option E)) → map (λ p. p.0) (prefix (λ p. is_nil p.1) ps) ≡ before_error ps
  unfolding prefix
  prefix_while [] = refl
  prefix_while ((a, none) ∷ ps) = ap (λ r. a ∷ r) (prefix_while ps)
  prefix_while ((a, some e) ∷ ps) = refl

  prefix_until :
      (ps : List (A × Option E))
      → map (λ p. p.0) (prefix (λ p. not (not (is_nil p.1))) ps) ≡ before_error ps
  unfolding prefix
  prefix_until [] = refl
  prefix_until ((a, none) ∷ ps) = ap (λ r. a ∷ r) (prefix_until ps)
  prefix_until ((a, some e) ∷ ps) = refl

module _ {ℓ κ} {W : Type 0} {A : Type ℓ} {E : Type κ} where
  -- RemoveErrors yields the values that came without an error; WhileSuccess and UntilError both yield
  -- those that came before the first error.
  pub errors_lem :
      (seq : Seq W (A × Option E)) (ps : List (A × Option E))
      → Denotes seq ps
      → Denotes (remove_errors seq) (successes ps)
        × Denotes (while_success seq) (before_error ps)
        × Denotes (until_error seq) (before_error ps)
  unfolding remove_errors while_success until_error
  errors_lem seq ps d = (
    rw (sym (successes_kept ps))
        (first-Denotes _ _ (remove-Denotes seq (λ p. not (is_nil p.1)) ps d)),
    rw (sym (prefix_while ps)) (first-Denotes _ _ (while-Denotes seq (λ p. is_nil p.1) ps d)),
    rw (sym (prefix_until ps)) (first-Denotes _ _ (until-Denotes seq (λ p. not (is_nil p.1)) ps d)),
  )
