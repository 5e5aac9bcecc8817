-- ===== src/Irt/Consume.antt =====
-- The functions of irt/irt.go that consume a sequence: they give a result and the world after it.
-- A loop's local variables are the result that it builds up.
use fun.Prelude.{ℕ, ◌+◌, Bool, true, false, List, [], ◌∷◌, ◌++◌, if◌then◌else◌, Option, none, some}
use fun.Prelude.Int.{ℤ, pos, eqb_ℤ, leb_ℤ}
use fun.Irt.{Op, Body, Seq, within}
use fun.Irt.Filter.{notf}

-- A result, and the world after it.
abbrev pub result : {W L : Type 0} → W × L → L × W
result s = (s.1, s.0)

module _ {W A : Type 0} where
  -- The loop of `Collect`, by slices.AppendSeq; a capacity is only an allocation.
  unfoldable pub collect : Seq W A → W → List A × W
  collect seq w = result (seq (List A) (λ x s. (true, (s.0, s.1 ++ (x ∷ [])))) (w, []))

  -- The loop of `CollectFirstN`: the values so far, and how many there are.
  unfoldable pub first_n_from : Seq W A → ℤ → List A → ℕ → W → List A × W
  first_n_from seq n out idx w =
      let body : Body W (List A × ℕ) A = λ x s.
        let out' = s.1.0 ++ (x ∷ []) in
        if eqb_ℤ (pos (s.1.1 + 1)) n
        then (false, (s.0, (out', s.1.1)))
        else (true, (s.0, (out', s.1.1 + 1))) in
      let t = seq (List A × ℕ) body (w, (out, idx)) in (t.1.0, t.0)

  -- `CollectFirstN`
  unfoldable pub collect_first_n : Seq W A → ℤ → W → List A × W
  unfolding first_n_from
  collect_first_n seq n w = if leb_ℤ n (pos 0) then ([], w) else first_n_from seq n [] 0 w

  -- `Initial` and `Final`, with `none` for not ok.
  unfoldable pub initial : Seq W A → W → Option A × W
  initial seq w = result (seq (Option A) (λ x s. (false, (s.0, some x))) (w, none))

  unfoldable pub final : Seq W A → W → Option A × W
  final seq w = result (seq (Option A) (λ x s. (true, (s.0, some x))) (w, none))

  -- `Apply`
  unfoldable pub apply : Seq W A → (A → W → W) → W → ℕ × W
  apply seq op w = result (seq ℕ (λ x s. (true, (op x s.0, s.1 + 1))) (w, 0))

  -- `ApplyWhile`
  unfoldable pub apply_while : Seq W A → Op W A Bool → W → ℕ × W
  apply_while seq op w = result (seq ℕ (λ x s. let r = op x s.0 in (r.0, (r.1, s.1 + 1))) (w, 0))

  -- `ApplyUnless`
  unfoldable pub apply_unless : Seq W A → Op W A Bool → W → ℕ × W
  unfolding apply_while
  apply_unless seq op w = apply_while seq (notf op) w

  -- `ApplyUntil`, with `none` for no error.
  unfoldable pub apply_until : {E : Type 0} → Seq W A → Op W A (Option E) → W → Option E × W
  apply_until {E} seq op w =
      let body : Body W (Option E) A = λ x s.
        let r = op x s.0 in
        elim r.0 [ none ↦ (true, (r.1, s.1)) | some e ↦ (false, (r.1, some e)) ] in
      result (seq (Option E) body (w, none))

  -- `Count`, whose counter is as far as Apply's count.
  unfoldable pub count : Seq W A → W → ℕ × W
  unfolding apply
  count seq w = apply seq (λ x u. u) w

  -- `Reduce`, from the zero value.
  unfoldable pub reduce : {B : Type 0} → B → Seq W A → (B → Op W A B) → W → B × W
  reduce {B} zero_value seq rfn w =
      result (seq B (λ x s. let r = rfn s.1 x s.0 in (true, (r.1, r.0))) (w, zero_value))

  -- `HasValues`
  unfoldable pub has_values : Seq W A → W → Bool × W
  has_values seq w = result (seq Bool (λ x s. (false, (s.0, true))) (w, false))

module _ {W A : Type 0} where
  -- `Contains`, for the equality of a comparable type.
  unfoldable pub contains : (A → A → Bool) → Seq W A → A → W → Bool × W
  unfolding apply_unless within
  contains eq seq cmp w =
      let test : Op (W × Bool) A Bool = λ x u. let ok = eq cmp x in (ok, (u.0, ok)) in
      result (apply_unless (within seq) test (w, false)).1
