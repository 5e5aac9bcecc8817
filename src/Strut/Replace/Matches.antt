-- ===== src/Strut/Replace/Matches.antt =====
-- The two loops of `Replace` and `replaceInPlace` of strut/mut.go that look for the matches.
use fun.Prelude.{
  ℕ, zero, suc, ◌+◌, ◌-◌, ◌≤◌, ◌<◌, ◌≡◌, refl, sym, ap, ◌∙◌, inl, inr, true, false, not, List, [],
  ◌∷◌, ◌++◌, Option, none, some, length, length-take, length-drop, take, drop, if◌then◌else◌, arith,
  Bool-cases, Option-cases,
}
use mathlib.Core.Path.{subst}
use mathlib.Core.List.{append-nil}
use fun.Prelude.Int.{ℤ}
use fun.Strut.Replace.{room, count_loop, match_loop}
use fun.Strut.Replace.Lists.{drop-drop, take_all}
use fun.Strut.Replace.Backward.{Ascending, first_of, rewritten}

-- What `bytes.Index` promises: where it says that the other text begins, it does.
pub record Finds {A : Type 0} (index : List A → List A → Option ℕ) : Type 0 where
  pub found :
      (s t : List A) (i : ℕ)
      → index s t ≡ some i
      → (i ≤ length s) × (take (length t) (drop i s) ≡ t)

module _ {A : Type 0} (index : List A → List A → Option ℕ) (old new : List A) (n : ℤ) where
  -- The matches replaced one by one, when so many have been, for at most `fuel` more.
  unfoldable pub replaced_from : ℕ → ℕ → List A → List A
  replaced_from zero k s = s
  replaced_from (suc fuel) k s = if not (room n k) then s else elim (index s old) [
    | none ↦ s
    | some i ↦ take i s ++ (new ++ replaced_from fuel (k + 1) (drop (i + length old) s))
  ]

module _ {A : Type 0} (index : List A → List A → Option ℕ) (finds : Finds index) (old new : List A)
    (n : ℤ) (some_old : 0 < length old) where
  pub within : (s : List A) (i : ℕ) → index s old ≡ some i → i + length old ≤ length s
  within s i e =
      let (h, t) = finds.found s old i e in
      omega (arith, h, ap length t, length-take (length old) (drop i s), length-drop i s)

  none_in_nil : index [] old ≡ none
  none_in_nil = elim (Option-cases (index [] old)) [
    | inl e ↦ e
    | inr (i, e) ↦ absurd (omega (arith, within [] i e))
  ]

  count_round :
      (fuel k i : ℕ) (s : List A)
      → room n k ≡ true
      → index s old ≡ some i
      → count_loop index old new n (suc fuel) k s
        ≡ count_loop index old new n fuel (k + 1) (drop (i + length old) s)
  unfolding count_loop
  count_round fuel k i [] r e = absurd (cc (none_in_nil, e))
  count_round fuel k i (b ∷ s) r e = ground (arith, r, e)

  count_stops :
      (fuel k : ℕ) (s : List A) → index s old ≡ none → count_loop index old new n (suc fuel) k s ≡ k
  unfolding count_loop
  count_stops fuel k [] e = refl
  count_stops fuel k (b ∷ s) e = ground (arith, e)

  count_full :
      (fuel k : ℕ) (s : List A) → room n k ≡ false → count_loop index old new n (suc fuel) k s ≡ k
  unfolding count_loop
  count_full fuel k [] e = refl
  count_full fuel k (b ∷ s) e = ground (arith, e)

  -- What the matches from a position on are worth.
  pub record Matched (fuel k start : ℕ) (s : List A) (ms : List ℕ) : Type 0 where
    pub ascending : Ascending (length old) start ms (length s)
    pub counted : length ms + k ≡ count_loop index old new n fuel k (drop start s)
    pub meaning :
        take (first_of ms (length s) - start) (drop start s) ++ rewritten old new s ms
        ≡ replaced_from index old new n fuel k (drop start s)

  no_match :
      (fuel k start : ℕ) (s : List A)
      → start ≤ length s
      → count_loop index old new n fuel k (drop start s) ≡ k
      → replaced_from index old new n fuel k (drop start s) ≡ drop start s
      → Matched fuel k start s []
  unfolding rewritten
  no_match fuel k start s h e f = record {
    ascending = h;
    counted = omega (arith, e);
    meaning =
        append-nil (take (length s - start) (drop start s))
        ∙ take_all (length s - start) (drop start s) (omega (arith, length-drop start s))
        ∙ sym f;
  }

  next_match :
      (fuel k start i : ℕ) (s : List A) (ms : List ℕ)
      → start ≤ length s
      → room n k ≡ true
      → index (drop start s) old ≡ some i
      → Matched fuel (k + 1) (start + (i + length old)) s ms
      → Matched (suc fuel) k start s ((start + i) ∷ ms)
  unfolding rewritten replaced_from
  next_match fuel k start i s ms h r e w =
      let d = drop start s in
      let at = start + (i + length old) in
      let later : start + i + length old ≡ at = omega arith in
      let there : drop (i + length old) d ≡ drop at s = drop-drop start (i + length old) s in
      let near : start + i - start ≡ i = omega arith in
      let step : replaced_from index old new n (suc fuel) k d
          ≡ take i d
            ++ (new ++ replaced_from index old new n fuel (k + 1) (drop (i + length old) d)) =
        ground (arith, r, e) in
      record {
        ascending = (
          omega arith,
          subst (λ q. Ascending (length old) q ms (length s)) (sym later) w.ascending,
        );
        counted =
            omega (arith, w.counted)
            ∙ ap (count_loop index old new n fuel (k + 1)) (sym there)
            ∙ sym (count_round fuel k i d r e);
        meaning =
            ap (λ q. take q d ++ rewritten old new s ((start + i) ∷ ms)) near
            ∙ ap
                (λ q.
                  take i d
                  ++ (new
                      ++ (take (first_of ms (length s) - q) (drop q s) ++ rewritten old new s ms)))
                later
            ∙ ap (λ q. take i d ++ (new ++ q))
                (w.meaning ∙ ap (replaced_from index old new n fuel (k + 1)) (sym there))
            ∙ sym step;
      }

  pub match_loop_lem :
      (fuel k start : ℕ) (s : List A)
      → start ≤ length s
      → Matched fuel k start s (match_loop index old new n fuel k start s)
  unfolding match_loop replaced_from count_loop
  match_loop_lem zero k start s h = no_match zero k start s h refl refl
  match_loop_lem (suc fuel) k start s h = elim (Bool-cases (room n k)) [
    | inr f ↦
        subst (Matched (suc fuel) k start s) (ground (arith, f))
          (no_match (suc fuel) k start s h (count_full fuel k (drop start s) f) (ground (arith, f)))
    | inl r ↦ elim (Option-cases (index (drop start s) old)) [
      | inl e ↦ subst (Matched (suc fuel) k start s) (ground (arith, r, e)) (
          no_match (suc fuel) k start s h (count_stops fuel k (drop start s) e)
            (ground (arith, r, e)))
      | inr (i, e) ↦
          let inside = within (drop start s) i e in
          let fits : start + (i + length old) ≤ length s =
            omega (arith, inside, length-drop start s, some_old) in
          subst (Matched (suc fuel) k start s) (ground (arith, r, e)) (
            next_match fuel k start i s
              (match_loop index old new n fuel (k + 1) (start + (i + length old)) s) h r e
              (match_loop_lem fuel (k + 1) (start + (i + length old)) s fits))
    ]
  ]
