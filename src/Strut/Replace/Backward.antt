-- ===== src/Strut/Replace/Backward.antt =====
-- The rounds of `replaceInPlace` in strut/mut.go that go backward through the matches.
use fun.Prelude.{
  ℕ, suc, ◌+◌, ◌-◌, ◌*◌, ◌≤◌, ◌≡◌, refl, sym, ap, ◌∙◌, List, [], ◌∷◌, ◌++◌, length, length-append,
  length-take, length-drop, take, drop, take-append-drop, arith,
}
use mathlib.Core.List.{append_assoc}
use mathlib.Core.Path.{subst}
use fun.Strut.Replace.{copy_at, Shifting, shift_round, shift_all}
use fun.Strut.Replace.Lists.{
  take-front, drop-front, drop-drop, take-take, drop-take, copy_at-middle,
}

-- Positions in a text from `start` to `end`, far enough apart for a match of the given length.
abbrev pub Ascending : ℕ → ℕ → List ℕ → ℕ → Type 0
Ascending width start [] end = start ≤ end
Ascending width start (m ∷ ms) end = (start ≤ m) × Ascending width (m + width) ms end

-- Where the first match is, or the end.
abbrev pub first_of : List ℕ → ℕ → ℕ
first_of [] end = end
first_of (m ∷ ms) end = m

module _ {A : Type 0} (old new orig : List A) where
  -- The text from the first match on, with each match replaced.
  unfoldable pub rewritten : List ℕ → List A
  rewritten [] = []
  rewritten (m ∷ ms) =
      let from = m + length old in
      new ++ (take (first_of ms (length orig) - from) (drop from orig) ++ rewritten ms)

  -- What the loop leaves when it has come to these matches from the end: the text before the first of them,
  -- some bytes of no use, and the rewritten text.
  pub record Shifted (ms : List ℕ) (g : ℕ) (t : Shifting A) : Type 0 where
    pub gap : List A
    pub text_is : t.text ≡ take (first_of ms (length orig)) orig ++ (gap ++ rewritten ms)
    pub gap_length : length gap ≡ g
    pub write_is : t.write_pos ≡ first_of ms (length orig) + g
    pub read_is : t.read_pos ≡ first_of ms (length orig)

  -- A copy behind some bytes and a gap, over as many bytes of the gap as it has.
  gap_parts :
      (n : ℕ) (xs : List A)
      → n ≤ length xs
      → (a : List A) × (b : List A) × (xs ≡ a ++ b) × (length a ≡ length xs - n) × (length b ≡ n)
  gap_parts n xs h =
      let k = length xs - n in
      (
        take k xs,
        drop k xs,
        sym (take-append-drop k xs),
        omega (arith, length-take k xs),
        omega (arith, length-drop k xs),
      )

  -- The text before the next match, cut at the match before it.
  between :
      (m end : ℕ)
      → m + length old ≤ end
      → end ≤ length orig
      → (o : List A) × (length o ≡ length old)
        × (take end orig
            ≡ take m orig ++ (o ++ take (end - (m + length old)) (drop (m + length old) orig)))
  between m end h k =
      let w = length old in
      let first = take-append-drop m (take end orig) in
      let second = take-append-drop w (drop m (take end orig)) in
      (
        take w (drop m (take end orig)),
        omega (
          arith,
          length-take w (drop m (take end orig)),
          length-drop m (take end orig),
          length-take end orig,
        ),
        sym first
            ∙ ap (λ p. p ++ drop m (take end orig)) (take-take m end orig (omega arith))
            ∙ ap (λ p. take m orig ++ p)
                (sym second
                  ∙ ap (λ p. take w (drop m (take end orig)) ++ p)
                      (drop-drop m w (take end orig) ∙ drop-take (m + w) end orig)),
      )

  round_steps :
      (m wp rp k w1 r1 w2 r2 : ℕ) (text text1 text2 : List A)
      → rp - (m + length old) ≡ k
      → wp - k ≡ w1
      → rp - k ≡ r1
      → copy_at text w1 (take k (drop r1 text)) ≡ text1
      → w1 - length new ≡ w2
      → copy_at text1 w2 new ≡ text2
      → r1 - length old ≡ r2
      → shift_round old new m (record { text = text; write_pos = wp; read_pos = rp })
        ≡ record { text = text2; write_pos = w2; read_pos = r2 }
  unfolding shift_round
  round_steps m wp rp k w1 r1 w2 r2 text text1 text2 e1 e2 e3 f1 e4 f2 e5 =
      let after : ℕ → ℕ → ℕ → Shifting A = λ k w r. record {
        text = copy_at (copy_at text w (take k (drop r text))) (w - length new) new;
        write_pos = w - length new;
        read_pos = r - length old;
      } in
      let then_new : List A → ℕ → ℕ → Shifting A =
        λ t w r. record { text = copy_at t w new; write_pos = w; read_pos = r } in
      ap (λ j. after j (wp - j) (rp - j)) e1
      ∙ ap (λ w. after k w (rp - k)) e2
      ∙ ap (after k w1) e3
      ∙ ap (λ t. then_new t (w1 - length new) (r1 - length old)) f1
      ∙ ap (λ w. then_new text1 w (r1 - length old)) e4
      ∙ ap (then_new text1 w2) e5
      ∙ ap (λ t. record { text = t; write_pos = w2; read_pos = r2 }) f2

  -- The two copies of a round, when the text has these parts.
  round_text :
      (m wp rp g : ℕ) (p o c gap r a b x y : List A)
      → length p ≡ m
      → length o ≡ length old
      → rp ≡ m + length old + length c
      → wp ≡ rp + (g + (length new - length old))
      → length old ≤ length new
      → o ++ (c ++ gap) ≡ a ++ b
      → length b ≡ length c
      → a ≡ x ++ y
      → length x ≡ g
      → length y ≡ length new
      → shift_round old new m
          (record { text = (p ++ (o ++ c)) ++ (gap ++ r); write_pos = wp; read_pos = rp })
        ≡ record { text = p ++ (x ++ (new ++ (c ++ r))); write_pos = m + g; read_pos = m }
  round_text m wp rp g p o c gap r a b x y pm ow re we le ab bc axy xg yn =
      let text = (p ++ (o ++ c)) ++ (gap ++ r) in
      let shape : text ≡ (p ++ o) ++ (c ++ (gap ++ r)) =
        ap (λ t. t ++ (gap ++ r)) (sym (append_assoc p o c)) ∙ append_assoc (p ++ o) c (gap ++ r) in
      let over : text ≡ (p ++ a) ++ (b ++ r) =
        append_assoc p (o ++ c) (gap ++ r)
        ∙ ap (λ t. p ++ t)
            (sym (append_assoc (o ++ c) gap r)
              ∙ ap (λ t. t ++ r) (append_assoc o c gap ∙ ab)
              ∙ append_assoc a b r)
        ∙ sym (append_assoc p a (b ++ r)) in
      let pa = length-append p a in
      let po = length-append p o in
      let px = length-append p x in
      let la : length a ≡ g + length new =
        omega (arith, ap length axy, length-append x y, xg, yn) in
      let source : take (length c) (drop (m + length old) text) ≡ c =
        ap (λ t. take (length c) (drop (m + length old) t)) shape
        ∙ ap (take (length c))
            (drop-front (p ++ o) (c ++ (gap ++ r)) (m + length old) (omega (arith, po, pm, ow)))
        ∙ take-front c (gap ++ r) (length c) refl in
      let first : copy_at text (m + g + length new) (take (length c) (drop (m + length old) text))
          ≡ (p ++ a) ++ (c ++ r) =
        ap (copy_at text (m + g + length new)) source
        ∙ ap (λ t. copy_at t (m + g + length new) c) over
        ∙ copy_at-middle (p ++ a) b r c (m + g + length new) (omega (arith, pa, pm, la)) (sym bc) in
      let split : (p ++ a) ++ (c ++ r) ≡ (p ++ x) ++ (y ++ (c ++ r)) =
        ap (λ t. (p ++ t) ++ (c ++ r)) axy
        ∙ ap (λ t. t ++ (c ++ r)) (sym (append_assoc p x y))
        ∙ append_assoc (p ++ x) y (c ++ r) in
      let second : copy_at ((p ++ a) ++ (c ++ r)) (m + g) new ≡ p ++ (x ++ (new ++ (c ++ r))) =
        ap (λ t. copy_at t (m + g) new) split
        ∙ copy_at-middle (p ++ x) y (c ++ r) new (m + g) (omega (arith, px, pm, xg)) (sym yn)
        ∙ append_assoc p x (new ++ (c ++ r)) in
      round_steps m wp rp (length c) (m + g + length new) (m + length old) (m + g) m text
        ((p ++ a) ++ (c ++ r)) (p ++ (x ++ (new ++ (c ++ r)))) (omega (arith, re))
        (omega (arith, we, re, le)) (omega (arith, re)) first (omega arith) second (omega arith)

  -- A round takes the loop to the next match.
  round_lem :
      (m : ℕ) (ms : List ℕ) (g : ℕ) (t : Shifting A)
      → length old ≤ length new
      → m + length old ≤ first_of ms (length orig)
      → first_of ms (length orig) ≤ length orig
      → Shifted ms (g + (length new - length old)) t
      → Shifted (m ∷ ms) g (shift_round old new m t)
  unfolding rewritten
  round_lem m ms g t le h k s =
      let end = first_of ms (length orig) in
      let c = take (end - (m + length old)) (drop (m + length old) orig) in
      let p = take m orig in
      let (o, ow, cut) = between m end h k in
      let lc : length c ≡ end - (m + length old) = omega (
        arith,
        length-take (end - (m + length old)) (drop (m + length old) orig),
        length-drop (m + length old) orig,
      ) in
      let whole = length-append o (c ++ s.gap) in
      let inner = length-append c s.gap in
      let (a, b, ab, la, lb) =
        gap_parts (length c) (o ++ (c ++ s.gap)) (omega (arith, whole, inner)) in
      let (x, y, xy, lx, ly) =
        gap_parts (length new) a (omega (arith, la, whole, inner, s.gap_length, ow, le)) in
      let text : t.text ≡ (p ++ (o ++ c)) ++ (s.gap ++ rewritten ms) =
        s.text_is ∙ ap (λ q. q ++ (s.gap ++ rewritten ms)) cut in
      let done =
        round_text m t.write_pos t.read_pos g p o c s.gap (rewritten ms) a b x y
          (omega (arith, length-take m orig)) ow (omega (arith, s.read_is, lc))
          (omega (arith, s.write_is, s.read_is)) le ab lb xy
          (omega (arith, lx, la, whole, inner, s.gap_length, ow, le)) ly in
      let same : t ≡ record {
        text = (p ++ (o ++ c)) ++ (s.gap ++ rewritten ms);
        write_pos = t.write_pos;
        read_pos = t.read_pos;
      } =
        ap (λ q. record { text = q; write_pos = t.write_pos; read_pos = t.read_pos }) text in
      let all = ap (shift_round old new m) same ∙ done in
      record {
        gap = x;
        text_is = ap (λ q. q.text) all;
        gap_length = omega (arith, lx, la, whole, inner, s.gap_length, ow, le);
        write_is = ap (λ q. q.write_pos) all;
        read_is = ap (λ q. q.read_pos) all;
      }

  -- The rounds take the loop from the end to the first of the matches.
  pub shift_all_lem :
      (start : ℕ) (ms : List ℕ) (g : ℕ) (t : Shifting A)
      → length old ≤ length new
      → Ascending (length old) start ms (length orig)
      → Shifted [] (g + length ms * (length new - length old)) t
      → Shifted ms g (shift_all old new ms t)
        × (start ≤ first_of ms (length orig))
        × (first_of ms (length orig) ≤ length orig)
  unfolding shift_all
  shift_all_lem start [] g t le a s = (subst (λ k. Shifted [] k t) (omega arith) s, a, omega arith)
  shift_all_lem start (m ∷ ms) g t le a s =
      let d = length new - length old in
      let more : g + suc (length ms) * d ≡ (g + d) + length ms * d = grind arith in
      let (w, h, k) =
        shift_all_lem (m + length old) ms (g + d) t le a.1 (subst (λ k. Shifted [] k t) more s) in
      (round_lem m ms g (shift_all old new ms t) le h k w, a.0, omega (arith, h, k))
