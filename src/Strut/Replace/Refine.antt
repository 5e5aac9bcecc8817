-- ===== src/Strut/Replace/Refine.antt =====
-- `Replace` of strut/mut.go gives what replacing the matches one by one from the front gives.
use fun.Prelude.{
  ℕ, suc, ◌+◌, ◌-◌, ◌*◌, ◌≤◌, ◌<◌, ◌≡◌, refl, sym, ap, ◌∙◌, inl, inr, Bool, true, false, not, ◌&&◌,
  ◌||◌, List, [], ◌∷◌, ◌++◌, Option, length, length-take, take, drop, take-append-drop, ltb, leb,
  ◌==◌, if◌then◌else◌, arith, Bool-cases,
}
use mathlib.Core.Path.{subst}
use mathlib.Core.List.{append-nil}
use fun.Prelude.Int.{ℤ}
use fun.Strut.Replace.{
  copy_at, room, Mutable, count_loop, match_loop, Shifting, shift_all, replace_in_place, replace,
}
use fun.Strut.Replace.Lists.{take_all, take-past, copy_at-middle}
use fun.Strut.Replace.Backward.{first_of, rewritten, Shifted, shift_all_lem}
use fun.Strut.Replace.Matches.{Finds, replaced_from, Matched, match_loop_lem}
use fun.Strut.Replace.Same.{same_loop_lem}

empty_list {ℓ} : {A : Type ℓ} (xs : List A) → length xs ≡ 0 → xs ≡ []
empty_list [] h = refl
empty_list (x ∷ xs) h = absurd (omega arith)

small_room : (r : Bool) (l : ℕ) → 0 < l → (not r || l == 0) ≡ true → r ≡ false
small_room false l some_old h = refl
small_room true l some_old h = absurd (ground (arith, some_old, h))

module _ {A : Type 0} (index : List A → List A → Option ℕ) (finds : Finds index) (old new : List A)
    (n : ℤ) (some_old : 0 < length old) where
  copy_itself : (t : List A) (r : ℕ) → copy_at t 0 (take r t) ≡ t
  copy_itself t r =
      ap (λ u. copy_at u 0 (take r t)) (sym (take-append-drop r t))
      ∙ copy_at-middle [] (take r t) (drop r t) (take r t) 0 refl refl
      ∙ take-append-drop r t

  module _ (mut : Mutable A) where
    abbrev count_of : ℕ
    count_of = count_loop index old new n (suc (length mut.bytes)) 0 mut.bytes

    abbrev target : List A
    target = replaced_from index old new n (suc (length mut.bytes)) 0 mut.bytes

    abbrev longer : ℕ
    longer = length mut.bytes + count_of * length new - count_of * length old

    matches :
        Matched index finds old new n some_old
          (suc (length mut.bytes))
          0
          0
          mut.bytes
          (match_loop index old new n (suc (length mut.bytes)) 0 0 mut.bytes)
    matches =
        match_loop_lem index finds old new n some_old (suc (length mut.bytes)) 0 0 mut.bytes
          (omega arith)

    -- The array before the first round.
    start_Shifted :
        (ms : List ℕ) (count : ℕ)
        → length ms ≡ count
        → length old ≤ length new
        → length mut.bytes + count * length new - count * length old
          ≤ length mut.bytes + length mut.spare
        → Shifted old new mut.bytes [] (0 + length ms * (length new - length old)) (record {
          text =
              take
                (length mut.bytes + count * length new - count * length old)
                (mut.bytes ++ mut.spare);
          write_pos = length mut.bytes + count * length new - count * length old;
          read_pos = length mut.bytes;
        })
    unfolding rewritten
    start_Shifted ms count c le room_left =
        let s = mut.bytes in
        let new_len = length s + count * length new - count * length old in
        let d = length new - length old in
        let grown : new_len ≡ length s + count * d = grind arith in
        let extra : new_len - length s ≡ count * d = omega (arith, grown) in
        let product : length ms * d ≡ count * d = ap (λ j. j * d) c in
        record {
          gap = take (new_len - length s) mut.spare;
          text_is =
              take-past s mut.spare new_len (omega (arith, grown))
              ∙ ap (λ r. r ++ take (new_len - length s) mut.spare)
                  (sym (take_all (length s) s (omega arith)))
              ∙ ap (λ r. take (length s) s ++ r)
                  (sym (append-nil (take (new_len - length s) mut.spare)));
          gap_length =
              omega (arith, length-take (new_len - length s) mut.spare, extra, product, room_left);
          write_is = omega (arith, grown, product);
          read_is = refl;
        }

    -- The text when the rounds are over.
    ends_as_target :
        (t : Shifting A)
        → Shifted old new mut.bytes
            (match_loop index old new n (suc (length mut.bytes)) 0 0 mut.bytes)
            0
            t
        → t.text ≡ target
    ends_as_target t w =
        let s = mut.bytes in
        let ms = match_loop index old new n (suc (length s)) 0 0 s in
        let no_gap : w.gap ≡ [] = empty_list w.gap w.gap_length in
        let all : first_of ms (length s) - 0 ≡ first_of ms (length s) = omega arith in
        w.text_is
        ∙ ap (λ g. take (first_of ms (length s)) s ++ (g ++ rewritten old new s ms)) no_gap
        ∙ ap (λ j. take j s ++ rewritten old new s ms) (sym all)
        ∙ matches.meaning

    growing_lem :
        length old ≤ length new
        → (length old == length new) ≡ false
        → longer ≤ length mut.bytes + length mut.spare
        → (bytes_replace : List A → List A → List A → ℤ → List A)
        → (replace_in_place index bytes_replace mut old new n longer).bytes ≡ target
    unfolding replace_in_place
    growing_lem le differ room_left bytes_replace =
        let s = mut.bytes in
        let ms = match_loop index old new n (suc (length s)) 0 0 s in
        let found : length ms ≡ count_of = omega (arith, matches.counted) in
        let t0 : Shifting A = record {
          text = take longer (s ++ mut.spare);
          write_pos = longer;
          read_pos = length s;
        } in
        let (w, h, k) =
          shift_all_lem old new s 0 ms 0 t0 le matches.ascending
            (start_Shifted ms count_of found le room_left) in
        let t = shift_all old new ms t0 in
        let done = ends_as_target t w in
        let same = copy_itself t.text t.read_pos in
        rw differ
          (elim (Bool-cases (ltb 0 t.read_pos)) [ inl y ↦ rw y (same ∙ done) | inr f ↦ rw f done ])

    nothing_found : count_of ≡ 0 → target ≡ mut.bytes
    unfolding rewritten
    nothing_found e =
        let s = mut.bytes in
        let w = matches in
        let none_there : match_loop index old new n (suc (length s)) 0 0 s ≡ [] =
          empty_list (match_loop index old new n (suc (length s)) 0 0 s)
            (omega (arith, w.counted, e)) in
        let meant =
          subst
            (λ ms.
              take (first_of ms (length s) - 0) s ++ rewritten old new s ms
              ≡ replaced_from index old new n (suc (length s)) 0 s)
            none_there w.meaning in
        sym meant ∙ append-nil (take (length s - 0) s) ∙ take_all (length s - 0) s (omega arith)

    full_already : room n 0 ≡ false → target ≡ mut.bytes
    unfolding replaced_from
    full_already f = ground (arith, f)

    same_length_lem :
        length old ≡ length new
        → (bytes_replace : List A → List A → List A → ℤ → List A) (new_len : ℕ)
        → (replace_in_place index bytes_replace mut old new n new_len).bytes ≡ target
    unfolding replace_in_place
    same_length_lem l bytes_replace new_len =
        let equal : (length old == length new) ≡ true = ground (arith, l) in
        rw equal (
          same_loop_lem index finds old new n some_old (suc (length mut.bytes)) 0 0 mut.bytes l
            (omega arith))

    -- The ways of `Replace`, with what each is taken for.
    chosen :
        (small none_found fits : Bool) (fast slow : Mutable A) (t : List A)
        → (small ≡ true → mut.bytes ≡ t)
        → (none_found ≡ true → mut.bytes ≡ t)
        → (fits ≡ true → fast.bytes ≡ t)
        → slow.bytes ≡ t
        → (if small then mut else if none_found then mut else if fits then fast else slow).bytes ≡ t
    chosen true b c fast slow t h k f g = h refl
    chosen false true c fast slow t h k f g = k refl
    chosen false false true fast slow t h k f g = f refl
    chosen false false false fast slow t h k f g = g

    in_place :
        (leb (length old) (length new) && leb longer (length mut.bytes + length mut.spare)) ≡ true
        → (bytes_replace : List A → List A → List A → ℤ → List A)
        → (replace_in_place index bytes_replace mut old new n longer).bytes ≡ target
    in_place c bytes_replace =
        let le : length old ≤ length new = ground (arith, c) in
        let room_left : longer ≤ length mut.bytes + length mut.spare = ground (arith, c) in
        elim (Bool-cases (length old == length new)) [
          | inl l ↦ same_length_lem (ground (arith, l)) bytes_replace longer
          | inr differ ↦ growing_lem le differ room_left bytes_replace
        ]

    -- `Replace` of a text that is not empty gives what the matches replaced one by one from the front give, at
    -- most `n` of them unless `n` is negative, whichever of its ways it takes: it finds no match, it
    -- overwrites each match in place, it moves the text behind the matches from the end, or it leaves the
    -- work to `bytes.Replace`. That `bytes.Index` finds what it says, and that `bytes.Replace` replaces
    -- as documented, are hypotheses.
    pub replace_lem :
        (bytes_replace : List A → List A → List A → ℤ → List A)
        → bytes_replace mut.bytes old new n ≡ target
        → (replace index bytes_replace mut old new n).bytes ≡ target
    unfolding replace replace_in_place
    replace_lem bytes_replace slow =
        chosen (not (room n 0) || length old == 0) (count_of == 0)
          (leb (length old) (length new) && leb longer (length mut.bytes + length mut.spare))
          (replace_in_place index bytes_replace mut old new n longer)
          (record { bytes = bytes_replace mut.bytes old new n; spare = [] }) target
          (λ s. sym (full_already (small_room (room n 0) (length old) some_old s)))
          (λ z. sym (nothing_found (ground (arith, z)))) (λ c. in_place c bytes_replace) slow
