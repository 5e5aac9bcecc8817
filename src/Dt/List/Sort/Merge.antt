-- ===== src/Dt/List/Sort/Merge.antt =====
-- The loop of `merge` in dt/list.go moves the elements of two lists into a third, the lesser head first.
use fun.Prelude.{
  ℕ, zero, suc, ◌+◌, ◌<◌, ◌≤◌, ◌≡◌, ◌≢◌, refl, sym, ap, ◌∙◌, inl, inr, Bool, true, not, ◌&&◌, ◌==◌,
  Option, some, List, [], ◌∷◌, ◌++◌, length, arith, if◌then◌else◌, Bool-cases,
}
use mathlib.Core.Path.{subst}
use mathlib.Core.List.{append_assoc, append-nil}
use fun.Links.{Ptr}
use fun.Dt.List.{Memory, len, front}
use fun.Dt.List.Remove.{front_eq}
use fun.Dt.List.Own.{Own}
use fun.Dt.List.Sort.{shift, value_of, merge_loop}
use fun.Dt.List.Sort.Merged.{merged}
use fun.Dt.List.Sort.Shift.{Own-len, shifted, shift_eq, shifted-Own, shifted_rest, shifted-Frames}

two_left : (i j : ℕ) → (not (suc i == 0) && not (suc j == 0)) ≡ true
two_left i j = ground arith

module _ {A : Type 0} (z : A) where
  pub front-first :
      (m : Memory A) (l r p : Ptr) (ps : List Ptr) (x : A) (xs : List A)
      → Own m l r (p ∷ ps) (x ∷ xs)
      → (front z m l ≡ some (p, m)) × (value_of z m p ≡ x)
  front-first m l r p ps x xs o =
      let h = o.is_list in
      (
        ground (arith, front_eq z m l r (r + 1) (p ∷ ps) h, h.chain.0),
        ground (arith, (h.member p (ground arith)).not_nil, o.are),
      )

  module _ (less : A → A → Bool) (out a b : Ptr) where
    pub merge_round :
        (fuel i j : ℕ) (m m1 : Memory A) (p q : Ptr) (x y : A)
        → len m a ≡ suc i
        → len m b ≡ suc j
        → (front z m a ≡ some (p, m)) × (value_of z m p ≡ x)
        → (front z m b ≡ some (q, m)) × (value_of z m q ≡ y)
        → shift z m out (if less x y then a else b) ≡ some m1
        → merge_loop z less (suc fuel) m a b out ≡ merge_loop z less fuel m1 a b out
    unfolding merge_loop
    merge_round fuel i j m m1 p q x y la lb fa fb e =
        let both : (not (len m a == 0) && not (len m b == 0)) ≡ true = rw (la, lb) (two_left i j) in
        rw (both, merge_loop) (rw (fa.0) (rw (fb.0) (rw (fa.1, fb.1) (rw e refl))))

module _ {A : Type 0} (z : A) (less : A → A → Bool) (out a b ro ra rb : Ptr) (na : a ≢ out)
    (nb : b ≢ out) (ab : a ≢ b) where
  -- What the loop leaves of lists of these values: it moves the first of the merged values.
  pub record Merging (m : Memory A) (xs vs ys : List A) (answer : Option (Memory A)) : Type 0 where
    pub after : Memory A
    pub answered : answer ≡ some after
    pub moved : List A
    pub xs_left : List A
    pub vs_left : List A
    pub out_at : List Ptr
    pub a_at : List Ptr
    pub b_at : List Ptr
    pub whole : merged less xs vs ≡ moved ++ (xs_left ++ vs_left)
    pub out_has : Own after out ro out_at (ys ++ moved)
    pub a_has : Own after a ra a_at xs_left
    pub b_has : Own after b rb b_at vs_left
    pub others :
        (c r : Ptr) (ps : List Ptr) (us : List A)
        → c ≢ out
        → c ≢ a
        → c ≢ b
        → Own m c r ps us
        → Own after c r ps us
    pub grows : m.fresh ≤ after.fresh

  Merging-done :
      (m : Memory A) (os ps qs : List Ptr) (xs vs ys : List A) (answer : Option (Memory A))
      → Own m out ro os ys
      → Own m a ra ps xs
      → Own m b rb qs vs
      → merged less xs vs ≡ xs ++ vs
      → answer ≡ some m
      → Merging m xs vs ys answer
  Merging-done m os ps qs xs vs ys answer o w v e k = record {
    after = m;
    answered = k;
    moved = [];
    xs_left = xs;
    vs_left = vs;
    out_at = os;
    a_at = ps;
    b_at = qs;
    whole = e;
    out_has = subst (Own m out ro os) (sym (append-nil ys)) o;
    a_has = w;
    b_has = v;
    others = λ c r us ws n n' n'' h. h;
    grows = omega arith;
  }

  -- A round before the others that moves the value `x`.
  Merging-round :
      (m m1 : Memory A) (x : A) (xs vs xs1 vs1 ys : List A) (answer : Option (Memory A))
      → merged less xs vs ≡ x ∷ merged less xs1 vs1
      → ((c r : Ptr) (ps : List Ptr) (us : List A)
          → c ≢ out
          → c ≢ a
          → c ≢ b
          → Own m c r ps us
          → Own m1 c r ps us)
      → m.fresh ≤ m1.fresh
      → Merging m1 xs1 vs1 (ys ++ (x ∷ [])) answer
      → Merging m xs vs ys answer
  Merging-round m m1 x xs vs xs1 vs1 ys answer e f g s = record {
    after = s.after;
    answered = s.answered;
    moved = x ∷ s.moved;
    xs_left = s.xs_left;
    vs_left = s.vs_left;
    out_at = s.out_at;
    a_at = s.a_at;
    b_at = s.b_at;
    whole = e ∙ ap (λ r. x ∷ r) s.whole;
    out_has = subst (Own s.after out ro s.out_at) (append_assoc ys (x ∷ []) s.moved) s.out_has;
    a_has = s.a_has;
    b_has = s.b_has;
    others = λ c r ps us n n' n'' h. s.others c r ps us n n' n'' (f c r ps us n n' n'' h);
    grows = omega (arith, g, s.grows);
  }

  -- With more fuel than there are values the loop moves the first of the merged values, till one of the
  -- lists is empty.
  pub merge_loop_lem :
      (fuel : ℕ) (m : Memory A) (os ps qs : List Ptr) (xs vs ys : List A)
      → Own m out ro os ys
      → Own m a ra ps xs
      → Own m b rb qs vs
      → length xs + length vs < fuel
      → Merging m xs vs ys (merge_loop z less fuel m a b out)
  unfolding merge_loop merged
  merge_loop_lem zero m os ps qs xs vs ys o w v f = absurd (omega arith)
  merge_loop_lem (suc fuel) m os ps qs [] vs ys o w v f =
      Merging-done m os ps qs [] vs ys (merge_loop z less (suc fuel) m a b out) o w v refl
        (ground (arith, Own-len m a ra ps [] w))
  merge_loop_lem (suc fuel) m os ps qs (x ∷ xs) [] ys o w v f =
      Merging-done m os ps qs (x ∷ xs) [] ys (merge_loop z less (suc fuel) m a b out) o w v
        (sym (append-nil (x ∷ xs))) (ground (arith, Own-len m b rb qs [] v))
  merge_loop_lem (suc fuel) m os [] qs (x ∷ xs) (y ∷ vs) ys o w v f = absurd (cc w.are)
  merge_loop_lem (suc fuel) m os (p ∷ ps) [] (x ∷ xs) (y ∷ vs) ys o w v f = absurd (cc v.are)
  merge_loop_lem (suc fuel) m os (p ∷ ps) (q ∷ qs) (x ∷ xs) (y ∷ vs) ys o w v f =
      let fa = front-first z m a ra p ps x xs w in
      let fb = front-first z m b rb q qs y vs v in
      let la = Own-len m a ra (p ∷ ps) (x ∷ xs) w in
      let lb = Own-len m b rb (q ∷ qs) (y ∷ vs) v in
      let answer = merge_loop z less (suc fuel) m a b out in
      elim (Bool-cases (less x y)) [
        | inl l ↦
            let m1 = shifted z m out a ro ra p os ps x xs ys o w na in
            let fr = shifted-Frames z m out a ro ra p os ps x xs ys o w na in
            let e = shift_eq z m out a ro ra p os ps x xs ys o w na in
            let rest =
              merge_loop_lem fuel m1 (os ++ (p ∷ [])) ps (q ∷ qs) xs (y ∷ vs) (ys ++ (x ∷ []))
                (shifted-Own z m out a ro ra p os ps x xs ys o w na)
                (shifted_rest z m out a ro ra p os ps x xs ys o w na)
                (fr.others b rb (q ∷ qs) (y ∷ vs) nb (λ k. ab (sym k)) v) (omega arith) in
            Merging-round m m1 x (x ∷ xs) (y ∷ vs) xs (y ∷ vs) ys answer (ground (arith, l))
              (λ c r us ws n n' n'' h. fr.others c r us ws n n' h) fr.grows
              (subst (Merging m1 xs (y ∷ vs) (ys ++ (x ∷ [])))
                (sym (
                  merge_round z less out a b fuel (length xs) (length vs) m m1 p q x y la lb fa fb
                    (rw l e)))
                rest)
        | inr g ↦
            let m1 = shifted z m out b ro rb q os qs y vs ys o v nb in
            let fr = shifted-Frames z m out b ro rb q os qs y vs ys o v nb in
            let e = shift_eq z m out b ro rb q os qs y vs ys o v nb in
            let rest =
              merge_loop_lem fuel m1 (os ++ (q ∷ [])) (p ∷ ps) qs (x ∷ xs) vs (ys ++ (y ∷ []))
                (shifted-Own z m out b ro rb q os qs y vs ys o v nb)
                (fr.others a ra (p ∷ ps) (x ∷ xs) na ab w)
                (shifted_rest z m out b ro rb q os qs y vs ys o v nb) (omega arith) in
            Merging-round m m1 y (x ∷ xs) (y ∷ vs) (x ∷ xs) vs ys answer (ground (arith, g))
              (λ c r us ws n n' n'' h. fr.others c r us ws n n'' h) fr.grows
              (subst (Merging m1 (x ∷ xs) vs (ys ++ (y ∷ [])))
                (sym (
                  merge_round z less out a b fuel (length xs) (length vs) m m1 p q x y la lb fa fb
                    (rw g e)))
                rest)
      ]
