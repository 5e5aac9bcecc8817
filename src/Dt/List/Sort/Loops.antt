-- ===== src/Dt/List/Sort/Loops.antt =====
-- The loops of the merge sort of dt/list.go on lists that hold some values.
use fun.Prelude.{
  ℕ, zero, suc, ◌+◌, ◌<◌, ◌≤◌, ◌≡◌, ◌≢◌, refl, sym, ap, inl, inr, Option, some, List, [], ◌∷◌, ◌++◌,
  length, arith, ltb, Bool-cases,
}
use mathlib.Core.Path.{subst}
use mathlib.Core.List.{append_assoc, append-nil}
use fun.Links.{Ptr}
use fun.Dt.List.{Memory}
use fun.Dt.List.Own.{Own}
use fun.Dt.List.Sort.{split_loop}
use fun.Dt.List.Sort.Shift.{
  Frames, Frames-refl, Frames-trans, Own-len, shifted, shift_eq, shifted-Own, shifted_rest,
  shifted-Frames,
}

module _ {A : Type 0} (z : A) (out a ro ra : Ptr) (ne : a ≢ out) where
  -- What is left when the first values of `a` have been moved behind those of `out`.
  pub record Parted (m : Memory A) (xs ys : List A) (half : ℕ) (answer : Option (Memory A))
      : Type 0 where
    pub after : Memory A
    pub answered : answer ≡ some after
    pub moved : List A
    pub rest : List A
    pub out_at : List Ptr
    pub rest_at : List Ptr
    pub whole : moved ++ rest ≡ xs
    pub size : length rest ≡ half
    pub out_has : Own after out ro out_at (ys ++ moved)
    pub rest_has : Own after a ra rest_at rest
    pub frames : Frames m after out a

  Parted-shift :
      (m : Memory A) (p : Ptr) (qs ps : List Ptr) (x : A) (xs ys : List A) (half : ℕ)
      (o : Own m out ro qs ys) (w : Own m a ra (p ∷ ps) (x ∷ xs)) (answer : Option (Memory A))
      → Parted (shifted z m out a ro ra p qs ps x xs ys o w ne) xs (ys ++ (x ∷ [])) half answer
      → Parted m (x ∷ xs) ys half answer
  Parted-shift m p qs ps x xs ys half o w answer s = record {
    after = s.after;
    answered = s.answered;
    moved = x ∷ s.moved;
    rest = s.rest;
    out_at = s.out_at;
    rest_at = s.rest_at;
    whole = ap (λ r. x ∷ r) s.whole;
    size = s.size;
    out_has = subst (Own s.after out ro s.out_at) (append_assoc ys (x ∷ []) s.moved) s.out_has;
    rest_has = s.rest_has;
    frames =
        Frames-trans m (shifted z m out a ro ra p qs ps x xs ys o w ne) s.after out a
          (shifted-Frames z m out a ro ra p qs ps x xs ys o w ne) s.frames;
  }

  Parted-done :
      (m : Memory A) (qs ps : List Ptr) (ys xs : List A) (half : ℕ) (answer : Option (Memory A))
      → Own m out ro qs ys
      → Own m a ra ps xs
      → length xs ≡ half
      → answer ≡ some m
      → Parted m xs ys half answer
  Parted-done m qs ps ys xs half answer o w h e = record {
    after = m;
    answered = e;
    moved = [];
    rest = xs;
    out_at = qs;
    rest_at = ps;
    whole = refl;
    size = h;
    out_has = subst (Own m out ro qs) (sym (append-nil ys)) o;
    rest_has = w;
    frames = Frames-refl m out a;
  }

  -- `split`'s loop moves values as long as more than `half` are left.
  pub split_loop_lem :
      (fuel half : ℕ) (m : Memory A) (qs ps : List Ptr) (ys xs : List A)
      → Own m out ro qs ys
      → Own m a ra ps xs
      → half ≤ length xs
      → length xs < fuel + half
      → Parted m xs ys half (split_loop z fuel half m a out)
  unfolding split_loop
  split_loop_lem zero half m qs ps ys xs o w h f = absurd (omega arith)
  split_loop_lem (suc fuel) half m qs ps ys [] o w h f =
      Parted-done m qs ps ys [] half (split_loop z (suc fuel) half m a out) o w (omega arith)
        (ground (arith, Own-len m a ra ps [] w))
  split_loop_lem (suc fuel) half m qs [] ys (x ∷ xs) o w h f = absurd (cc w.are)
  split_loop_lem (suc fuel) half m qs (p ∷ ps) ys (x ∷ xs) o w h f =
      elim (Bool-cases (ltb half (suc (length xs)))) [
        | inr full ↦
            Parted-done m qs (p ∷ ps) ys (x ∷ xs) half (split_loop z (suc fuel) half m a out) o w
              (ground (arith, full)) (ground (arith, full, Own-len m a ra (p ∷ ps) (x ∷ xs) w))
        | inl more ↦
            let m' = shifted z m out a ro ra p qs ps x xs ys o w ne in
            let rest =
              split_loop_lem fuel half m' (qs ++ (p ∷ [])) ps (ys ++ (x ∷ [])) xs
                (shifted-Own z m out a ro ra p qs ps x xs ys o w ne)
                (shifted_rest z m out a ro ra p qs ps x xs ys o w ne) (ground (arith, more))
                (omega arith) in
            Parted-shift m p qs ps x xs ys half o w (split_loop z (suc fuel) half m a out) (
              subst (Parted m' xs (ys ++ (x ∷ [])) half)
                (sym (
                  ground (
                    arith,
                    more,
                    Own-len m a ra (p ∷ ps) (x ∷ xs) w,
                    shift_eq z m out a ro ra p qs ps x xs ys o w ne,
                  )))
                rest)
      ]
