-- ===== src/Dt/List/Sort/Parts.antt =====
-- `split` and `merge` of dt/list.go on lists that hold some values.
use fun.Prelude.{
  ℕ, suc, Bool, if◌then◌else◌, ◌+◌, ◌/◌, ◌<◌, ◌≤◌, ◌≡◌, ◌≢◌, refl, sym, ap, ◌∙◌, inl, inr, true,
  some, List, [], ◌∷◌, ◌++◌, length, arith, ltb, Bool-cases,
}
use mathlib.Core.Path.{subst}
use mathlib.Core.List.{append_assoc}
use fun.Links.{Ptr}
use fun.Dt.List.{Memory, ◌>>=◌, nil, len}
use fun.Dt.List.Own.{Own, Own-frame}
use fun.Dt.List.Sort.{new_list, shift, split_loop, split, merge_loop, merge, extend}
use fun.Dt.List.Sort.Merged.{merged}
use fun.Dt.List.Sort.Shift.{
  Frames, Own-len, ready, new-back, shifted, shift_eq, ready-Own, ready-others, back-last,
}
use fun.Dt.List.Sort.Loops.{split_loop_lem}
use fun.Dt.List.Sort.Merge.{merge_loop_lem, merge_round, front-first}
use fun.Dt.List.Sort.Extend.{extend_lem}

split_round :
    {A : Type 0} (z : A) (fuel half : ℕ) (m : Memory A) (l out : Ptr)
    → ltb half (len m l) ≡ true
    → split_loop z (suc fuel) half m l out
      ≡ shift z m out l >>= (λ m'. split_loop z fuel half m' l out)
unfolding split_loop
split_round z fuel half m l out t = rw (t, split_loop) refl

module _ {A : Type 0} (z : A) (m : Memory A) where
  pub new-others :
      (c r : Ptr) (ps : List Ptr) (xs : List A) → Own m c r ps xs → Own (new_list m).1 c r ps xs
  unfolding new_list
  new-others c r ps xs o =
      Own-frame m (new_list m).1 c r ps xs o (λ e i. refl) (ground (arith, o.list_old)) refl
        (omega arith)

  ready_grows : m.fresh ≤ (ready z m).fresh
  unfolding ready new_list
  ready_grows = omega arith

  -- The first use of a new list may as well find it set up.
  new-shift :
      (a : Ptr) → m.fresh ≢ nil → shift z (new_list m).1 m.fresh a ≡ shift z (ready z m) m.fresh a
  unfolding shift
  new-shift a f =
      let first = new-back z m f in
      let later = back-last z (ready z m) m.fresh (m.fresh + 1) [] [] (ready-Own z m f) in
      rw (first, later) refl

  -- What `split` makes of a list of these values: a new list with the first of them.
  pub record Halves (l r : Ptr) (xs : List A) : Type 0 where
    pub after : Memory A
    pub answered : split z m l ≡ some (m.fresh, after)
    pub moved : List A
    pub rest : List A
    pub out_at : List Ptr
    pub rest_at : List Ptr
    pub whole : moved ++ rest ≡ xs
    pub size : length rest ≡ length xs / 2
    pub out_has : Own after m.fresh (m.fresh + 1) out_at moved
    pub rest_has : Own after l r rest_at rest
    pub frames : Frames m after l l

  split_loop-new :
      (l r : Ptr) (ps : List Ptr) (xs : List A) (fuel half : ℕ)
      → Own m l r ps xs
      → m.fresh ≢ nil
      → half < length xs
      → split_loop z (suc fuel) half (new_list m).1 l m.fresh
        ≡ split_loop z (suc fuel) half (ready z m) l m.fresh
  split_loop-new l r ps xs fuel half o f h =
      let before = Own-len (new_list m).1 l r ps xs (new-others l r ps xs o) in
      let ready_len = Own-len (ready z m) l r ps xs (ready-others z m l r ps xs o) in
      let more : ltb half (length xs) ≡ true = ground arith in
      split_round z fuel half (new_list m).1 l m.fresh (ap (ltb half) before ∙ more)
      ∙ ap (λ s. s >>= (λ m'. split_loop z fuel half m' l m.fresh)) (new-shift l f)
      ∙ sym (split_round z fuel half (ready z m) l m.fresh (ap (ltb half) ready_len ∙ more))

  pub split_lem :
      (l r : Ptr) (ps : List Ptr) (xs : List A) → Own m l r ps xs → 2 ≤ length xs → Halves l r xs
  unfolding split new_list
  split_lem l r ps xs o h =
      let f : m.fresh ≢ nil = omega (arith, o.list_old) in
      let apart : l ≢ m.fresh = omega (arith, o.list_old) in
      let half = length xs / 2 in
      let w = ready-others z m l r ps xs o in
      let s =
        split_loop_lem z m.fresh l (m.fresh + 1) r apart (suc (length xs)) half (ready z m) [] ps []
          xs (ready-Own z m f) w (omega arith) (omega arith) in
      let same = split_loop-new l r ps xs (length xs) half o f (omega arith) in
      let sized : len m l ≡ length xs = Own-len m l r ps xs o in
      record {
        after = s.after;
        answered =
            ap
              (λ k.
                split_loop z (suc k) (k / 2) (new_list m).1 l m.fresh >>= (λ a. some (m.fresh, a)))
              sized
            ∙ ap (λ a. a >>= (λ a. some (m.fresh, a))) (same ∙ s.answered);
        moved = s.moved;
        rest = s.rest;
        out_at = s.out_at;
        rest_at = s.rest_at;
        whole = s.whole;
        size = s.size;
        out_has = s.out_has;
        rest_has = s.rest_has;
        frames = record {
          others = λ c rc qs ys n n' k.
              s.frames.others c rc qs ys (omega (arith, k.list_old)) n
                (ready-others z m c rc qs ys k);
          grows = omega (arith, s.frames.grows, ready_grows);
        };
      }

  -- `merge`'s loop may as well find the new list set up.
  merge_loop-new :
      (less : A → A → Bool) (a b ra rb p q : Ptr) (ps qs : List Ptr) (x v : A) (xs vs : List A)
      (fuel : ℕ)
      → Own m a ra (p ∷ ps) (x ∷ xs)
      → Own m b rb (q ∷ qs) (v ∷ vs)
      → m.fresh ≢ nil
      → (t : Memory A) → shift z (ready z m) m.fresh (if less x v then a else b) ≡ some t
      → merge_loop z less (suc fuel) (new_list m).1 a b m.fresh
        ≡ merge_loop z less (suc fuel) (ready z m) a b m.fresh
  merge_loop-new less a b ra rb p q ps qs x v xs vs fuel o w f t e =
      let n = (new_list m).1 in
      let oa = new-others a ra (p ∷ ps) (x ∷ xs) o in
      let ob = new-others b rb (q ∷ qs) (v ∷ vs) w in
      let pa = ready-others z m a ra (p ∷ ps) (x ∷ xs) o in
      let pb = ready-others z m b rb (q ∷ qs) (v ∷ vs) w in
      let from = if less x v then a else b in
      let first =
        merge_round z less m.fresh a b fuel (length xs) (length vs) n t p q x v
          (Own-len n a ra (p ∷ ps) (x ∷ xs) oa) (Own-len n b rb (q ∷ qs) (v ∷ vs) ob)
          (front-first z n a ra p ps x xs oa) (front-first z n b rb q qs v vs ob)
          (new-shift from f ∙ e) in
      let second =
        merge_round z less m.fresh a b fuel (length xs) (length vs) (ready z m) t p q x v
          (Own-len (ready z m) a ra (p ∷ ps) (x ∷ xs) pa)
          (Own-len (ready z m) b rb (q ∷ qs) (v ∷ vs) pb)
          (front-first z (ready z m) a ra p ps x xs pa)
          (front-first z (ready z m) b rb q qs v vs pb) e in
      first ∙ sym second

  -- What `merge` makes of lists of these values: a new list with all of them.
  pub record Union (less : A → A → Bool) (a b : Ptr) (xs vs : List A) : Type 0 where
    pub after : Memory A
    pub answered : merge z less m a b ≡ some (m.fresh, after)
    pub at : List Ptr
    pub has_all : Own after m.fresh (m.fresh + 1) at (merged less xs vs)
    pub frames : Frames m after a b
    pub grew : m.fresh < after.fresh

  shift_gives :
      (less : A → A → Bool) (a b ra rb p q : Ptr) (ps qs : List Ptr) (x v : A) (xs vs : List A)
      → Own m a ra (p ∷ ps) (x ∷ xs)
      → Own m b rb (q ∷ qs) (v ∷ vs)
      → m.fresh ≢ nil
      → (t : Memory A) × (shift z (ready z m) m.fresh (if less x v then a else b) ≡ some t)
  shift_gives less a b ra rb p q ps qs x v xs vs o w f =
      let fa : a ≢ m.fresh = omega (arith, o.list_old) in
      let fb : b ≢ m.fresh = omega (arith, w.list_old) in
      let pa = ready-others z m a ra (p ∷ ps) (x ∷ xs) o in
      let pb = ready-others z m b rb (q ∷ qs) (v ∷ vs) w in
      let e = ready-Own z m f in
      elim (Bool-cases (less x v)) [
        | inl l ↦ (
          shifted z (ready z m) m.fresh a (m.fresh + 1) ra p [] ps x xs [] e pa fa,
          rw l (shift_eq z (ready z m) m.fresh a (m.fresh + 1) ra p [] ps x xs [] e pa fa),
        )
        | inr g ↦ (
          shifted z (ready z m) m.fresh b (m.fresh + 1) rb q [] qs v vs [] e pb fb,
          rw g (shift_eq z (ready z m) m.fresh b (m.fresh + 1) rb q [] qs v vs [] e pb fb),
        )
      ]

  merge_steps :
      (less : A → A → Bool) (a b : Ptr) (i j : ℕ) (m1 m2 m3 : Memory A)
      → len (new_list m).1 a ≡ i
      → len (new_list m).1 b ≡ j
      → merge_loop z less (suc (i + j)) (new_list m).1 a b m.fresh ≡ some m1
      → extend z m1 m.fresh a ≡ some m2
      → extend z m2 m.fresh b ≡ some m3
      → merge z less m a b ≡ some (m.fresh, m3)
  unfolding merge new_list
  merge_steps less a b i j m1 m2 m3 la lb e f g = rw (la, lb) (rw e (rw f (rw g refl)))

  -- `merge` of two lists that are not empty gives a new one with the merged values.
  pub merge_lem :
      (less : A → A → Bool) (a b ra rb : Ptr) (ps qs : List Ptr) (xs vs : List A)
      → Own m a ra ps xs
      → Own m b rb qs vs
      → a ≢ b
      → 0 < length xs
      → 0 < length vs
      → Union less a b xs vs
  merge_lem less a b ra rb ps qs [] vs o w n k k' = absurd (omega arith)
  merge_lem less a b ra rb ps qs (x ∷ xs) [] o w n k k' = absurd (omega arith)
  merge_lem less a b ra rb [] qs (x ∷ xs) (v ∷ vs) o w n k k' = absurd (cc o.are)
  merge_lem less a b ra rb (p ∷ ps) [] (x ∷ xs) (v ∷ vs) o w n k k' = absurd (cc w.are)
  merge_lem less a b ra rb (p ∷ ps) (q ∷ qs) (x ∷ xs) (v ∷ vs) o w n k k' =
      let f : m.fresh ≢ nil = omega (arith, o.list_old) in
      let fa : a ≢ m.fresh = omega (arith, o.list_old) in
      let fb : b ≢ m.fresh = omega (arith, w.list_old) in
      let (t, e) = shift_gives less a b ra rb p q ps qs x v xs vs o w f in
      let same =
        merge_loop-new less a b ra rb p q ps qs x v xs vs (suc (length xs) + suc (length vs)) o w f
          t e in
      let s =
        merge_loop_lem z less m.fresh a b (m.fresh + 1) ra rb fa fb n
          (suc (suc (length xs) + suc (length vs))) (ready z m) [] (p ∷ ps) (q ∷ qs) (x ∷ xs)
          (v ∷ vs) [] (ready-Own z m f) (ready-others z m a ra (p ∷ ps) (x ∷ xs) o)
          (ready-others z m b rb (q ∷ qs) (v ∷ vs) w) (omega arith) in
      let (m1, at1, e1, o1, a1, f1) =
        extend_lem z m.fresh a (m.fresh + 1) ra fa s.after s.a_at s.out_at s.xs_left s.moved
          s.out_has s.a_has in
      let b1 = f1.others b rb s.b_at s.vs_left fb (λ c. n (sym c)) s.b_has in
      let (m2, at2, e2, o2, b2, f2) =
        extend_lem z m.fresh b (m.fresh + 1) rb fb m1 s.b_at at1 s.vs_left (s.moved ++ s.xs_left) o1
          b1 in
      record {
        after = m2;
        answered =
            merge_steps less a b (suc (length xs)) (suc (length vs)) s.after m1 m2
              (Own-len (new_list m).1 a ra (p ∷ ps) (x ∷ xs) (new-others a ra (p ∷ ps) (x ∷ xs) o))
              (Own-len (new_list m).1 b rb (q ∷ qs) (v ∷ vs) (new-others b rb (q ∷ qs) (v ∷ vs) w))
              (same ∙ s.answered) e1 e2;
        at = at2;
        has_all =
            subst (Own m2 m.fresh (m.fresh + 1) at2)
              (append_assoc s.moved s.xs_left s.vs_left ∙ sym s.whole) o2;
        frames = record {
          others = λ c r us ws n1 n2 h.
              let g : c ≢ m.fresh = omega (arith, h.list_old) in
              f2.others c r us ws g n2 (
                f1.others c r us ws g n1
                  (s.others c r us ws g n1 n2 (ready-others z m c r us ws h)));
          grows = omega (arith, ready_grows, s.grows, f1.grows, f2.grows);
        };
        grew = omega (arith, o2.list_old);
      }
