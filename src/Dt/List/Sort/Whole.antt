-- ===== src/Dt/List/Sort/Whole.antt =====
-- `SortMerge` of dt/list.go from its parts.
use fun.Prelude.{
  ℕ, zero, suc, ◌+◌, ◌<◌, ◌≤◌, ◌≡◌, ◌≢◌, refl, sym, ap, ◌∙◌, ◌⊎◌, inl, inr, Bool, true, false,
  Option, some, List, [], ◌∷◌, length, length-append, arith, ltb, Bool-cases,
}
use fun.Links.{Ptr}
use fun.Dt.Heap.Order.{Ordering, Sorted, passing, passing_all}
use fun.Dt.List.{Memory, len}
use fun.Dt.List.Own.{Own}
use fun.Dt.List.Sort.{split, merge, merge_sort}
use fun.Dt.List.Sort.Merged.{merged, merged-Sorted, passing-merged, passing-append}
use fun.Dt.List.Sort.Shift.{Frames, Frames-refl, Own-len}
use fun.Dt.List.Sort.Parts.{Halves, split_lem, Union, merge_lem}

module _ {A : Type 0} (z : A) (less : A → A → Bool) where
  -- What the sort of a list leaves: the list itself when it is short, else a new one.
  pub record Arranged (m : Memory A) (l : Ptr) (xs : List A) (answer : Option (Ptr × Memory A))
      : Type 0 where
    pub list : Ptr
    pub after : Memory A
    pub answered : answer ≡ some (list, after)
    pub root : Ptr
    pub at : List Ptr
    pub are : List A
    pub holds : Own after list root at are
    pub sorted : Ordering less → Sorted less are
    pub same : (p : A → Bool) → passing p are ≡ passing p xs
    pub frames : Frames m after l l
    pub place : ((list ≡ l) × (length xs < 2)) ⊎ (m.fresh ≤ list)

  short-Sorted : (xs : List A) → length xs < 2 → Sorted less xs
  short-Sorted [] h = tt
  short-Sorted (x ∷ []) h = (tt, tt)
  short-Sorted (x ∷ y ∷ ys) h = absurd (omega arith)

  pub counted :
      (ys xs : List A)
      → ((p : A → Bool) → passing p ys ≡ passing p xs)
      → 0 < length xs
      → 0 < length ys
  counted ys xs e h = omega (arith, e (λ x. true), passing_all ys, passing_all xs)

  merge_sort_steps :
      (fuel : ℕ) (m m1 m2 m3 m4 : Memory A) (l t o1 o2 o3 : Ptr)
      → ltb (len m l) 2 ≡ false
      → split z m l ≡ some (t, m1)
      → merge_sort z less fuel m1 l ≡ some (o1, m2)
      → merge_sort z less fuel m2 t ≡ some (o2, m3)
      → merge z less m3 o1 o2 ≡ some (o3, m4)
      → merge_sort z less (suc fuel) m l ≡ some (o3, m4)
  unfolding merge_sort
  merge_sort_steps fuel m m1 m2 m3 m4 l t o1 o2 o3 e f g h k =
      rw (e, merge_sort) (rw f (rw g (rw h (rw k refl))))

  -- The sorted halves of a list of two values or more, merged.
  module _ (fuel : ℕ) (m : Memory A) (l r : Ptr) (ps : List Ptr) (xs : List A) (o : Own m l r ps xs)
      (many : 2 ≤ length xs) (s : Halves z m l r xs)
      (a : Arranged s.after l s.rest (merge_sort z less fuel s.after l))
      (b : Arranged a.after m.fresh s.moved (merge_sort z less fuel a.after m.fresh)) where
    away : a.list ≢ m.fresh
    away = elim a.place [
      | inl c ↦ omega (arith, c.0, o.list_old)
      | inr c ↦ omega (arith, c, s.out_has.list_old)
    ]

    both : a.list ≢ b.list
    both = elim b.place [
      | inl c ↦ (λ e. away (e ∙ c.0))
      | inr c ↦ omega (arith, c, a.holds.list_old)
    ]

    union : Union z b.after less a.list b.list a.are b.are
    union =
        let total = sym (length-append s.moved s.rest) ∙ ap length s.whole in
        merge_lem z b.after less a.list b.list a.root b.root a.at b.at a.are b.are
          (b.frames.others a.list a.root a.at a.are away away a.holds) b.holds both
          (counted a.are s.rest a.same (omega (arith, s.size)))
          (counted b.are s.moved b.same (omega (arith, s.size, total)))

    whole-Frames : Frames m union.after l l
    whole-Frames = record {
      others = λ c rc qs ys n n' h.
          let new : c < m.fresh = h.list_old in
          let far : c ≢ m.fresh = omega arith in
          let not_a : c ≢ a.list = elim a.place [
            | inl k ↦ (λ e. n (e ∙ k.0))
            | inr k ↦ omega (arith, k, s.frames.grows)
          ] in
          let not_b : c ≢ b.list = elim b.place [
            | inl k ↦ (λ e. far (e ∙ k.0))
            | inr k ↦ omega (arith, k, s.frames.grows, a.frames.grows)
          ] in
          union.frames.others c rc qs ys not_a not_b (
            b.frames.others c rc qs ys far far
              (a.frames.others c rc qs ys n n' (s.frames.others c rc qs ys n n' h)));
      grows = omega (arith, s.frames.grows, a.frames.grows, b.frames.grows, union.frames.grows);
    }

    whole_same : (p : A → Bool) → passing p (merged less a.are b.are) ≡ passing p xs
    whole_same p =
        let all = passing-merged less p a.are b.are in
        let parts = passing-append p s.moved s.rest in
        omega (arith, all, parts, a.same p, b.same p, ap (passing p) s.whole)

    arranged : Arranged m l xs (merge_sort z less (suc fuel) m l)
    arranged =
        let long : ltb (length xs) 2 ≡ false = ground arith in
        record {
          list = b.after.fresh;
          after = union.after;
          answered =
              merge_sort_steps fuel m s.after a.after b.after union.after l m.fresh a.list b.list
                b.after.fresh (ap (λ n. ltb n 2) (Own-len m l r ps xs o) ∙ long) s.answered
                a.answered b.answered union.answered;
          root = b.after.fresh + 1;
          at = union.at;
          are = merged less a.are b.are;
          holds = union.has_all;
          sorted = λ q. merged-Sorted less a.are b.are q (a.sorted q) (b.sorted q);
          same = whole_same;
          frames = whole-Frames;
          place = inr (omega (arith, s.frames.grows, a.frames.grows, b.frames.grows));
        }

  -- `mergeSort` ends within the fuel of one round more than there are values, with no nil dereference.
  pub merge_sort_lem :
      (fuel : ℕ) (m : Memory A) (l r : Ptr) (ps : List Ptr) (xs : List A)
      → Own m l r ps xs
      → length xs < fuel
      → Arranged m l xs (merge_sort z less fuel m l)
  unfolding merge_sort
  merge_sort_lem zero m l r ps xs o f = absurd (omega arith)
  merge_sort_lem (suc fuel) m l r ps xs o f = elim (Bool-cases (ltb (length xs) 2)) [
    | inl short ↦
        let sized : ltb (len m l) 2 ≡ true = ap (λ n. ltb n 2) (Own-len m l r ps xs o) ∙ short in
        let few : length xs < 2 = ground (arith, short) in
        record {
          list = l;
          after = m;
          answered = rw (sized, merge_sort) refl;
          root = r;
          at = ps;
          are = xs;
          holds = o;
          sorted = λ q. short-Sorted xs few;
          same = λ p. refl;
          frames = Frames-refl m l l;
          place = inl (refl, few);
        }
    | inr long ↦
        let many : 2 ≤ length xs = ground (arith, long) in
        let s = split_lem z m l r ps xs o many in
        let total : length s.moved + length s.rest ≡ length xs =
          sym (length-append s.moved s.rest) ∙ ap length s.whole in
        let left_out : m.fresh ≢ l = omega (arith, o.list_old) in
        let a =
          merge_sort_lem fuel s.after l r s.rest_at s.rest s.rest_has (omega (arith, s.size)) in
        let b =
          merge_sort_lem fuel a.after m.fresh (m.fresh + 1) s.out_at s.moved
            (a.frames.others m.fresh (m.fresh + 1) s.out_at s.moved left_out left_out s.out_has)
            (omega (arith, s.size)) in
        arranged fuel m l r ps xs o many s a b
  ]
