-- ===== src/Dt/List/Sort/Shift.antt =====
-- One element of a list of dt/list.go moved to the end of another, which may be new.
use fun.Prelude.{
  ◌+◌, ◌≤◌, ◌≡◌, ◌≢◌, refl, sym, ap, ◌∙◌, false, some, List, [], ◌∷◌, ◌++◌, length, arith,
}
use mathlib.Core.Path.{subst}
use fun.Links.{Ptr, update}
use fun.Dt.List.{Memory, nil, back, len}
use fun.Dt.List.IsList.{next_of, prev_of}
use fun.Dt.List.Iterate.{len-eq, length-values}
use fun.Dt.List.Middle.{last_or, prev_end}
use fun.Dt.List.Own.{
  Own, Own-frame, popped, popped_eq, popped-Own, popped-Loose, popped_item, popped-Frame, extended,
  extended_eq, extended-Own, extended-Frame,
}
use fun.Dt.List.Remove.{back_eq}
use fun.Dt.List.Sort.{new_list, shift}

module _ {A : Type 0} where
  -- The lists other than these two are there as they were.
  pub record Frames (m m' : Memory A) (a b : Ptr) : Type 0 where
    pub others :
        (c r : Ptr) (ps : List Ptr) (xs : List A)
        → c ≢ a
        → c ≢ b
        → Own m c r ps xs
        → Own m' c r ps xs
    pub grows : m.fresh ≤ m'.fresh

  pub Frames-refl : (m : Memory A) (a b : Ptr) → Frames m m a b
  Frames-refl m a b = record { others = λ c r ps xs n n' o. o; grows = omega arith }

  pub Frames-trans :
      (m m' m'' : Memory A) (a b : Ptr) → Frames m m' a b → Frames m' m'' a b → Frames m m'' a b
  Frames-trans m m' m'' a b f g = record {
    others = λ c r ps xs n n' o. g.others c r ps xs n n' (f.others c r ps xs n n' o);
    grows = omega (arith, f.grows, g.grows);
  }

  pub Frames-swap : (m m' : Memory A) (a b : Ptr) → Frames m m' a b → Frames m m' b a
  Frames-swap m m' a b f = record {
    others = λ c r ps xs n n' o. f.others c r ps xs n' n o;
    grows = f.grows;
  }

  pub Own-len :
      (m : Memory A) (l r : Ptr) (ps : List Ptr) (xs : List A)
      → Own m l r ps xs
      → len m l ≡ length xs
  Own-len m l r ps xs o =
      len-eq m l r (r + 1) ps o.is_list
      ∙ sym (length-values (m.elements r).item m ps)
      ∙ ap length o.are

  module _ (z : A) (m : Memory A) where
    -- The memory after the first use of a new list.
    unfoldable pub ready : Memory A
    unfolding new_list
    ready =
        let n = (new_list m).1 in
        let r = n.fresh in
        record n {
          elements =
              update n.elements r
                (record { next = r; prev = r; list = m.fresh; ok = false; item = z });
          lengths = update n.lengths (r + 1) 0;
          lists = update n.lists m.fresh (record { head = r; meta = r + 1 });
          fresh = r + 1 + 1;
        }

    pub new-back : m.fresh ≢ nil → back z (new_list m).1 m.fresh ≡ some (m.fresh + 1, ready)
    unfolding back new_list ready
    new-back f = ground arith

    pub ready-Own : m.fresh ≢ nil → Own ready m.fresh (m.fresh + 1) [] []
    unfolding ready
    ready-Own f = record {
      is_list = record {
        list_not_nil = f;
        root_not_nil = omega arith;
        meta_not_nil = omega arith;
        head_is = ground arith;
        meta_is = ground arith;
        counted = ground arith;
        chain = ground arith;
        distinct = tt;
        root_apart = refl;
        root_listed = ground arith;
        root_bad = ground arith;
        root_old = omega arith;
        member = λ p i. absurd (cc i);
      };
      are = refl;
      list_old = omega arith;
      meta_old = omega arith;
    }

    pub ready-others :
        (c r : Ptr) (ps : List Ptr) (xs : List A) → Own m c r ps xs → Own ready c r ps xs
    unfolding ready
    ready-others c r ps xs o =
        let h = o.is_list in
        Own-frame m ready c r ps xs o (λ e i. ground (arith, h.member e, h.root_old))
          (ground (arith, o.list_old)) (ground (arith, o.meta_old)) (omega arith)

  pub back-last :
      (z : A) (m : Memory A) (l r : Ptr) (ps : List Ptr) (xs : List A)
      → Own m l r ps xs
      → back z m l ≡ some (last_or r ps, m)
  back-last z m l r ps xs o =
      let h = o.is_list in
      ground (arith, back_eq z m l r (r + 1) ps h, prev_end (next_of m) (prev_of m) r ps r h.chain)

  module _ (z : A) (m : Memory A) (out a ro ra p : Ptr) (qs ps : List Ptr) (x : A) (xs ys : List A)
      (o : Own m out ro qs ys) (w : Own m a ra (p ∷ ps) (x ∷ xs)) (ne : a ≢ out) where
    gone : Memory A
    gone = popped m a ra p ps x xs w

    gone-Own : Own gone out ro qs ys
    unfolding gone
    gone-Own = (popped-Frame m a ra p ps x xs w).others out ro qs ys (λ e. ne (sym e)) o

    -- The memory after the first element of `a` has been moved to the end of `out`.
    pub shifted : Memory A
    unfolding gone
    shifted = extended gone out ro p qs ys gone-Own (popped-Loose m a ra p ps x xs w)

    pub shift_eq : shift z m out a ≡ some shifted
    unfolding shift shifted gone
    shift_eq = ground (
      arith,
      back-last z m out ro qs ys o,
      popped_eq m a ra p ps x xs w z,
      extended_eq gone out ro p qs ys gone-Own (popped-Loose m a ra p ps x xs w),
    )

    pub shifted-Own : Own shifted out ro (qs ++ (p ∷ [])) (ys ++ (x ∷ []))
    unfolding shifted gone
    shifted-Own =
        let long = extended-Own gone out ro p qs ys gone-Own (popped-Loose m a ra p ps x xs w) in
        let item = popped_item m a ra p ps x xs w in
        subst (λ v. Own shifted out ro (qs ++ (p ∷ [])) (ys ++ (v ∷ []))) item long

    pub shifted_rest : Own shifted a ra ps xs
    unfolding shifted gone
    shifted_rest =
        (extended-Frame gone out ro p qs ys gone-Own (popped-Loose m a ra p ps x xs w)).others a ra
          ps xs ne (popped-Own m a ra p ps x xs w)

    pub shifted-Frames : Frames m shifted out a
    unfolding shifted gone
    shifted-Frames =
        let f = popped-Frame m a ra p ps x xs w in
        let g = extended-Frame gone out ro p qs ys gone-Own (popped-Loose m a ra p ps x xs w) in
        record {
          others = λ c r us vs n n' k. g.others c r us vs n (f.others c r us vs n' k);
          grows = omega (arith, f.grows, g.grows);
        }
