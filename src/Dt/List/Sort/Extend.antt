-- ===== src/Dt/List/Sort/Extend.antt =====
-- `Extend` of dt/list.go by the iterator of another list, which stays as it is.
use fun.Prelude.{
  ℕ, zero, suc, ◌+◌, ◌<◌, ◌≡◌, ◌≢◌, refl, sym, ap, ◌∙◌, true, Option, some, List, [], ◌∷◌, ◌++◌,
  length, length-append, arith,
}
use mathlib.Core.Path.{subst}
use mathlib.Core.List.{append_assoc, append-nil}
use fun.Links.{Ptr, Chain}
use fun.Dt.List.{Memory, detached, allocate, len, push, push_back}
use fun.Dt.List.Append.{Loose}
use fun.Dt.List.IsList.{next_of, prev_of, values}
use fun.Dt.List.Iterate.{is_ok-root, is_ok-member, len-eq}
use fun.Dt.List.Middle.{last_or, last_or-snoc, has-middle}
use fun.Dt.List.Remove.{front_eq}
use fun.Dt.List.Own.{Own, Own-frame, extended, extended_eq, extended-Own, extended-Frame}
use fun.Dt.List.Sort.{extend_from, extend}
use fun.Dt.List.Sort.Shift.{Frames, Frames-refl, Frames-trans, Own-len, back-last}

module _ (nx pv : Ptr → Ptr) where
  next_end : (p : Ptr) (xs : List Ptr) (q : Ptr) → Chain nx pv p xs q → nx (last_or p xs) ≡ q
  next_end p [] q c = ground (arith, c)
  next_end p (x ∷ xs) q c = next_end x xs q c.2

  next_middle :
      (p : Ptr) (xs : List Ptr) (a : Ptr) (ys : List Ptr) (q : Ptr)
      → Chain nx pv p (xs ++ (a ∷ ys)) q
      → nx (last_or p xs) ≡ a
  next_middle p [] a ys q c = c.0
  next_middle p (x ∷ xs) a ys q c = next_middle x xs a ys q c.2

module _ {A : Type 0} where
  module _ (z : A) (m : Memory A) (l r : Ptr) (ps : List Ptr) (xs : List A) (o : Own m l r ps xs)
      (v : A) where
    unfoldable fresher : Memory A
    fresher = allocate m (detached true v)

    fresher-others :
        (c rc : Ptr) (qs : List Ptr) (ys : List A) → Own m c rc qs ys → Own fresher c rc qs ys
    unfolding fresher
    fresher-others c rc qs ys w =
        let h = w.is_list in
        Own-frame m fresher c rc qs ys w (λ e i. ground (arith, h.member e, h.root_old)) refl refl
          (omega arith)

    fresher-Loose : Loose fresher m.fresh
    unfolding fresher
    fresher-Loose = record {
      not_nil = omega (arith, o.list_old);
      unlisted = ground arith;
      good = ground arith;
      old = omega arith;
    }

    grown-of : Own fresher l r ps xs
    grown-of = fresher-others l r ps xs o

    -- The memory after the value has been pushed behind the others.
    pub grown : Memory A
    grown = extended fresher l r m.fresh ps xs grown-of fresher-Loose

    pub grown_eq : push_back z m l v ≡ some grown
    unfolding push_back push grown fresher
    grown_eq = ground (
      arith,
      back-last z m l r ps xs o,
      extended_eq fresher l r m.fresh ps xs grown-of fresher-Loose,
    )

    pub grown-Own : Own grown l r (ps ++ (m.fresh ∷ [])) (xs ++ (v ∷ []))
    unfolding grown fresher
    grown-Own =
        let long = extended-Own fresher l r m.fresh ps xs grown-of fresher-Loose in
        subst (λ u. Own grown l r (ps ++ (m.fresh ∷ [])) (xs ++ (u ∷ []))) (ground arith) long

    pub grown-others :
        (c rc : Ptr) (qs : List Ptr) (ys : List A) → c ≢ l → Own m c rc qs ys → Own grown c rc qs ys
    unfolding grown
    grown-others c rc qs ys ne w =
        (extended-Frame fresher l r m.fresh ps xs grown-of fresher-Loose).others c rc qs ys ne
          (fresher-others c rc qs ys w)

    pub grown-Frames : (a : Ptr) → Frames m grown l a
    unfolding grown fresher
    grown-Frames a = record {
      others = λ c rc qs ys n n' w. grown-others c rc qs ys n w;
      grows =
          omega (arith, (extended-Frame fresher l r m.fresh ps xs grown-of fresher-Loose).grows);
    }

  values-drop :
      (m : Memory A) (ds qs : List Ptr) (us ws : List A)
      → length ds ≡ length us
      → values m (ds ++ qs) ≡ us ++ ws
      → values m qs ≡ ws
  values-drop m [] qs [] ws n e = e
  values-drop m [] qs (u ∷ us) ws n e = absurd (omega arith)
  values-drop m (d ∷ ds) qs [] ws n e = absurd (omega arith)
  values-drop m (d ∷ ds) qs (u ∷ us) ws n e =
      values-drop m ds qs us ws (omega arith) (ground (arith, e))

  module _ (z : A) (out a ro ra : Ptr) (ne : a ≢ out) where
    -- What the walk through the elements from `qs` on leaves.
    abbrev Extended : Memory A → List Ptr → List A → List A → Option (Memory A) → Type 0
    Extended m ps xs zs answer =
        (m' : Memory A) × (os : List Ptr) × (answer ≡ some m')
        × Own m' out ro os zs
        × Own m' a ra ps xs
        × Frames m m' out a

    pub extend_from_lem :
        (fuel : ℕ) (m : Memory A) (ds qs os : List Ptr) (us ws ys : List A)
        → Own m out ro os ys
        → Own m a ra (ds ++ qs) (us ++ ws)
        → length ds ≡ length us
        → length qs < fuel
        → Extended m
            (ds ++ qs)
            (us ++ ws)
            (ys ++ ws)
            (extend_from z fuel m out (next_of m (last_or ra ds)))
    unfolding extend_from
    extend_from_lem zero m ds qs os us ws ys o w n f = absurd (omega arith)
    extend_from_lem (suc fuel) m ds [] os us ws ys o w n f =
        let h = w.is_list in
        let none_left = values-drop m ds [] us ws n w.are in
        let stop =
          next_end (next_of m) (prev_of m) ra ds ra
            (subst (λ ps. Chain (next_of m) (prev_of m) ra ps ra) (append-nil ds) h.chain) in
        (
          m,
          os,
          ground (arith, stop, is_ok-root m a ra (ra + 1) (ds ++ []) h),
          subst (Own m out ro os) (sym (append-nil ys) ∙ ap (λ r. ys ++ r) none_left) o,
          w,
          Frames-refl m out a,
        )
    extend_from_lem (suc fuel) m ds (p ∷ qs) os us [] ys o w n f =
        absurd (cc (values-drop m ds (p ∷ qs) us [] n w.are))
    extend_from_lem (suc fuel) m ds (p ∷ qs) os us (v ∷ ws) ys o w n f =
        let h = w.is_list in
        let at = next_middle (next_of m) (prev_of m) ra ds p qs ra h.chain in
        let inside = has-middle ds p qs in
        let good = is_ok-member m a ra (ra + 1) (ds ++ (p ∷ qs)) h p inside in
        let item : (m.elements p).item ≡ v =
          ground (arith, values-drop m ds (p ∷ qs) us (v ∷ ws) n w.are) in
        let m' = grown z m out ro os ys o v in
        let again = grown-others z m out ro os ys o v a ra (ds ++ (p ∷ qs)) (us ++ (v ∷ ws)) ne w in
        let places : ds ++ (p ∷ qs) ≡ (ds ++ (p ∷ [])) ++ qs = sym (append_assoc ds (p ∷ []) qs) in
        let things : us ++ (v ∷ ws) ≡ (us ++ (v ∷ [])) ++ ws = sym (append_assoc us (v ∷ []) ws) in
        let (m'', os', e, o', w', g) =
          extend_from_lem fuel m' (ds ++ (p ∷ [])) qs (os ++ (m.fresh ∷ [])) (us ++ (v ∷ [])) ws
            (ys ++ (v ∷ [])) (grown-Own z m out ro os ys o v)
            (subst (λ ps. Own m' a ra ps ((us ++ (v ∷ [])) ++ ws)) places
              (subst (Own m' a ra (ds ++ (p ∷ qs))) things again))
            (ground (arith, length-append ds (p ∷ []), length-append us (v ∷ []))) (omega arith) in
        (
          m'',
          os',
          ground (
            arith,
            at,
            good,
            item,
            (h.member p inside).not_nil,
            grown_eq z m out ro os ys o v,
            last_or-snoc ra ds p,
            e,
          ),
          subst (Own m'' out ro os') (append_assoc ys (v ∷ []) ws) o',
          subst (λ ps. Own m'' a ra ps (us ++ (v ∷ ws))) (sym places)
              (subst (Own m'' a ra ((ds ++ (p ∷ [])) ++ qs)) (sym things) w'),
          Frames-trans m m' m'' out a (grown-Frames z m out ro os ys o v a) g,
        )

    -- `Extend` by the iterator of another list puts that list's values behind the others.
    pub extend_lem :
        (m : Memory A) (ps os : List Ptr) (xs ys : List A)
        → Own m out ro os ys
        → Own m a ra ps xs
        → Extended m ps xs (ys ++ xs) (extend z m out a)
    unfolding extend
    extend_lem m ps os xs ys o w =
        let h = w.is_list in
        let sized = Own-len m a ra ps xs w in
        let (m', os', e, o', w', g) =
          extend_from_lem (len m a + 1) m [] ps os [] xs ys o w refl
            (ground (arith, len-eq m a ra (ra + 1) ps h)) in
        (m', os', ground (arith, front_eq z m a ra (ra + 1) ps h, e), o', w', g)
