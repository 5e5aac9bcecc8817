-- ===== src/Dt/Heap/Push.antt =====
-- Push of dt/heap.go: the value goes behind the last one that is not greater.
use fun.Prelude.{
  ℕ, zero, suc, ◌<◌, ◌≡◌, refl, ap, sym, ◌∙◌, Bool, true, false, List, [], ◌∷◌, ◌++◌, some,
  if◌then◌else◌, arith, length, length-append, inl, inr, Bool-cases,
}
use mathlib.Core.List.{append_assoc, append-nil}
use mathlib.Core.Path.{subst}
use fun.Links.{Ptr, has, Chain, snoc_cases}
use fun.Dt.List.{Memory, len}
use fun.Dt.List.IsList.{next_of, prev_of, values, IsList}
use fun.Dt.List.Push.{Contains, values-append, push_front_lem, push_back_lem}
use fun.Dt.List.Middle.{last_or, prev_end, prev_middle, last_or-snoc, has-middle, push_middle}
use fun.Dt.List.Remove.{back_eq}
use fun.Dt.List.Iterate.{is_ok-root, is_ok-member, len-eq}
use fun.Dt.Heap.{push_from, push_list}

module _ {A : Type 0} (less : A → A → Bool) (t : A) where
  -- Whether the value is below each of these.
  unfoldable pub below_all : List A → Bool
  below_all [] = true
  below_all (x ∷ xs) = if less t x then below_all xs else false

  -- The list with the value behind the last one that is not greater.
  unfoldable pub placed : List A → List A
  unfolding below_all
  placed [] = t ∷ []
  placed (x ∷ xs) = if below_all (x ∷ xs) then t ∷ x ∷ xs else x ∷ placed xs

  placed_front : (xs : List A) → below_all xs ≡ true → placed xs ≡ t ∷ xs
  unfolding placed
  placed_front [] h = refl
  placed_front (x ∷ xs) h = ground arith

  not_below :
      (xs : List A) (y : A) (ys : List A) → less t y ≡ false → below_all (xs ++ (y ∷ ys)) ≡ false
  unfolding below_all
  not_below [] y ys h = ground arith
  not_below (x ∷ xs) y ys h = ground (arith, not_below xs y ys h)

  placed_middle :
      (xs : List A) (y : A) (ys : List A)
      → less t y ≡ false
      → below_all ys ≡ true
      → placed (xs ++ (y ∷ ys)) ≡ xs ++ (y ∷ t ∷ ys)
  unfolding placed
  placed_middle [] y ys h b = ground (arith, placed_front ys b, not_below [] y ys h)
  placed_middle (x ∷ xs) y ys h b =
      ground (arith, placed_middle xs y ys h b, not_below (x ∷ xs) y ys h)

module _ {A : Type 0} (z : A) (less : A → A → Bool) (t : A) (m : Memory A) (l r k : Ptr)
    (all : List Ptr) (h : IsList m l r k all) where
  -- What a run of the loop from this element gives.
  abbrev Placed : ℕ → Ptr → Type 0
  Placed fuel item =
      (m' : Memory A) × (push_from z fuel less m l item t ≡ some m')
      × Contains m' l (placed less t (values m all))

  -- At the root every value is greater.
  push_root :
      (fuel : ℕ) (item : Ptr)
      → item ≡ r
      → below_all less t (values m all) ≡ true
      → Placed (suc fuel) item
  unfolding push_from
  push_root fuel item at b =
      let (m', e, c) =
        push_front_lem z m l (values m all) t
          (record { root = r; meta = k; at = all; is_list = h; are = refl }) in
      (
        m',
        ground (arith, at, is_ok-root m l r k all h, e),
        subst (Contains m' l) (sym (placed_front less t (values m all) b)) c,
      )

  push_here :
      (fuel : ℕ) (item : Ptr) (ps : List Ptr) (p : Ptr) (rest : List Ptr)
      → item ≡ p
      → all ≡ ps ++ (p ∷ rest)
      → below_all less t (values m rest) ≡ true
      → less t (m.elements p).item ≡ false
      → Placed (suc fuel) item
  unfolding push_from
  push_here fuel item ps p rest at e b n =
      let h' = subst (IsList m l r k) e h in
      let here : has p all ≡ true = ap (has p) e ∙ has-middle ps p rest in
      let good = is_ok-member m l r k all h p here in
      let (m', q, c) = push_middle m l r k ps p rest t h' (ground (arith, has-middle ps p rest)) in
      let same =
        ap (λ qs. placed less t (values m qs)) e
        ∙ ap (placed less t) (values-append m ps (p ∷ rest))
        ∙ placed_middle less t (values m ps) (m.elements p).item (values m rest) n b in
      (m', ground (arith, at, good, n, q), subst (Contains m' l) (sym same) c)

  push_on :
      (fuel : ℕ) (item p : Ptr)
      → item ≡ p
      → has p all ≡ true
      → less t (m.elements p).item ≡ true
      → Placed fuel (prev_of m p)
      → Placed (suc fuel) item
  unfolding push_from
  push_on fuel item p at here y (m', e, c) =
      let good = is_ok-member m l r k all h p here in (m', ground (arith, at, good, y, e), c)

  -- The walk back, with the elements that are still ahead of it and those behind it, which are greater.
  push_walk :
      (fuel : ℕ) (qs rest : List Ptr) (item : Ptr)
      → all ≡ qs ++ rest
      → item ≡ last_or r qs
      → below_all less t (values m rest) ≡ true
      → length qs < fuel
      → Placed fuel item
  unfolding below_all
  push_walk zero qs rest item e at b f = absurd (omega (arith, f))
  push_walk (suc fuel) qs rest item e at b f = elim (snoc_cases qs) [
    | inl n ↦
        let whole : all ≡ rest = e ∙ ap (λ xs. xs ++ rest) n in
        push_root fuel item (at ∙ ap (last_or r) n)
          (ap (λ xs. below_all less t (values m xs)) whole ∙ b)
    | inr (ps, p, n) ↦
        let split : all ≡ ps ++ (p ∷ rest) =
          e ∙ ap (λ xs. xs ++ rest) n ∙ append_assoc ps (p ∷ []) rest in
        let at' : item ≡ p = at ∙ ap (last_or r) n ∙ last_or-snoc r ps p in
        elim (Bool-cases (less t (m.elements p).item)) [
          | inl y ↦
              let chain = subst (λ xs. Chain (next_of m) (prev_of m) r xs r) split h.chain in
              let back = prev_middle (next_of m) (prev_of m) r ps p rest r chain in
              let short : length ps < fuel =
                omega (arith, f, ap length n, length-append {0} ps (p ∷ [])) in
              push_on fuel item p at' (ap (has p) split ∙ has-middle ps p rest) y
                (push_walk fuel ps (p ∷ rest) (prev_of m p) split back (ground (arith, y, b)) short)
          | inr y ↦ push_here fuel item ps p rest at' split b y
        ]
  ]

module _ {A : Type 0} (z : A) (less : A → A → Bool) (t : A) where
  back_walk :
      (m : Memory A) (l r k : Ptr) (ps : List Ptr) (h : IsList m l r k ps)
      → (m' : Memory A) × (push_from z (suc (len m l)) less m l (prev_of m r) t ≡ some m')
        × Contains m' l (placed less t (values m ps))
  unfolding below_all
  back_walk m l r k ps h =
      push_walk z less t m l r k ps h (suc (len m l)) ps [] (prev_of m r) (sym (append-nil ps))
        (prev_end (next_of m) (prev_of m) r ps r h.chain) refl (omega (arith, len-eq m l r k ps h))

  -- The list gets the value behind the last one that is not greater.
  pub push_list_lem :
      (m : Memory A) (l : Ptr) (xs : List A)
      → Contains m l xs
      → (m' : Memory A) × (push_list z less m l t ≡ some m') × Contains m' l (placed less t xs)
  unfolding push_list placed
  push_list_lem m l xs c = go c.at c.is_list c.are
    where
      go :
          (ps : List Ptr)
          → IsList m l c.root c.meta ps
          → values m ps ≡ xs
          → (m' : Memory A) × (push_list z less m l t ≡ some m') × Contains m' l (placed less t xs)
      go [] h v =
          let (m', e, d) = push_back_lem z m l xs t c in
          let same = ap (placed less t) (sym v) ∙ ap (λ ys. ys ++ (t ∷ [])) v in
          (m', ground (arith, len-eq m l c.root c.meta [] h, e), subst (Contains m' l) (sym same) d)
      go (p ∷ ps) h v =
          let (m', e, d) = back_walk m l c.root c.meta (p ∷ ps) h in
          (
            m',
            ground (
              arith,
              len-eq m l c.root c.meta (p ∷ ps) h,
              back_eq z m l c.root c.meta (p ∷ ps) h,
              e,
            ),
            subst (λ ys. Contains m' l (placed less t ys)) v d,
          )
