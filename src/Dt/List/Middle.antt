-- ===== src/Dt/List/Middle.antt =====
-- A push behind any element of a list of dt/list.go, and the walk from its end by the previous element.
use fun.Prelude.{◌≡◌, refl, ap, ◌∙◌, true, false, some, List, [], ◌∷◌, ◌++◌, arith}
use fun.Links.{
  last-has, insert_after_last, Ptr, has, insert_after, insert_after_start, Chain, Distinct,
}
use mathlib.Core.Path.{subst}
use fun.Dt.List.{Memory, push, back, append, allocate, detached}
use fun.Dt.List.Remove.{back_eq}
use fun.Dt.List.IsList.{next_of, prev_of, values, IsList}
use fun.Dt.List.Push.{
  Contains, values-append, values-frame, pushed, pushed_item, push_eq, pushed-IsList, pushed-fresh,
  new, new-IsList, pushed_back-values,
}

-- The last of these, or the one before them.
abbrev pub last_or : Ptr → List Ptr → Ptr
last_or p [] = p
last_or p (x ∷ xs) = last_or x xs

module _ (nx pv : Ptr → Ptr) where
  pub prev_end : (p : Ptr) (xs : List Ptr) (q : Ptr) → Chain nx pv p xs q → pv q ≡ last_or p xs
  prev_end p [] q c = ground (arith, c)
  prev_end p (x ∷ xs) q c = prev_end x xs q c.2

  pub prev_middle :
      (p : Ptr) (xs : List Ptr) (a : Ptr) (ys : List Ptr) (q : Ptr)
      → Chain nx pv p (xs ++ (a ∷ ys)) q
      → pv a ≡ last_or p xs
  prev_middle p [] a ys q c = c.1
  prev_middle p (x ∷ xs) a ys q c = prev_middle x xs a ys q c.2

pub last_or-snoc : (p : Ptr) (xs : List Ptr) (a : Ptr) → last_or p (xs ++ (a ∷ [])) ≡ a
last_or-snoc p [] a = refl
last_or-snoc p (x ∷ xs) a = last_or-snoc x xs a

pub has-middle : (xs : List Ptr) (a : Ptr) (ys : List Ptr) → has a (xs ++ (a ∷ ys)) ≡ true
has-middle [] a ys = ground arith
has-middle (x ∷ xs) a ys = ground (arith, has-middle xs a ys)

pub insert_after-middle :
    (p : Ptr) (xs : List Ptr) (a : Ptr) (ys : List Ptr) (v : Ptr)
    → Distinct (xs ++ (a ∷ ys))
    → has p (xs ++ (a ∷ ys)) ≡ false
    → insert_after p (xs ++ (a ∷ ys)) a v ≡ xs ++ (a ∷ v ∷ ys)
insert_after-middle p [] a ys v d h = ground (arith, insert_after_start a ys v)
insert_after-middle p (x ∷ xs) a ys v d h =
    ground (arith, insert_after-middle x xs a ys v, has-middle xs a ys)

pub has-left : (x : Ptr) (xs ys : List Ptr) → has x xs ≡ true → has x (xs ++ ys) ≡ true
has-left x [] ys i = absurd (cc i)
has-left x (y ∷ xs) ys i = ground (arith, has-left x xs ys)

pub has-right : (x : Ptr) (xs ys : List Ptr) → has x ys ≡ true → has x (xs ++ ys) ≡ true
has-right x [] ys i = i
has-right x (y ∷ xs) ys i = ground (arith, has-right x xs ys)

module _ {A : Type 0} (m : Memory A) (l r k : Ptr) (xs : List Ptr) (e : Ptr) (ys : List Ptr) (a : A)
    (h : IsList m l r k (xs ++ (e ∷ ys))) (here : has e (r ∷ (xs ++ (e ∷ ys))) ≡ true) where
  middle_values :
      values (pushed m l r k (xs ++ (e ∷ ys)) h a e here) (xs ++ (e ∷ m.fresh ∷ ys))
      ≡ values m xs ++ ((m.elements e).item ∷ a ∷ values m ys)
  middle_values =
      let ps = xs ++ (e ∷ ys) in
      let m' = pushed m l r k ps h a e here in
      let kept : (p : Ptr) → has p ps ≡ true → (m'.elements p).item ≡ (m.elements p).item =
        pushed_item m l r k ps h a e here in
      let before = values-frame m m' xs (λ p i. kept p (has-left p xs (e ∷ ys) i)) in
      let after =
        values-frame m m' ys (λ p i. kept p (has-right p xs (e ∷ ys) (ground (arith, i)))) in
      let at = kept e (has-middle xs e ys) in
      let new = pushed-fresh m l r k ps h a e here in
      values-append m' xs (e ∷ m.fresh ∷ ys)
      ∙ ap (λ vs. vs ++ values m' (e ∷ m.fresh ∷ ys)) before
      ∙ ap (λ vs. values m xs ++ vs) (ap (λ v. v ∷ values m' (m.fresh ∷ ys)) at)
      ∙ ap (λ vs. values m xs ++ ((m.elements e).item ∷ vs)) (ap (λ v. v ∷ values m' ys) new)
      ∙ ap (λ vs. values m xs ++ ((m.elements e).item ∷ a ∷ vs)) after

  -- A push behind an element of a list puts the value behind that element's.
  pub push_middle :
      (m' : Memory A) × (push m e a ≡ some (m.fresh, m'))
      × Contains m' l (values m xs ++ ((m.elements e).item ∷ a ∷ values m ys))
  push_middle =
      let ps = xs ++ (e ∷ ys) in
      let m' = pushed m l r k ps h a e here in
      (
        m',
        push_eq m l r k ps h a e here,
        record {
          root = r;
          meta = k;
          at = insert_after r ps e m.fresh;
          is_list = pushed-IsList m l r k ps h a e here;
          are =
              ap (values m') (insert_after-middle r xs e ys m.fresh h.distinct h.root_apart)
              ∙ middle_values;
        },
      )

module _ {A : Type 0} (z : A) (m : Memory A) (l r k : Ptr) (ps : List Ptr) (h : IsList m l r k ps)
    (a : A) where
  -- A new element behind the last, made before the last is looked up.
  pub push_end :
      (e : Ptr) × (m' : Memory A) × (back z (allocate m (detached true a)) l
        ≡ some (e, allocate m (detached true a)))
      × (append (allocate m (detached true a)) e m.fresh ≡ some (m.fresh, m'))
      × IsList m' l r k (ps ++ (m.fresh ∷ []))
      × (values m' (ps ++ (m.fresh ∷ [])) ≡ values m ps ++ (a ∷ []))
  unfolding new push
  push_end =
      let n = new m l r k ps h a in
      let hn = new-IsList m l r k ps h a in
      let e = prev_of n r in
      let here = last-has (next_of n) (prev_of n) r ps r hn.chain in
      let order =
        insert_after_last (next_of n) (prev_of n) r ps r m.fresh hn.chain h.distinct h.root_apart in
      (
        e,
        pushed m l r k ps h a e here,
        back_eq z n l r k ps hn,
        push_eq m l r k ps h a e here,
        subst (IsList (pushed m l r k ps h a e here) l r k) order
            (pushed-IsList m l r k ps h a e here),
        pushed_back-values m l r k ps h a e here,
      )
