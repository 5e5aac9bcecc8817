-- ===== src/Dt/List/Whole.antt =====
-- `Copy` of dt/list.go, which walks a whole list.
use fun.Prelude.{
  ℕ, suc, ◌+◌, ◌≡◌, ◌≢◌, refl, sym, ap, ◌∙◌, ◌⊎◌, inl, inr, true, Option, some, List, [], ◌∷◌,
  length, arith,
}
use fun.Links.{Ptr, has}
use fun.Dt.List.{Memory, ◌>>=◌, nil, len, is_ok, front, push_back}
use fun.Dt.List.Iterate.{is_ok-root, is_ok-member, len-eq}
use fun.Dt.List.Remove.{front_eq}
use fun.Dt.List.Setup.{Unused}
use fun.Dt.List.IsList.{next_of}
use fun.Dt.List.Own.{Own}
use fun.Dt.List.Sort.{new_list, extend_from, value_of}
use fun.Dt.List.Sort.Shift.{ready, new-back, ready-Own, ready-others, back-last, Own-len}
use fun.Dt.List.Sort.Parts.{new-others}
use fun.Dt.List.Sort.Merge.{front-first}
use fun.Dt.List.Sort.Extend.{extend_from_lem}

module _ {A : Type 0} (z : A) where
  -- `l.Copy()`, with one step of fuel more than there are elements
  unfoldable pub copy : Memory A → Ptr → Option (Ptr × Memory A)
  unfolding new_list front extend_from
  copy m l =
      let (out, m) = new_list m in
      do (e, m) ← front z m l; m ← extend_from z (suc (len m l)) m out e; some (out, m)

  copy_steps :
      (m : Memory A) (l e : Ptr) (m' : Memory A)
      → front z (new_list m).1 l ≡ some (e, (new_list m).1)
      → extend_from z (suc (len (new_list m).1 l)) (new_list m).1 m.fresh e ≡ some m'
      → copy m l ≡ some (m.fresh, m')
  unfolding copy new_list
  copy_steps m l e m' f x = rw f (rw x refl)

  extend_round :
      (fuel : ℕ) (m : Memory A) (out e : Ptr) (x : A) (t : Option (Memory A))
      → is_ok m e ≡ true
      → value_of z m e ≡ x
      → push_back z m out x ≡ t
      → extend_from z (suc fuel) m out e
        ≡ t >>= (λ m'. extend_from z fuel m' out (m'.elements e).next)
  unfolding extend_from
  extend_round fuel m out e x t g v h = rw (g, extend_from) (rw (v, h) refl)

  -- The first push into a new list may as well find it set up.
  push_back-new :
      (m : Memory A) (v : A)
      → m.fresh ≢ nil
      → push_back z (new_list m).1 m.fresh v ≡ push_back z (ready z m) m.fresh v
  unfolding push_back
  push_back-new m v f =
      let first = new-back z m f in
      let later = back-last z (ready z m) m.fresh (m.fresh + 1) [] [] (ready-Own z m f) in
      rw (first, later) refl

  Own-first :
      (m : Memory A) (l r p : Ptr) (ps : List Ptr) (x : A) (xs : List A)
      → Own m l r (p ∷ ps) (x ∷ xs)
      → (is_ok m p ≡ true) × (value_of z m p ≡ x)
  Own-first m l r p ps x xs o =
      let here : has p (p ∷ ps) ≡ true = ground arith in
      (is_ok-member m l r (r + 1) (p ∷ ps) o.is_list p here, (front-first z m l r p ps x xs o).1)

  copy_filled :
      (m : Memory A) (l r p : Ptr) (ps : List Ptr) (x : A) (xs : List A)
      → Own m l r (p ∷ ps) (x ∷ xs)
      → (m' : Memory A) × (os : List Ptr) × (copy m l ≡ some (m.fresh, m'))
        × Own m' m.fresh (m.fresh + 1) os (x ∷ xs)
        × Own m' l r (p ∷ ps) (x ∷ xs)
  copy_filled m l r p ps x xs o =
      let f : m.fresh ≢ nil = omega (arith, o.list_old) in
      let apart : l ≢ m.fresh = omega (arith, o.list_old) in
      let w = ready-others z m l r (p ∷ ps) (x ∷ xs) o in
      let n = new-others z m l r (p ∷ ps) (x ∷ xs) o in
      let a = Own-first (new_list m).1 l r p ps x xs n in
      let b = Own-first (ready z m) l r p ps x xs w in
      let (m', os, e, o', w', g) =
        extend_from_lem z m.fresh l (m.fresh + 1) r apart (suc (suc (length xs))) (ready z m) []
          (p ∷ ps) [] [] (x ∷ xs) [] (ready-Own z m f) w refl
          (omega
            (arith, len-eq m l r (r + 1) (p ∷ ps) o.is_list, Own-len m l r (p ∷ ps) (x ∷ xs) o)) in
      (
        m',
        os,
        copy_steps m l p m' (front-first z (new_list m).1 l r p ps x xs n).0 (
            ap (λ k. extend_from z (suc k) (new_list m).1 m.fresh p)
              (Own-len (new_list m).1 l r (p ∷ ps) (x ∷ xs) n)
            ∙ extend_round (suc (length xs)) (new_list m).1 m.fresh p x
                (push_back z (ready z m) m.fresh x) a.0 a.1 (push_back-new m x f)
            ∙ sym (
                extend_round (suc (length xs)) (ready z m) m.fresh p x
                  (push_back z (ready z m) m.fresh x) b.0 b.1 refl)
            ∙ ap (extend_from z (suc (suc (length xs))) (ready z m) m.fresh) (sym w.is_list.chain.0)
            ∙ e),
        o',
        w',
      )

  copy_empty :
      (m : Memory A) (l r : Ptr) → Own m l r [] [] → copy m l ≡ some (m.fresh, (new_list m).1)
  unfolding extend_from
  copy_empty m l r o =
      let n = (new-others z m l r [] [] o).is_list in
      let at : next_of (new_list m).1 r ≡ r = n.chain.0 in
      copy_steps m l r (new_list m).1
        (front_eq z (new_list m).1 l r (r + 1) [] n ∙ ap (λ e. some (e, (new_list m).1)) at)
        (rw (is_ok-root (new_list m).1 l r (r + 1) [] n, extend_from) refl)

  new_list-Unused : (m : Memory A) → m.fresh ≢ nil → Unused (new_list m).1 m.fresh
  unfolding new_list
  new_list-Unused m f = record { not_nil = f; no_root = ground arith; room = omega arith }

  -- `Copy` of a list that has a root gives a new list with the same values, which has no root yet if there
  -- are none, and leaves the list as it was; no nil is dereferenced, and one step more than there are
  -- values is enough.
  pub copy_lem :
      (m : Memory A) (l r : Ptr) (ps : List Ptr) (xs : List A)
      → Own m l r ps xs
      → (m' : Memory A) × (os : List Ptr) × (copy m l ≡ some (m.fresh, m'))
        × ((Own m' m.fresh (m.fresh + 1) os xs) ⊎ ((xs ≡ []) × Unused m' m.fresh))
        × Own m' l r ps xs
  copy_lem m l r [] [] o = (
    (new_list m).1,
    [],
    copy_empty m l r o,
    inr (refl, new_list-Unused m (omega (arith, o.list_old))),
    new-others z m l r [] [] o,
  )
  copy_lem m l r [] (x ∷ xs) o = absurd (cc o.are)
  copy_lem m l r (p ∷ ps) [] o = absurd (cc o.are)
  copy_lem m l r (p ∷ ps) (x ∷ xs) o =
      let (m', os, e, o', w') = copy_filled m l r p ps x xs o in (m', os, e, inl o', w')
