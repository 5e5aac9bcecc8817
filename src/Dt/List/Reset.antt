-- ===== src/Dt/List/Reset.antt =====
-- The iterator of dt/list.go that pops, and `Reset`, which runs it to its end.
use fun.Prelude.{
  ℕ, zero, suc, ◌+◌, ◌<◌, ◌≡◌, refl, true, false, Option, some, none, List, [], ◌∷◌, length, arith,
}
use fun.Links.{Ptr}
use fun.Dt.List.{Memory, ◌>>=◌, len, is_ok, pop_front, pop, detached, allocate}
use fun.Dt.List.Remove.{front_eq}
use fun.Dt.List.Own.{Own, Own-frame, popped, popped_eq, popped-Own, popped-Loose, popped_item}
use fun.Dt.List.Sort.{value_of}
use fun.Dt.List.Sort.Shift.{Own-len}

module _ {A : Type 0} (z : A) where
  -- `l.IteratorPopFront()`, to its end or for at most `fuel` calls of `PopFront`
  unfoldable pub iterator_pop_front : ℕ → Memory A → Ptr → Option (List A × Memory A)
  unfolding pop_front
  iterator_pop_front zero m l = none
  iterator_pop_front (suc fuel) m l = do
    (e, m) ← pop_front z m l
    elim (is_ok m e) [
      | true ↦ do (rest, m') ← iterator_pop_front fuel m l; some (value_of z m e ∷ rest, m')
      | false ↦ some ([], m)
    ]

  -- `l.Reset()`
  unfoldable pub reset : Memory A → Ptr → Option (Memory A)
  unfolding iterator_pop_front
  reset m l = iterator_pop_front (suc (len m l)) m l >>= (λ r. some r.1)

  pop_front-empty :
      (m : Memory A) (l r : Ptr)
      → Own m l r [] []
      → pop_front z m l ≡ some (m.fresh, allocate m (detached false z))
  unfolding pop_front pop
  pop_front-empty m l r o =
      let h = o.is_list in
      ground (
        arith,
        front_eq z m l r (r + 1) [] h,
        h.chain.0,
        h.root_not_nil,
        h.root_listed,
        h.head_is,
        h.meta_is,
        h.counted,
      )

  allocated-Own :
      (m : Memory A) (l r : Ptr) (x : A)
      → Own m l r [] []
      → Own (allocate m (detached false x)) l r [] []
  allocated-Own m l r x o =
      Own-frame m (allocate m (detached false x)) l r [] [] o
        (λ e i. ground (arith, o.is_list.root_old)) refl refl (omega arith)

  pop_round :
      (fuel : ℕ) (m m1 m2 : Memory A) (l e : Ptr) (x : A) (xs : List A)
      → pop_front z m l ≡ some (e, m1)
      → is_ok m1 e ≡ true
      → value_of z m1 e ≡ x
      → iterator_pop_front fuel m1 l ≡ some (xs, m2)
      → iterator_pop_front (suc fuel) m l ≡ some (x ∷ xs, m2)
  unfolding iterator_pop_front
  pop_round fuel m m1 m2 l e x xs p g v i = ground (arith, p, g, v, i)

  -- The iterator that pops yields all values and leaves the list empty, when it may call `PopFront` once
  -- more than there are values.
  pub iterator_pop_front_lem :
      (fuel : ℕ) (m : Memory A) (l r : Ptr) (ps : List Ptr) (xs : List A)
      → Own m l r ps xs
      → length xs < fuel
      → (m' : Memory A) × (iterator_pop_front fuel m l ≡ some (xs, m')) × Own m' l r [] []
  unfolding iterator_pop_front
  iterator_pop_front_lem zero m l r ps xs o f = absurd (omega arith)
  iterator_pop_front_lem (suc fuel) m l r [] [] o f =
      let m' = allocate m (detached false z) in
      (m', ground (arith, pop_front-empty m l r o), allocated-Own m l r z o)
  iterator_pop_front_lem (suc fuel) m l r [] (x ∷ xs) o f = absurd (cc o.are)
  iterator_pop_front_lem (suc fuel) m l r (p ∷ ps) [] o f = absurd (cc o.are)
  iterator_pop_front_lem (suc fuel) m l r (p ∷ ps) (x ∷ xs) o f =
      let m1 = popped m l r p ps x xs o in
      let (m', e, w) =
        iterator_pop_front_lem fuel m1 l r ps xs (popped-Own m l r p ps x xs o) (omega arith) in
      let loose = popped-Loose m l r p ps x xs o in
      (
        m',
        pop_round fuel m m1 m' l p x xs (popped_eq m l r p ps x xs o z)
            (ground (arith, loose.not_nil, loose.good, loose.unlisted))
            (ground (arith, loose.not_nil, popped_item m l r p ps x xs o)) e,
        w,
      )

  -- `Reset` dereferences no nil and leaves the list empty.
  pub reset_lem :
      (m : Memory A) (l r : Ptr) (ps : List Ptr) (xs : List A)
      → Own m l r ps xs
      → (m' : Memory A) × (reset m l ≡ some m') × Own m' l r [] []
  unfolding reset
  reset_lem m l r ps xs o =
      let (m', e, w) =
        iterator_pop_front_lem (suc (len m l)) m l r ps xs o
          (omega (arith, Own-len m l r ps xs o)) in
      (m', rw e refl, w)
