-- ===== src/Dt/List/Iterate.antt =====
-- `IteratorFront` and `IsSorted` of dt/list.go: the first yields the values of the list, the second
-- compares each element but the last with the one before it, and the first with the root.
use fun.Prelude.{
  ℕ, zero, suc, ◌<◌, ◌≡◌, refl, ap, Bool, true, false, ◌||◌, some, List, [], ◌∷◌, ◌++◌, length,
  length-append, arith, leb, ◌==◌, if◌then◌else◌,
}
use fun.Links.{Ptr, has, Chain}
use fun.Dt.List.{Memory, nil, is_ok, iterate, iterator_front, sorted_from, is_sorted, len}
use fun.Dt.List.IsList.{next_of, prev_of, values, IsList}
use fun.Dt.List.Push.{Contains}
use fun.Dt.List.Remove.{front_eq}

module _ {A : Type 0} (m : Memory A) (l r k : Ptr) (ps : List Ptr) (h : IsList m l r k ps) where
  pub is_ok-root : is_ok m r ≡ false
  is_ok-root = ground (arith, h.root_bad)

  pub is_ok-member : (p : Ptr) → has p ps ≡ true → is_ok m p ≡ true
  is_ok-member p i = ground (arith, h.member p i, h.head_is, h.root_apart)

  iterate-Chain :
      (fuel : ℕ) (p : Ptr) (qs : List Ptr)
      → Chain (next_of m) (prev_of m) p qs r
      → ((q : Ptr) → has q qs ≡ true → has q ps ≡ true)
      → length qs < fuel
      → iterate fuel m (next_of m p) ≡ values m qs
  unfolding iterate
  iterate-Chain zero p qs c s f = absurd (omega arith)
  iterate-Chain (suc fuel) p [] c s f = ground (arith, is_ok-root)
  iterate-Chain (suc fuel) p (a ∷ qs) c s f =
      let rest = iterate-Chain fuel a qs c.2 (λ q i. s q (ground arith)) (omega arith) in
      let good = is_ok-member a (s a (ground arith)) in ground (arith, rest, good, c.0)

-- What `IsSorted` looks at: each value but the last against the one before it, the first against `w`.
abbrev pub ascends : {A : Type 0} → (A → A → Bool) → A → List A → Bool
ascends less w [] = true
ascends less w (x ∷ []) = true
ascends less w (x ∷ y ∷ ys) = if less x w then false else ascends less x (y ∷ ys)

module _ {A : Type 0} (m : Memory A) (l r k : Ptr) (ps : List Ptr) (h : IsList m l r k ps) where
  sorted_from-Chain :
      (less : A → A → Bool) (fuel : ℕ) (p a : Ptr) (qs : List Ptr)
      → Chain (next_of m) (prev_of m) p (a ∷ qs) r
      → (p == nil) ≡ false
      → ((q : Ptr) → has q (a ∷ qs) ≡ true → has q ps ≡ true)
      → length qs < fuel
      → sorted_from less fuel m a ≡ some (ascends less (m.elements p).item (values m (a ∷ qs)))
  unfolding sorted_from
  sorted_from-Chain less zero p a qs c n s f = absurd (omega arith)
  sorted_from-Chain less (suc fuel) p a [] c n s f =
      let known = h.member a (s a (ground arith)) in
      ground (arith, is_ok-root m l r k ps h, known.not_nil)
  sorted_from-Chain less (suc fuel) p a (b ∷ qs) c n s f =
      let known = h.member a (s a (ground arith)) in
      let rest =
        sorted_from-Chain less fuel a b qs c.2 (ground (arith, known.not_nil))
          (λ q i. s q (ground arith)) (omega arith) in
      let good = is_ok-member m l r k ps h b (s b (ground arith)) in
      ground (arith, known.not_nil, rest, good)

  pub len-eq : len m l ≡ length ps
  len-eq = ground (arith, h.meta_is, h.counted, h.meta_not_nil, h.list_not_nil)

is_sorted-Chain :
    {A : Type 0} (z : A) (less : A → A → Bool) (m : Memory A) (l r k : Ptr) (ps : List Ptr)
    → IsList m l r k ps
    → is_sorted z less m l
      ≡ some (leb (length ps) 1 || ascends less (m.elements r).item (values m ps))
unfolding is_sorted
is_sorted-Chain z less m l r k [] h = ground (arith, len-eq m l r k [] h)
is_sorted-Chain z less m l r k (a ∷ qs) h =
    let scan =
      sorted_from-Chain m l r k (a ∷ qs) h less (suc (length qs)) r a qs h.chain
        (ground (arith, h.root_not_nil)) (λ q i. i) (omega arith) in
    ground (arith, len-eq m l r k (a ∷ qs) h, front_eq z m l r k (a ∷ qs) h, scan, h.chain.0)

module _ {A : Type 0} (z : A) where
  pub length-values : (m : Memory A) (ps : List Ptr) → length (values m ps) ≡ length ps
  length-values m [] = refl
  length-values m (p ∷ ps) = ap suc (length-values m ps)

  -- The iterator yields the values of the list, front first, when it is given one step more than there
  -- are values.
  pub iterator_front_lem :
      (m : Memory A) (l : Ptr) (xs : List A) (fuel : ℕ)
      → Contains m l xs
      → length xs < fuel
      → iterator_front z fuel m l ≡ some xs
  unfolding iterator_front
  iterator_front_lem m l xs fuel c f =
      let h = c.is_list in
      let short = length-values m c.at in
      let all =
        iterate-Chain m l c.root c.meta c.at h fuel c.root c.at h.chain (λ q i. i)
          (ground (arith, short, c.are)) in
      ground (arith, front_eq z m l c.root c.meta c.at h, all, c.are)

  -- What `IsSorted` answers on a list of these values, by the value at its root. A list of one value or
  -- none is sorted; of a longer one the first value is compared with the root's, and the last not at all.
  pub is_sorted_lem :
      (less : A → A → Bool) (m : Memory A) (l : Ptr) (xs : List A) (c : Contains m l xs)
      → is_sorted z less m l ≡ some (leb (length xs) 1 || ascends less (m.elements c.root).item xs)
  is_sorted_lem less m l xs c =
      let all = is_sorted-Chain z less m l c.root c.meta c.at c.is_list in
      ground (arith, all, length-values m c.at, c.are)

  ascends-snoc :
      (less : A → A → Bool) (w : A) (xs : List A) (a b : A)
      → ascends less w (xs ++ (a ∷ [])) ≡ ascends less w (xs ++ (b ∷ []))
  ascends-snoc less w [] a b = refl
  ascends-snoc less w (x ∷ []) a b = refl
  ascends-snoc less w (x ∷ y ∷ xs) a b = ground (arith, ascends-snoc less x (y ∷ xs) a b)

  -- `IsSorted` does not look at the last value of a list: two lists that differ only there, with the
  -- same value at their roots, get the same answer, whatever the order says of those values.
  pub is_sorted_ignores_last :
      (less : A → A → Bool) (m n : Memory A) (l l' : Ptr) (xs : List A) (a b : A)
      (c : Contains m l (xs ++ (a ∷ []))) (d : Contains n l' (xs ++ (b ∷ [])))
      → (m.elements c.root).item ≡ (n.elements d.root).item
      → is_sorted z less m l ≡ is_sorted z less n l'
  is_sorted_ignores_last less m n l l' xs a b c d e =
      let first = is_sorted_lem less m l (xs ++ (a ∷ [])) c in
      let second = is_sorted_lem less n l' (xs ++ (b ∷ [])) d in
      ground (
        arith,
        first,
        second,
        length-append xs (a ∷ []),
        length-append xs (b ∷ []),
        ascends-snoc less (m.elements c.root).item xs a b,
      )
