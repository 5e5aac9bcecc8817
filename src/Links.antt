-- ===== src/Links.antt =====
-- Doubly linked chains, as the lists of dt/list.go and pubsub/deque.go keep them: what inserting and
-- removing a node does to a chain of distinct nodes, over the functions `next` and `prev` alone.
use fun.Prelude.{
  ℕ, ◌≡◌, refl, ap, ◌⊎◌, inl, inr, Bool, true, false, not, ◌&&◌, ◌||◌, List, [], ◌∷◌, ◌++◌, length,
  arith, ◌==◌, ◌+◌, if◌then◌else◌, Bool-cases,
}

abbrev pub Ptr : Type 0
Ptr = ℕ

abbrev pub update {ℓ} : {A : Type ℓ} → (Ptr → A) → Ptr → A → Ptr → A
update f p v q = if p == q then v else f q

abbrev pub has : Ptr → List Ptr → Bool
has a [] = false
has a (x ∷ xs) = (a == x) || has a xs

abbrev pub Distinct : List Ptr → Type 0
Distinct [] = Unit
Distinct (x ∷ xs) = (has x xs ≡ false) × Distinct xs

-- From `p` the nodes lead to `q` and back.
abbrev pub Chain : (Ptr → Ptr) → (Ptr → Ptr) → Ptr → List Ptr → Ptr → Type 0
Chain nx pv p [] q = (nx p ≡ q) × (pv q ≡ p)
Chain nx pv p (a ∷ xs) q = (nx p ≡ a) × (pv a ≡ p) × Chain nx pv a xs q

-- The nodes with `v` behind `e`, for a chain that starts at `p`.
abbrev pub insert_after : Ptr → List Ptr → Ptr → Ptr → List Ptr
insert_after p [] e v = v ∷ []
insert_after p (a ∷ xs) e v = if p == e then v ∷ a ∷ xs else a ∷ insert_after a xs e v

abbrev pub without : List Ptr → Ptr → List Ptr
without [] e = []
without (a ∷ xs) e = if a == e then xs else a ∷ without xs e

pub has_ne : (x y : Ptr) (xs : List Ptr) → has x xs ≡ true → has y xs ≡ false → (x == y) ≡ false
has_ne x y [] h k = ground arith
has_ne x y (a ∷ xs) h k = ground (arith, has_ne x y xs)

pub has-snoc : (x q : Ptr) (xs : List Ptr) → has x (xs ++ (q ∷ [])) ≡ (has x xs || x == q)
has-snoc x q [] = ground arith
has-snoc x q (a ∷ xs) = ground (arith, has-snoc x q xs)

pub Chain-frame :
    (nx pv nx' pv' : Ptr → Ptr) (p : Ptr) (xs : List Ptr) (q : Ptr)
    → Chain nx pv p xs q
    → ((x : Ptr) → has x (p ∷ xs) ≡ true → nx' x ≡ nx x)
    → ((x : Ptr) → has x (xs ++ (q ∷ [])) ≡ true → pv' x ≡ pv x)
    → Chain nx' pv' p xs q
Chain-frame nx pv nx' pv' p [] q h f g = ground (arith, f p, g q)
Chain-frame nx pv nx' pv' p (a ∷ xs) q h f g =
    let rest =
      Chain-frame nx pv nx' pv' a xs q h.2 (λ x i. f x (ground arith))
        (λ x i. g x (ground arith)) in
    ground (arith, f p, g a, rest)

module _ (nx pv : Ptr → Ptr) where
  -- The successor of a node of a chain is a later node or the end.
  pub next-has :
      (p : Ptr) (xs : List Ptr) (q e : Ptr)
      → Chain nx pv p xs q
      → has e (p ∷ xs) ≡ true
      → (has (nx e) xs ≡ true) ⊎ (nx e ≡ q)
  next-has p [] q e h i = ground arith
  next-has p (a ∷ xs) q e h i = ground (arith, next-has a xs q e h.2)

  pub prev-has :
      (p : Ptr) (xs : List Ptr) (q e : Ptr)
      → Chain nx pv p xs q
      → has e xs ≡ true
      → has (pv e) (p ∷ xs) ≡ true
  prev-has p [] q e h i = ground arith
  prev-has p (a ∷ xs) q e h i = ground (arith, prev-has a xs q e h.2)

  -- No node inside a chain of distinct nodes is linked to itself.
  pub next_ne :
      (p : Ptr) (xs : List Ptr) (q e : Ptr)
      → Chain nx pv p xs q
      → Distinct xs
      → has q xs ≡ false
      → has e xs ≡ true
      → (nx e == e) ≡ false
  next_ne p [] q e h d nq i = absurd (cc i)
  next_ne p (a ∷ []) q e h d nq i = ground arith
  next_ne p (a ∷ b ∷ xs) q e h d nq i =
      ground (arith, next_ne a (b ∷ xs) q e h.2 d.1 (ground arith))

  pub prev_ne :
      (p : Ptr) (xs : List Ptr) (q e : Ptr)
      → Chain nx pv p xs q
      → Distinct xs
      → has p xs ≡ false
      → has e xs ≡ true
      → (pv e == e) ≡ false
  prev_ne p [] q e h d np i = absurd (cc i)
  prev_ne p (a ∷ xs) q e h d np i = ground (arith, prev_ne a xs q e h.2 d.1 d.0)

  module _ (e v : Ptr) (nx' pv' : Ptr → Ptr) where
    -- The links after `v` has been put between `e` and its successor.
    pub record Inserted : Type 0 where
      pub at_e : nx' e ≡ v
      pub at_v : nx' v ≡ nx e
      pub back_v : pv' v ≡ e
      pub back_next : pv' (nx e) ≡ v
      pub else_next : (x : Ptr) → (x == e) ≡ false → (x == v) ≡ false → nx' x ≡ nx x
      pub else_prev : (x : Ptr) → (x == nx e) ≡ false → (x == v) ≡ false → pv' x ≡ pv x

    pub Chain-insert :
        (p : Ptr) (xs : List Ptr) (q : Ptr)
        → Chain nx pv p xs q
        → Distinct xs
        → has p xs ≡ false
        → has q xs ≡ false
        → has v (p ∷ q ∷ xs) ≡ false
        → has e (p ∷ xs) ≡ true
        → Inserted
        → Chain nx' pv' p (insert_after p xs e v) q
    Chain-insert p [] q h d np nq nv i s = ground (arith, s.else_next p, s.else_prev q)
    Chain-insert p (a ∷ xs) q h d np nq nv i s = elim (Bool-cases (p == e)) [
      | inl y ↦
          let rest =
            Chain-frame nx pv nx' pv' a xs q h.2
              (λ x j.
                s.else_next x (ground (arith, has_ne x p (a ∷ xs) j np))
                  (ground (arith, has_ne x v (a ∷ xs) j)))
              (λ x j.
                s.else_prev x (ground (arith, has-snoc x q xs, has_ne x a xs))
                  (ground (arith, has-snoc x q xs, has_ne x v xs))) in
          rw y (ground (arith, rest))
      | inr n ↦
          let rest =
            Chain-insert a xs q h.2 d.1 d.0 (ground arith) (ground arith) (ground arith) s in
          let later = next-has a xs q e h.2 (ground arith) in
          rw n (ground (arith, rest, s.else_next p, s.else_prev a, has_ne (nx e) a xs))
    ]

  module _ (e : Ptr) (nx' pv' : Ptr → Ptr) where
    -- The links after `e` has been taken out; its own are free.
    pub record Removed : Type 0 where
      pub over_next : nx' (pv e) ≡ nx e
      pub over_prev : pv' (nx e) ≡ pv e
      pub else_next : (x : Ptr) → (x == pv e) ≡ false → (x == e) ≡ false → nx' x ≡ nx x
      pub else_prev : (x : Ptr) → (x == nx e) ≡ false → (x == e) ≡ false → pv' x ≡ pv x

    pub Chain-remove :
        (p : Ptr) (xs : List Ptr) (q : Ptr)
        → Chain nx pv p xs q
        → Distinct xs
        → has p xs ≡ false
        → has q xs ≡ false
        → has e xs ≡ true
        → Removed
        → Chain nx' pv' p (without xs e) q
    Chain-remove p [] q h d np nq i s = absurd (cc i)
    Chain-remove p (a ∷ []) q h d np nq i s = ground (arith, s.else_next p, s.else_prev q)
    Chain-remove p (a ∷ b ∷ xs) q h d np nq i s = elim (Bool-cases (a == e)) [
      | inl y ↦
          let rest =
            Chain-frame nx pv nx' pv' b xs q h.2.2
              (λ x j.
                s.else_next x (ground (arith, has_ne x p (b ∷ xs) j))
                  (ground (arith, has_ne x a (b ∷ xs) j)))
              (λ x j.
                s.else_prev x (ground (arith, has-snoc x q xs, has_ne x b xs))
                  (ground (arith, has-snoc x q xs, has_ne x a xs))) in
          rw y (ground (arith, rest))
      | inr n ↦
          let rest = Chain-remove a (b ∷ xs) q h.2 d.1 d.0 (ground arith) (ground arith) s in
          let later = next-has a (b ∷ xs) q e h.2 (ground arith) in
          let sooner = prev-has a (b ∷ xs) q e h.2 (ground arith) in
          rw n (
            ground (
              arith,
              rest,
              s.else_next p,
              s.else_prev a,
              has_ne (nx e) a (b ∷ xs),
              has_ne (pv e) p (a ∷ b ∷ xs),
              has_ne e p (a ∷ b ∷ xs),
            ))
    ]

pub has-insert_after :
    (p : Ptr) (xs : List Ptr) (e v x : Ptr) → has x (insert_after p xs e v) ≡ (has x xs || x == v)
has-insert_after p [] e v x = ground arith
has-insert_after p (a ∷ xs) e v x = ground (arith, has-insert_after a xs e v x)

pub Distinct-insert_after :
    (p : Ptr) (xs : List Ptr) (e v : Ptr)
    → Distinct xs
    → has v xs ≡ false
    → Distinct (insert_after p xs e v)
Distinct-insert_after p [] e v d n = ground arith
Distinct-insert_after p (a ∷ xs) e v d n =
    ground (arith, has-insert_after a xs e v a, Distinct-insert_after a xs e v)

pub length-insert_after :
    (p : Ptr) (xs : List Ptr) (e v : Ptr) → length (insert_after p xs e v) ≡ length xs + 1
length-insert_after p [] e v = omega arith
length-insert_after p (a ∷ xs) e v = ground (arith, length-insert_after a xs e v)

pub has-without :
    (xs : List Ptr) (e x : Ptr) → Distinct xs → has x (without xs e) ≡ (has x xs && not (x == e))
has-without [] e x d = refl
has-without (a ∷ xs) e x d = ground (arith, has-without xs e x, has_ne x a xs)

pub Distinct-without : (xs : List Ptr) (e : Ptr) → Distinct xs → Distinct (without xs e)
Distinct-without [] e d = tt
Distinct-without (a ∷ xs) e d = ground (arith, has-without xs e a, Distinct-without xs e)

pub length-without :
    (xs : List Ptr) (e : Ptr) → has e xs ≡ true → length (without xs e) + 1 ≡ length xs
length-without [] e i = cc
length-without (a ∷ xs) e i = ground (arith, length-without xs e)

pub insert_after_start : (p : Ptr) (xs : List Ptr) (v : Ptr) → insert_after p xs p v ≡ v ∷ xs
insert_after_start p [] v = refl
insert_after_start p (a ∷ xs) v = ground arith

module _ (nx pv : Ptr → Ptr) where
  pub last-has :
      (p : Ptr) (xs : List Ptr) (q : Ptr) → Chain nx pv p xs q → has (pv q) (p ∷ xs) ≡ true
  last-has p [] q h = ground arith
  last-has p (a ∷ xs) q h = ground (arith, last-has a xs q h.2)

  pub insert_after_last :
      (p : Ptr) (xs : List Ptr) (q v : Ptr)
      → Chain nx pv p xs q
      → Distinct xs
      → has p xs ≡ false
      → insert_after p xs (pv q) v ≡ xs ++ (v ∷ [])
  insert_after_last p [] q v h d n = refl
  insert_after_last p (a ∷ xs) q v h d n =
      ground (arith, last-has a xs q h.2, has_ne (pv q) p (a ∷ xs), insert_after_last a xs q v h.2)

  pub Chain-last :
      (p : Ptr) (xs : List Ptr) (y q : Ptr) → Chain nx pv p (xs ++ (y ∷ [])) q → pv q ≡ y
  Chain-last p [] y q h = h.2.1
  Chain-last p (a ∷ xs) y q h = Chain-last a xs y q h.2

pub without-first : (p : Ptr) (ps : List Ptr) → without (p ∷ ps) p ≡ ps
without-first p ps = ground arith

pub has-last : (qs : List Ptr) (p : Ptr) → has p (qs ++ (p ∷ [])) ≡ true
has-last [] p = ground arith
has-last (a ∷ qs) p = ground (arith, has-last qs p)

pub without-last :
    (qs : List Ptr) (p : Ptr) → Distinct (qs ++ (p ∷ [])) → without (qs ++ (p ∷ [])) p ≡ qs
without-last [] p d = ground arith
without-last (a ∷ qs) p d = ground (arith, has-last qs p, without-last qs p d.1)

pub snoc_cases {ℓ} :
    {A : Type ℓ} (xs : List A) → (xs ≡ []) ⊎ ((ys : List A) × (y : A) × (xs ≡ ys ++ (y ∷ [])))
snoc_cases [] = inl refl
snoc_cases (a ∷ xs) = elim (snoc_cases xs) [
  | inl e ↦ inr ([], a, ap (λ r. a ∷ r) e)
  | inr (ys, y, e) ↦ inr (a ∷ ys, y, ap (λ r. a ∷ r) e)
]

pub snoc_inj {ℓ} :
    {A : Type ℓ} (xs ys : List A) (x y : A) → xs ++ (x ∷ []) ≡ ys ++ (y ∷ []) → (xs ≡ ys) × (x ≡ y)
snoc_inj [] [] x y e = (refl, cc)
snoc_inj [] (b ∷ []) x y e = absurd (cc)
snoc_inj [] (b ∷ c ∷ ys) x y e = absurd (cc)
snoc_inj (a ∷ []) [] x y e = absurd (cc)
snoc_inj (a ∷ c ∷ xs) [] x y e = absurd (cc)
snoc_inj (a ∷ xs) (b ∷ ys) x y e =
    let rest = snoc_inj xs ys x y (cc) in (ground (arith, rest), rest.1)
