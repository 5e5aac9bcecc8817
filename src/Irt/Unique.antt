-- ===== src/Irt/Unique.antt =====
-- Unique and UniqueBy of irt/irt.go: a set of the values or keys that the loop has seen.
use fun.Prelude.{
  ◌≡◌, refl, ap, ◌∙◌, Bool, true, false, ◌||◌, List, [], ◌∷◌, if◌then◌else◌, arith, inl, inr,
  Bool-cases,
}
use fun.Irt.Lists.{Comparable, some_pass, uniques}
use fun.Irt.{Op, Body, Seq, pure, slice, Denotes, outer, flush, local, within}
use fun.Irt.Filter.{keep, remove}
use fun.Irt.Transform.{with, first, forward}

-- `set.add`, as `seen` calls it: whether the value was there already. The set is a list of its values.
pub seen : {W A : Type 0} → Comparable A → Op (W × List A) A Bool
seen c x w =
    let existed = some_pass (c.eq x) w.1 in (existed, (w.0, if existed then w.1 else x ∷ w.1))

module _ {W A K : Type 0} (c : Comparable K) where
  -- `seenvalue`
  pub seen_value : A → Op (W × List K) K Bool
  unfolding seen
  seen_value v k = seen c k

  -- `UniqueBy`, over the set that `seenvalue` has.
  unique_from : (A → K) → List K → Seq W A → Seq W A
  unfolding seen_value with remove first local within
  unique_from kfn set seq =
      let prd : Op (W × List K) (A × K) Bool = λ p. seen_value p.0 p.1 in
      local set (forward (first (remove (with (within seq) (pure kfn)) prd)))

  -- `UniqueBy`
  pub unique_by : (A → K) → Seq W A → Seq W A
  unfolding unique_from
  unique_by kfn seq = unique_from kfn [] seq

  unique-slice :
      (kfn : A → K) (set : List K) (xs : List A) (L : Type 0) (yield : Body W L A) (s : W × L)
      → unique_from kfn set (slice xs) L yield s ≡ slice (uniques c kfn set xs) L yield s
  unfolding unique_from seen_value seen slice uniques with remove keep first local within flush
  unique-slice kfn set [] L yield s = refl
  unique-slice kfn set (x ∷ xs) L yield s = ground (
    arith,
    unique-slice kfn set xs L yield s,
    unique-slice kfn (kfn x ∷ set) xs L yield (yield x s).1,
  )

  -- UniqueBy yields the values with a new key.
  pub unique_by-Denotes :
      (kfn : A → K) (seq : Seq W A) (xs : List A)
      → Denotes seq xs
      → Denotes (unique_by kfn seq) (uniques c kfn [] xs)
  unfolding unique_by unique_from with remove keep first local within flush
  unique_by-Denotes kfn seq xs d = record {
    runs = λ L yield s.
        ap (λ (t : W × ((L × Bool) × List K)). outer (outer t))
          (d.runs ((L × Bool) × List K) _ (s.0, ((s.1, true), [])))
        ∙ unique-slice kfn [] xs L yield s;
  }

module _ {W A : Type 0} (c : Comparable A) where
  -- `Unique`
  pub unique : Seq W A → Seq W A
  unfolding seen remove local within
  unique seq = local [] (forward (remove (within seq) (seen c)))

  -- Unique is UniqueBy for the values themselves.
  pub unique-unique_by : (seq : Seq W A) → unique seq ≡ unique_by c (λ x. x) seq
  unfolding unique unique_by unique_from seen_value with remove keep first
  unique-unique_by seq = refl

module _ {A K : Type 0} (c : Comparable K) where
  -- Whether a key is that of one of the values.
  abbrev pub has_key : (A → K) → K → List A → Bool
  has_key kfn k xs = some_pass (λ x. c.eq k (kfn x)) xs

  -- No two of the values have the same key.
  abbrev pub DistinctKeys : (A → K) → List A → Type 0
  DistinctKeys kfn [] = Unit
  DistinctKeys kfn (x ∷ xs) = (has_key kfn (kfn x) xs ≡ false) × DistinctKeys kfn xs

  seen-out :
      (kfn : A → K) (k : K) (set : List K) (xs : List A)
      → some_pass (c.eq k) set ≡ true
      → has_key kfn k (uniques c kfn set xs) ≡ false
  unfolding uniques some_pass
  seen-out kfn k set [] h = refl
  seen-out kfn k set (x ∷ xs) h = ground (
    arith,
    seen-out kfn k set xs h,
    seen-out kfn k (kfn x ∷ set) xs,
    c.eq_iff k (kfn x),
    c.eq_iff (kfn x) k,
  )

  uniques-DistinctKeys :
      (kfn : A → K) (set : List K) (xs : List A) → DistinctKeys kfn (uniques c kfn set xs)
  unfolding uniques some_pass
  uniques-DistinctKeys kfn set [] = tt
  uniques-DistinctKeys kfn set (x ∷ xs) =
      let self = (c.eq_iff (kfn x) (kfn x)).1 refl in
      let out = seen-out kfn (kfn x) (kfn x ∷ set) xs (ground arith) in
      elim (Bool-cases (some_pass (c.eq (kfn x)) set)) [
        | inl y ↦ rw y (uniques-DistinctKeys kfn set xs)
        | inr n ↦ rw n (out, uniques-DistinctKeys kfn (kfn x ∷ set) xs)
      ]

  has_key-uniques :
      (kfn : A → K) (k : K) (set : List K) (xs : List A)
      → (has_key kfn k (uniques c kfn set xs) || some_pass (c.eq k) set)
        ≡ (has_key kfn k xs || some_pass (c.eq k) set)
  unfolding uniques some_pass
  has_key-uniques kfn k set [] = refl
  has_key-uniques kfn k set (x ∷ xs) =
      let same = c.eq_iff k (kfn x) in
      let old = has_key-uniques kfn k set xs in
      let new = has_key-uniques kfn k (kfn x ∷ set) xs in
      elim (Bool-cases (some_pass (c.eq (kfn x)) set)) [
        | inl y ↦ elim (Bool-cases (c.eq k (kfn x))) [
          | inl e ↦ let z : some_pass (c.eq k) set ≡ true = rw (same.0 e) y in ground (arith, old)
          | inr n ↦ ground (arith, old)
        ]
        | inr n ↦ ground (arith, new)
      ]

-- UniqueBy yields values of the sequence, no two of them with the same key, and one with each key that
-- there is in the sequence: the first.
pub unique_by_lem :
    {W A K : Type 0} (c : Comparable K) (kfn : A → K) (seq : Seq W A) (xs : List A)
    → Denotes seq xs
    → Denotes (unique_by c kfn seq) (uniques c kfn [] xs)
      × DistinctKeys c kfn (uniques c kfn [] xs)
      × ((k : K) → has_key c kfn k (uniques c kfn [] xs) ≡ has_key c kfn k xs)
unfolding some_pass
unique_by_lem c kfn seq xs d = (
  unique_by-Denotes c kfn seq xs d,
  uniques-DistinctKeys c kfn [] xs,
  (λ k. ground (arith, has_key-uniques c kfn k [] xs)),
)
