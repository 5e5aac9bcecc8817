-- ===== src/Dt/OrderedMap/Entries.antt =====
-- The keys and values of an ordered map of dt/ordered_map.go against the elements of its list.
use fun.Prelude.{
  ◌≡◌, refl, ap, Bool, true, false, List, [], ◌∷◌, ◌++◌, Option, none, some, if◌then◌else◌, arith,
  inl, inr, Bool-cases,
}
use fun.Links.{Ptr, has, Distinct, without}
use fun.Irt.Lists.{Comparable, kept}
use fun.Dt.List.{Memory, put}
use fun.Dt.List.IsList.{values}
use fun.Dt.OrderedSet.Entries.{find, member, erased, find-has}

abbrev pub keys_of {ℓ κ} : {A : Type ℓ} {B : Type κ} → List (A × B) → List A
keys_of [] = []
keys_of ((k, v) ∷ kvs) = k ∷ keys_of kvs

pub keys_of-append {ℓ κ} :
    {A : Type ℓ} {B : Type κ} (xs ys : List (A × B)) → keys_of (xs ++ ys) ≡ keys_of xs ++ keys_of ys
keys_of-append [] ys = refl
keys_of-append (x ∷ xs) ys = ap (λ r. x.0 ∷ r) (keys_of-append xs ys)

module _ {K V : Type 0} (c : Comparable K) where
  -- The value of a key, the pairs with another value for a key, and those without a key.
  unfoldable pub lookup : List (K × V) → K → Option V
  lookup [] k = none
  lookup ((x, v) ∷ kvs) k = if c.eq k x then some v else lookup kvs k

  unfoldable pub replaced : List (K × V) → K → V → List (K × V)
  replaced [] k v = []
  replaced ((x, w) ∷ kvs) k v = if c.eq k x then (k, v) ∷ kvs else (x, w) ∷ replaced kvs k v

  unfoldable pub erased_key : List (K × V) → K → List (K × V)
  erased_key [] k = []
  erased_key ((x, v) ∷ kvs) k = if c.eq k x then kvs else (x, v) ∷ erased_key kvs k

  pub find-lookup :
      (m : Memory (K × V)) (ps : List Ptr) (k : K)
      → lookup (values m ps) k ≡ elim (find c ps (keys_of (values m ps)) k) [
        | none ↦ none
        | some p ↦ some (m.elements p).item.1
      ]
  unfolding find lookup
  find-lookup m [] k = refl
  find-lookup m (p ∷ ps) k = ground (arith, find-lookup m ps k)

  pub keys-erased :
      (kvs : List (K × V)) (k : K) → keys_of (erased_key kvs k) ≡ erased c (keys_of kvs) k
  unfolding erased_key erased
  keys-erased [] k = refl
  keys-erased ((x, v) ∷ kvs) k = ground (arith, keys-erased kvs k)

  pub keys-replaced :
      (kvs : List (K × V)) (k : K) (v : V) → keys_of (replaced kvs k v) ≡ keys_of kvs
  unfolding replaced
  keys-replaced [] k v = refl
  keys-replaced ((x, w) ∷ kvs) k v = elim (Bool-cases (c.eq k x)) [
    | inl y ↦ rw y (ap (λ r. r ∷ keys_of kvs) ((c.eq_iff k x).0 y))
    | inr n ↦ rw n (ap (λ r. x ∷ r) (keys-replaced kvs k v))
  ]

  pub values-erased :
      (m : Memory (K × V)) (ps : List Ptr) (k : K) (q : Ptr)
      → Distinct ps
      → find c ps (keys_of (values m ps)) k ≡ some q
      → values m (without ps q) ≡ erased_key (values m ps) k
  unfolding find erased_key
  values-erased m [] k q d h = absurd (cc h)
  values-erased m (p ∷ ps) k q d h =
      ground (arith, values-erased m ps k q, find-has c ps (keys_of (values m ps)) k q)

  values-other :
      (m : Memory (K × V)) (ps : List Ptr) (q : Ptr) (k : K) (v : V)
      → has q ps ≡ false
      → values (put m q (record (m.elements q) { ok = true; item = (k, v) })) ps ≡ values m ps
  values-other m [] q k v n = refl
  values-other m (p ∷ ps) q k v n = ground (arith, n, values-other m ps q k v)

  pub values-replaced :
      (m : Memory (K × V)) (ps : List Ptr) (k : K) (v : V) (q : Ptr)
      → Distinct ps
      → find c ps (keys_of (values m ps)) k ≡ some q
      → values (put m q (record (m.elements q) { ok = true; item = (k, v) })) ps
        ≡ replaced (values m ps) k v
  unfolding find replaced
  values-replaced m [] k v q d h = absurd (cc h)
  values-replaced m (p ∷ ps) k v q d h = ground (
    arith,
    values-replaced m ps k v q,
    values-other m ps q k v,
    find-has c ps (keys_of (values m ps)) k q,
  )

  lookup-replaced :
      (kvs : List (K × V)) (k : K) (v : V)
      → member c k (keys_of kvs) ≡ true
      → lookup (replaced kvs k v) k ≡ some v
  unfolding lookup replaced member
  lookup-replaced [] k v h = absurd (cc h)
  lookup-replaced ((x, w) ∷ kvs) k v h =
      ground (arith, lookup-replaced kvs k v, (c.eq_iff k k).1 refl)

  lookup-append :
      (kvs : List (K × V)) (k : K) (v : V)
      → member c k (keys_of kvs) ≡ false
      → lookup (kvs ++ ((k, v) ∷ [])) k ≡ some v
  unfolding lookup member
  lookup-append [] k v h = ground (arith, (c.eq_iff k k).1 refl)
  lookup-append ((x, w) ∷ kvs) k v h = ground (arith, h, lookup-append kvs k v)

  -- The pairs after a value is set for a key.
  abbrev pub stored : List (K × V) → K → V → List (K × V)
  stored kvs k v = if member c k (keys_of kvs) then replaced kvs k v else kvs ++ ((k, v) ∷ [])

  pub lookup-stored : (kvs : List (K × V)) (k : K) (v : V) → lookup (stored kvs k v) k ≡ some v
  lookup-stored kvs k v = elim (Bool-cases (member c k (keys_of kvs))) [
    | inl y ↦ rw y (lookup-replaced kvs k v y)
    | inr n ↦ rw n (lookup-append kvs k v n)
  ]

  pub erased_key-absent :
      (kvs : List (K × V)) (k : K) → member c k (keys_of kvs) ≡ false → erased_key kvs k ≡ kvs
  unfolding erased_key member
  erased_key-absent [] k n = refl
  erased_key-absent ((x, v) ∷ kvs) k n = ground (arith, n, erased_key-absent kvs k)

  -- A filter that all pass.
  pub kept_all :
      (p : K → Bool) (kvs : List (K × V))
      → ((k : K) → member c k (keys_of kvs) ≡ true → p k ≡ true)
      → kept (λ kv. p kv.0) kvs ≡ kvs
  unfolding kept member
  kept_all p [] f = refl
  kept_all p ((x, v) ∷ kvs) f =
      let first = f x (ground (arith, (c.eq_iff x x).1 refl)) in
      let rest = kept_all p kvs (λ k h. f k (ground (arith, h))) in ground (arith, first, rest)
