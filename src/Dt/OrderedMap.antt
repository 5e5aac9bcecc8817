-- ===== src/Dt/OrderedMap.antt =====
-- dt/ordered_map.go: a map that keeps the order of insertion, as a map from the keys to the elements of a
-- list of pairs. The hash is the association list of OrderedSet.antt, and a nil dereference is `none`.
pub mod Entries
pub mod Update
pub mod Refine
mod Tests
use fun.Prelude.{
  ℕ, ◌+◌, Bool, true, false, List, [], ◌∷◌, Option, none, some, if◌then◌else◌, ◌==◌, length, map,
}
use fun.Links.{Ptr, update}
use fun.Irt.Lists.{Comparable, kept}
use fun.Dt.List.{
  Memory, Header, ◌>>=◌, nil, allocate, detached, append, remove, back, set_item, iterator_front,
}
use fun.Dt.List.Sort.{value_of}
use fun.Dt.OrderedSet.{load_hash, delete_hash, set_hash}

-- `OrderedMap[K, V]`; `ready` tells that `init` has run.
pub record OrderedMap (K V : Type 0) : Type 0 where
  pub hash : List (K × Ptr)
  pub list : Ptr
  pub ready : Bool

module _ {K V : Type 0} where
  -- `m.init()`
  unfoldable pub init : Memory (K × V) → OrderedMap K V → OrderedMap K V × Memory (K × V)
  init m s =
      let unset : Header = record { head = nil; meta = nil } in
      if s.ready then (s, m) else (
        record { hash = []; list = m.fresh; ready = true },
        record m { lists = update m.lists m.fresh unset; fresh = m.fresh + 1 },
      )

  -- `m.Len()`
  unfoldable pub len : Memory (K × V) → OrderedMap K V → ℕ × OrderedMap K V × Memory (K × V)
  unfolding init
  len m s = let i = init m s in (length i.0.hash, i.0, i.1)

module _ {K V : Type 0} (c : Comparable K) (zero_key : K) (zero_value : V) where
  -- `m.Check(key)`
  unfoldable pub check :
      Memory (K × V) → OrderedMap K V → K → Bool × OrderedMap K V × Memory (K × V)
  unfolding init load_hash
  check m s k =
      let i = init m s in (elim (load_hash c i.0.hash k) [ none ↦ false | some p ↦ true ], i.0, i.1)

  -- `m.Load(key)`
  unfoldable pub load_key :
      Memory (K × V) → OrderedMap K V → K → (V × Bool) × OrderedMap K V × Memory (K × V)
  unfolding init load_hash
  load_key m s k =
      let i = init m s in
      elim (load_hash c i.0.hash k) [
        | none ↦ ((zero_value, false), i.0, i.1)
        | some p ↦ (((value_of (zero_key, zero_value) i.1 p).1, true), i.0, i.1)
      ]

  -- `m.Get(key)`
  unfoldable pub get : Memory (K × V) → OrderedMap K V → K → V × OrderedMap K V × Memory (K × V)
  unfolding load_key
  get m s k = let r = load_key m s k in (r.0.0, r.1, r.2)

  -- `m.Delete(k)`
  unfoldable pub delete :
      Memory (K × V) → OrderedMap K V → K → Option (OrderedMap K V × Memory (K × V))
  unfolding init load_hash delete_hash remove
  delete m s k =
      let i = init m s in
      let after : OrderedMap K V = record i.0 { hash = delete_hash c i.0.hash k } in
      elim (load_hash c i.0.hash k) [
        | none ↦ some (i.0, i.1)
        | some e ↦ if e == nil then some (after, i.1) else remove i.1 e >>= (λ r. some (after, r.1))
      ]

  -- `m.innerSet(key, value)`
  unfoldable pub inner_set :
      Memory (K × V) → OrderedMap K V → K → V → Option (Bool × OrderedMap K V × Memory (K × V))
  unfolding load_hash set_hash append back set_item
  inner_set m s k v = elim (load_hash c s.hash k) [
    | some e ↦ some (true, s, (set_item m e (k, v)).1)
    | none ↦
        let elem = m.fresh in
        back (zero_key, zero_value) (allocate m (detached true (k, v))) s.list >>= (λ b.
          append b.1 b.0 elem
          >>= (λ e. some (false, record s { hash = set_hash c s.hash k elem }, e.1)))
  ]

  -- `m.Set(key, value)`
  unfoldable pub set :
      Memory (K × V) → OrderedMap K V → K → V → Option (Bool × OrderedMap K V × Memory (K × V))
  unfolding init inner_set
  set m s k v = let i = init m s in inner_set i.1 i.0 k v

  -- `m.Ensure(key)`
  unfoldable pub ensure :
      Memory (K × V) → OrderedMap K V → K → Option (Bool × OrderedMap K V × Memory (K × V))
  unfolding init load_hash inner_set
  ensure m s k =
      let i = init m s in
      elim (load_hash c i.0.hash k) [
        | some e ↦ some (true, i.0, i.1)
        | none ↦ inner_set i.1 i.0 k zero_value
      ]

  -- `m.Store(k, v)`
  unfoldable pub store :
      Memory (K × V) → OrderedMap K V → K → V → Option (OrderedMap K V × Memory (K × V))
  unfolding set
  store m s k v = set m s k v >>= (λ r. some (r.1, r.2))

  -- `m.Extend(seq)` by a sequence of these pairs
  unfoldable pub extend :
      Memory (K × V) → OrderedMap K V → List (K × V) → Option (OrderedMap K V × Memory (K × V))
  unfolding store
  extend m s [] = some (s, m)
  extend m s ((k, v) ∷ kvs) = store m s k v >>= (λ r. extend r.1 r.0 kvs)

  -- `m.Iterator()`, to its end: the pairs of the list whose keys the hash has
  unfoldable pub iterator : ℕ → Memory (K × V) → OrderedMap K V → Option (List (K × V))
  unfolding init iterator_front load_hash
  iterator fuel m s =
      let i = init m s in
      iterator_front (zero_key, zero_value) fuel i.1 i.0.list >>= (λ kvs.
        some (kept (λ kv. elim (load_hash c i.0.hash kv.0) [ none ↦ false | some e ↦ true ]) kvs))

  -- `m.Keys()`, of all elements, and `m.Values()`
  unfoldable pub keys : ℕ → Memory (K × V) → OrderedMap K V → Option (List K)
  unfolding init iterator_front
  keys fuel m s =
      let i = init m s in
      iterator_front (zero_key, zero_value) fuel i.1 i.0.list
      >>= (λ kvs. some (map (λ kv. kv.0) kvs))

  unfoldable pub values : ℕ → Memory (K × V) → OrderedMap K V → Option (List V)
  unfolding iterator
  values fuel m s = iterator fuel m s >>= (λ kvs. some (map (λ kv. kv.1) kvs))
