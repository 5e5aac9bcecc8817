-- ===== src/Dt/OrderedSet.antt =====
-- dt/ordered_set.go: a set that keeps the order of insertion, as a map from the values to the elements of
-- a list. The map is an association list, and a nil dereference is `none`.
pub mod Entries
pub mod Refine
mod Tests
use fun.Prelude.{
  ℕ, ◌+◌, Bool, true, false, List, [], ◌∷◌, Option, none, some, if◌then◌else◌, ◌==◌, length,
}
use fun.Links.{Ptr, update}
use fun.Irt.Lists.{Comparable}
use fun.Dt.List.{
  Memory, Header, ◌>>=◌, nil, allocate, detached, append, remove, back, iterator_front,
}

-- `OrderedSet[T]`; `ready` tells that `init` has run.
pub record OrderedSet (A : Type 0) : Type 0 where
  pub hash : List (A × Ptr)
  pub list : Ptr
  pub ready : Bool

module _ {A : Type 0} where
  -- `s.init()`
  unfoldable pub init : Memory A → OrderedSet A → OrderedSet A × Memory A
  init m s =
      let unset : Header = record { head = nil; meta = nil } in
      if s.ready then (s, m) else (
        record { hash = []; list = m.fresh; ready = true },
        record m { lists = update m.lists m.fresh unset; fresh = m.fresh + 1 },
      )

  -- `s.Len()`
  unfoldable pub len : Memory A → OrderedSet A → ℕ × OrderedSet A × Memory A
  unfolding init
  len m s = let i = init m s in (length i.0.hash, i.0, i.1)

module _ {A : Type 0} (c : Comparable A) where
  -- `hash.Load(in)`, `delete(hash, in)` and `hash.Set(in, elem)`
  unfoldable pub load_hash : List (A × Ptr) → A → Option Ptr
  load_hash [] v = none
  load_hash ((x, p) ∷ h) v = if c.eq v x then some p else load_hash h v

  unfoldable pub delete_hash : List (A × Ptr) → A → List (A × Ptr)
  delete_hash [] v = []
  delete_hash ((x, p) ∷ h) v = if c.eq v x then h else (x, p) ∷ delete_hash h v

  unfoldable pub set_hash : List (A × Ptr) → A → Ptr → List (A × Ptr)
  set_hash [] v q = (v, q) ∷ []
  set_hash ((x, p) ∷ h) v q = if c.eq v x then (x, q) ∷ h else (x, p) ∷ set_hash h v q

  -- `s.Check(in)`
  unfoldable pub check : Memory A → OrderedSet A → A → Bool × OrderedSet A × Memory A
  unfolding init load_hash
  check m s v =
      let i = init m s in (elim (load_hash i.0.hash v) [ none ↦ false | some p ↦ true ], i.0, i.1)

  -- `s.Add(in)`, once it is initialized
  unfoldable pub add_ready :
      A → Memory A → OrderedSet A → A → Option (Bool × OrderedSet A × Memory A)
  unfolding load_hash set_hash append back
  add_ready zero_value m s v = elim (load_hash s.hash v) [
    | some p ↦ some (true, s, m)
    | none ↦
        let elem = m.fresh in
        back zero_value (allocate m (detached true v)) s.list >>= (λ b.
          append b.1 b.0 elem
          >>= (λ e. some (false, record s { hash = set_hash s.hash v elem }, e.1)))
  ]

  -- `s.Add(in)`
  unfoldable pub add : A → Memory A → OrderedSet A → A → Option (Bool × OrderedSet A × Memory A)
  unfolding init add_ready
  add zero_value m s v = let i = init m s in add_ready zero_value i.1 i.0 v

  -- `s.Delete(in)`
  unfoldable pub delete : Memory A → OrderedSet A → A → Option (Bool × OrderedSet A × Memory A)
  unfolding init load_hash delete_hash remove
  delete m s v =
      let i = init m s in
      let after : OrderedSet A = record i.0 { hash = delete_hash i.0.hash v } in
      elim (load_hash i.0.hash v) [
        | none ↦ some (false, after, i.1)
        | some e ↦
            if e == nil
            then some (true, after, i.1)
            else remove i.1 e >>= (λ r. some (true, after, r.1))
      ]

  -- `s.Iterator()`, to its end
  unfoldable pub iterator : A → ℕ → Memory A → OrderedSet A → Option (List A)
  unfolding init iterator_front
  iterator zero_value fuel m s = let i = init m s in iterator_front zero_value fuel i.1 i.0.list
