-- ===== src/Dt/Heap.antt =====
-- dt/heap.go: a priority queue over the list of dt/list.go that is kept sorted. The memory is that of the
-- list, and a fault, a nil dereference or the panic of a heap without a comparison, is `none`.
pub mod Order
pub mod Push
pub mod Sort
mod Tests
use fun.Prelude.{
  ℕ, zero, suc, ◌+◌, Bool, true, false, List, [], ◌∷◌, Option, none, some, if◌then◌else◌, ◌==◌,
}
use fun.Links.{Ptr, update}
use fun.Dt.List.{
  Memory, Header, Element, ◌>>=◌, nil, load, len, is_ok, push, push_front, push_back, back, front,
  pop_front, iterator_front,
}

-- `Heap[T]`; `less a b` is `CF(a, b) < 0`, and `none` is a nil `CF`.
pub record Heap (A : Type 0) : Type 0 where
  pub less : Option (A → A → Bool)
  pub items : Ptr

module _ {A : Type 0} where
  -- `h.list()`, which makes the list when there is none.
  unfoldable pub list : Memory A → Heap A → Option (Heap A × Memory A)
  list m h =
      let unset : Header = record { head = nil; meta = nil } in
      elim h.less [
        | none ↦ none
        | some less ↦
            if h.items == nil
            then some (
              record h { items = m.fresh },
              record m { lists = update m.lists m.fresh unset; fresh = m.fresh + 1 },
            )
            else some (h, m)
      ]

  -- `e.Value(), e.Ok()`, with `none` for not ok.
  unfoldable pub value_ok : Memory A → Ptr → Option A
  value_ok m e = if is_ok m e then some (m.elements e).item else none

  -- `h.Len()`
  unfoldable pub heap_len : Memory A → Heap A → Option (ℕ × Heap A × Memory A)
  unfolding list
  heap_len m h = list m h >>= (λ s. some (len s.1 s.0.items, s.0, s.1))

module _ {A : Type 0} (zero_value : A) where
  -- The loop of `Push` from the element `item` back, in a list that is not empty: `fuel` rounds.
  unfoldable pub push_from : ℕ → (A → A → Bool) → Memory A → Ptr → Ptr → A → Option (Memory A)
  push_from zero less m l item t = none
  push_from (suc fuel) less m l item t =
      let rest = push_from fuel less m l (m.elements item).prev t in
      if is_ok m item
      then (if less t (m.elements item).item then rest else push m item t >>= (λ p. some p.1))
      else push_front zero_value m l t

  -- `h.Push(t)` once the list is there
  unfoldable pub push_list : (A → A → Bool) → Memory A → Ptr → A → Option (Memory A)
  unfolding push_from back push_back
  push_list less m l t =
      if len m l == 0
      then push_back zero_value m l t
      else back zero_value m l >>= (λ b. push_from (suc (len b.1 l)) less b.1 l b.0 t)

  -- `h.Push(t)`
  unfoldable pub heap_push : Memory A → Heap A → A → Option (Heap A × Memory A)
  unfolding list push_list
  heap_push m h t = list m h >>= (λ s. elim h.less [
    | none ↦ none
    | some less ↦ push_list less s.1 s.0.items t >>= (λ m'. some (s.0, m'))
  ])

  -- `h.Pop()` and `h.Peek()`
  unfoldable pub heap_pop : Memory A → Heap A → Option (Option A × Heap A × Memory A)
  unfolding list pop_front value_ok
  heap_pop m h =
      list m h
      >>= (λ s. pop_front zero_value s.1 s.0.items >>= (λ p. some (value_ok p.1 p.0, s.0, p.1)))

  unfoldable pub peek : Memory A → Heap A → Option (Option A × Heap A × Memory A)
  unfolding list front value_ok
  peek m h =
      list m h
      >>= (λ s. front zero_value s.1 s.0.items >>= (λ p. some (value_ok p.1 p.0, s.0, p.1)))
