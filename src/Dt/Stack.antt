-- ===== src/Dt/Stack.antt =====
-- dt/stack.go: the singly linked stack, over a memory of items and stack headers. An address is a
-- number and nil is 0; a command that dereferences nil gives `none`.
pub mod Detach
pub mod Holds
pub mod Pop
pub mod Remove
use fun.Prelude.{
  ℕ, zero, suc, ◌+◌, Bool, true, false, not, ◌&&◌, ◌||◌, List, [], ◌∷◌, Option, none, some, ◌==◌,
  if◌then◌else◌,
}
use fun.Prelude.Int.{ℤ, pos, negsuc, ◌+ℤ◌, ltb_ℤ}
use fun.Links.{Ptr, update}

abbrev pub nil : Ptr
nil = 0

-- `Item[T]`
pub record Item (A : Type 0) : Type 0 where
  pub next : Ptr
  pub stack : Ptr
  pub ok : Bool
  pub value : A

-- `Stack[T]`
pub record Stack : Type 0 where
  pub head : Ptr
  pub length : ℤ

-- Nothing is allocated at `fresh` or above.
pub record Memory (A : Type 0) : Type 0 where
  pub items : Ptr → Item A
  pub stacks : Ptr → Stack
  pub fresh : Ptr

module _ {A : Type 0} where
  -- `it.Ok()`
  abbrev pub is_ok : Memory A → Ptr → Bool
  is_ok m p = not (p == nil) && (m.items p).ok

  -- `s.Len()`, of a stack that is not nil.
  abbrev pub len : Memory A → Ptr → ℤ
  len m s = (m.stacks s).length

  -- `NewItem(v)`
  abbrev pub new_item : A → Item A
  new_item v = record { next = nil; stack = nil; ok = true; value = v }

  abbrev pub allocate : Memory A → Item A → Memory A
  allocate m x = record m { items = update m.items m.fresh x; fresh = m.fresh + 1 }

  -- `s.root()`, with the zero value of the type: the head, which is made if there is none.
  unfoldable pub root : A → Memory A → Ptr → Option (Ptr × Memory A)
  root zero_value m s =
      if s == nil
      then none
      else if (m.stacks s).head == nil
      then (let r : Item A = record { next = nil; stack = s; ok = false; value = zero_value } in
          let m1 = allocate m r in
          some (
            m.fresh,
            record m1 { stacks = update m.stacks s (record { head = m.fresh; length = pos 0 }) },
          ))
      else some ((m.stacks s).head, m)

  -- `it.Append(n)` of an item that is not nil, which returns an item.
  unfoldable pub append : A → Memory A → Ptr → Ptr → Option (Ptr × Memory A)
  unfolding root
  append zero_value m it n =
      let s = (m.items it).stack in
      if n == nil
        || (s == nil
            || (s == (m.items n).stack || (not ((m.items n).stack == nil) || not (m.items n).ok)))
      then some (it, m)
      else elim (root zero_value m s) [
        | none ↦ none
        | some (r, m1) ↦
            let h = m1.stacks s in
            let x : Item A = record (m1.items n) { next = r; stack = s } in
            let h' : Stack = record { head = n; length = h.length +ℤ pos 1 } in
            some (n, record m1 { items = update m1.items n x; stacks = update m1.stacks s h' })
      ]

  -- `s.Push(v)`, by `it.Push(v)` of the root.
  unfoldable pub push : A → Memory A → Ptr → A → Option (Memory A)
  unfolding root append
  push zero_value m s v = elim (root zero_value m s) [
    | none ↦ none
    | some (r, m1) ↦ elim (append zero_value (allocate m1 (new_item v)) r m1.fresh) [
      | none ↦ none
      | some (p, m2) ↦ some m2
    ]
  ]

  -- `s.Pop()`
  unfoldable pub pop : A → Memory A → Ptr → Option (Ptr × Memory A)
  unfolding root
  pop zero_value m s = elim (root zero_value m s) [
    | none ↦ none
    | some (r, m1) ↦
        let h = m1.stacks s in
        if ltb_ℤ (pos 0) h.length
        then (let x = m1.items h.head in
            some (
              r,
              record m1 {
                items = update m1.items h.head (record x { stack = nil });
                stacks =
                    update m1.stacks s (record { head = x.next; length = h.length +ℤ negsuc 0 });
              },
            ))
        else some (r, m1)
  ]

  -- `Iterator`, from an item, for at most `fuel` of them.
  pub iterate : ℕ → Memory A → Ptr → List A
  iterate zero m p = []
  iterate (suc fuel) m p =
      let rest = iterate fuel m (m.items p).next in
      if is_ok m p then (m.items p).value ∷ rest else []

  unfoldable pub iterator : A → ℕ → Memory A → Ptr → Option (List A)
  unfolding root iterate
  iterator zero_value fuel m s = elim (root zero_value m s) [
    | none ↦ none
    | some (r, m1) ↦ some (iterate fuel m1 r)
  ]

  -- The loop of `Remove`, from the item `p`: whether it comes to the item `it`.
  pub find_item : ℕ → Memory A → Ptr → Ptr → Bool
  find_item zero m p it = false
  find_item (suc fuel) m p it =
      let rest = find_item fuel m (m.items p).next it in
      is_ok m p && (p == it || (not ((m.items p).next == nil) && rest))

  -- `it.Remove()`; `next.next = it.next` writes the item's own link back to it.
  unfoldable pub remove : ℕ → Memory A → Ptr → Bool × Memory A
  unfolding find_item
  remove fuel m it =
      let s = (m.items it).stack in
      let h = m.stacks s in
      if it == nil || (s == nil || not (m.items it).ok)
      then (false, m)
      else if find_item fuel m h.head it
      then (
        true,
        record m {
          items = update m.items it (record (m.items it) { stack = nil });
          stacks = update m.stacks s (record { head = h.head; length = h.length +ℤ negsuc 0 });
        },
      )
      else (false, m)

  -- `it.Set(v)` of an item that is not nil
  unfoldable pub set_value : Memory A → Ptr → A → Bool × Memory A
  set_value m it v =
      let x = m.items it in
      if not (x.stack == nil) && ((m.stacks x.stack).head == it || x.next == nil)
      then (false, m)
      else (true, record m { items = update m.items it (record x { ok = true; value = v }) })
