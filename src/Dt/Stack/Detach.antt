-- ===== src/Dt/Stack/Detach.antt =====
-- `Detach` of dt/stack.go: it splits a stack in two, and gives the new one the length 0.
use fun.Prelude.{
  ℕ, zero, suc, ◌+◌, ◌<◌, ◌≡◌, refl, inl, inr, true, false, not, Option, none, some, List, [], ◌∷◌,
  length, arith, ◌==◌, if◌then◌else◌, Bool-cases,
}
use fun.Prelude.Int.{pos, ◌-ℤ◌}
use fun.Links.{Ptr, update, has, has_ne}
use fun.Dt.Stack.{Item, Stack, Memory, nil, is_ok, allocate, len}
use fun.Dt.Stack.Holds.{Walk, IsStack, item_ok}

module _ {A : Type 0} where
  -- The loop of `Detach` from the item `p`: the item before `it`, and how many it has seen by then.
  pub seek_before : ℕ → Memory A → Ptr → Ptr → ℕ → Option (Ptr × ℕ)
  seek_before zero m p it seen = none
  seek_before (suc fuel) m p it seen =
      let rest = seek_before fuel m (m.items p).next it (seen + 1) in
      if p == nil then none else if (m.items p).next == it then some (p, seen + 1) else rest

  -- The split behind `p`: the old stack gets a new root and the count, and then the new one the old
  -- one's length less the count.
  pub split : A → Memory A → (it p : Ptr) → ℕ → Ptr × Memory A
  split zero_value m it p seen =
      let s = (m.items it).stack in
      let r : Item A = record { next = nil; stack = s; ok = false; value = zero_value } in
      let m1 = allocate m r in
      let items = update m1.items p (record (m1.items p) { next = m.fresh }) in
      let old : Stack = record { head = (m.stacks s).head; length = pos seen } in
      let stacks = update m.stacks s old in
      let new : Stack = record { head = it; length = (stacks s).length -ℤ pos seen } in
      (
        m1.fresh,
        record {
          items = update items it (record (items it) { stack = m1.fresh });
          stacks = update stacks m1.fresh new;
          fresh = m1.fresh + 1;
        },
      )

  -- `it.Detach()` of an item that is not nil: the stack that it returns.
  unfoldable pub detach : A → ℕ → Memory A → Ptr → Ptr × Memory A
  unfolding seek_before split
  detach zero_value fuel m it =
      let x = m.items it in
      if not x.ok
      then (let r : Item A = record {
        next = nil;
        stack = x.stack;
        ok = false;
        value = zero_value;
      } in
          let m1 = allocate m r in
          let new : Stack = record { head = m.fresh; length = pos 0 } in
          (m1.fresh, record m1 { stacks = update m.stacks m1.fresh new; fresh = m1.fresh + 1 }))
      else if x.stack == nil
      then (
        m.fresh,
        record {
          items = update m.items it (record x { stack = m.fresh });
          stacks = update m.stacks m.fresh (record { head = it; length = pos 1 });
          fresh = m.fresh + 1;
        },
      )
      else if (m.stacks x.stack).head == it
      then (x.stack, m)
      else elim (seek_before fuel m (m.stacks x.stack).head it 0) [
        | none ↦ (x.stack, m)
        | some (p, seen) ↦ split zero_value m it p seen
      ]

  -- The loop finds what is before an item that is not the first.
  seek_before-Walk :
      (m : Memory A) (fuel : ℕ) (a : Ptr) (ps : List Ptr) (r it n : Ptr)
      → Walk m a (a ∷ ps) r
      → ((x : Ptr) → has x (a ∷ ps) ≡ true → 0 < x)
      → has it ps ≡ true
      → length ps < fuel
      → (p : Ptr) × (k : ℕ) × (seek_before fuel m a it n ≡ some (p, k))
  unfolding seek_before
  seek_before-Walk m zero a ps r it n h f i l = absurd (omega (arith, l))
  seek_before-Walk m (suc fuel) a [] r it n h f i l = absurd (cc i)
  seek_before-Walk m (suc fuel) a (b ∷ ps) r it n h f i l =
      elim (Bool-cases ((m.items a).next == it)) [
        | inl e ↦ (a, n + 1, ground (arith, f a))
        | inr e ↦
            let (p, k, s) =
              seek_before-Walk m fuel b ps r it (n + 1) (ground (arith, h))
                (λ x j. f x (ground arith)) (ground (arith, h)) (omega (arith, l)) in
            (p, k, ground (arith, s, f a, h))
      ]

  detach_eq :
      (z : A) (m : Memory A) (it p : Ptr) (seen fuel : ℕ)
      → (m.items it).ok ≡ true
      → ((m.items it).stack == nil) ≡ false
      → ((m.stacks (m.items it).stack).head == it) ≡ false
      → seek_before fuel m (m.stacks (m.items it).stack).head it 0 ≡ some (p, seen)
      → detach z fuel m it ≡ split z m it p seen
  unfolding detach
  detach_eq z m it p seen fuel o s h e = ground (arith, e)

  module _ (z : A) (m : Memory A) (it p : Ptr) (seen : ℕ) (ok : (m.items it).ok ≡ true)
      (old : it < m.fresh) (some_item : 0 < it) where
    split-length : len (split z m it p seen).1 (split z m it p seen).0 ≡ pos 0
    unfolding split ◌-ℤ◌
    split-length = ground arith

    split-head :
        is_ok (split z m it p seen).1 ((split z m it p seen).1.stacks (split z m it p seen).0).head
        ≡ true
    unfolding split
    split-head = ground arith

  -- `Detach` of an item below the top gives a stack that starts with a valid item, and whose length
  -- is 0.
  pub detach_forgets :
      (z : A) (m : Memory A) (s r a it : Ptr) (ps : List Ptr) (fuel : ℕ)
      → IsStack m s r (a ∷ ps)
      → has it ps ≡ true
      → length ps < fuel
      → (is_ok (detach z fuel m it).1 ((detach z fuel m it).1.stacks (detach z fuel m it).0).head
          ≡ true)
        × (len (detach z fuel m it).1 (detach z fuel m it).0 ≡ pos 0)
  detach_forgets z m s r a it ps fuel h i l =
      let top = h.walk.0 in
      let known = h.member it (ground arith) in
      let ok : (m.items it).ok ≡ true =
        item_ok m (a ∷ ps) (m.stacks s).head r it h.walk (ground arith) in
      let w : Walk m a (a ∷ ps) r = (refl, h.walk.1, h.walk.2) in
      let (p, seen, found) = seek_before-Walk m fuel a ps r it 0 w (λ x j. (h.member x j).0) i l in
      let e =
        detach_eq z m it p seen fuel ok (ground (arith, known, h.stack_not_nil))
          (ground (arith, known, top, has_ne it a ps, h.distinct)) (rw (known.2, top) found) in
      rw e
        (split-head z m it p seen ok known.1 known.0, split-length z m it p seen ok known.1 known.0)
