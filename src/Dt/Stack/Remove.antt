-- ===== src/Dt/Stack/Remove.antt =====
-- `Remove` of dt/stack.go: it counts an item out of its stack and leaves it linked.
use fun.Prelude.{ℕ, zero, suc, ◌<◌, ◌≡◌, refl, true, List, [], ◌∷◌, length, arith}
use fun.Prelude.Int.{pos, negsuc, ◌+ℤ◌}
use fun.Links.{Ptr, update, has}
use fun.Dt.Stack.{Memory, nil, find_item, remove, iterate, len}
use fun.Dt.Stack.Holds.{item_ok, Walk, values, IsStack, Walk-frame, values-frame}
use fun.Dt.Stack.Pop.{iterate-Walk}

module _ {A : Type 0} where
  Walk-start :
      (m : Memory A) (p : Ptr) (ps : List Ptr) (r : Ptr)
      → Walk m p ps r
      → ((x : Ptr) → has x ps ≡ true → 0 < x)
      → 0 < r
      → 0 < p
  Walk-start m p [] r h f b = ground arith
  Walk-start m p (a ∷ ps) r h f b = ground (arith, f a)

  -- The loop of `Remove` comes to every item of the stack.
  find_item-Walk :
      (m : Memory A) (fuel : ℕ) (p : Ptr) (ps : List Ptr) (r it : Ptr)
      → Walk m p ps r
      → ((x : Ptr) → has x ps ≡ true → 0 < x)
      → 0 < r
      → has it ps ≡ true
      → length ps < fuel
      → find_item fuel m p it ≡ true
  unfolding find_item
  find_item-Walk m zero p ps r it h f b i l = absurd (omega (arith, l))
  find_item-Walk m (suc fuel) p [] r it h f b i l = absurd (cc i)
  find_item-Walk m (suc fuel) p (a ∷ ps) r it h f b i l =
      let rest = find_item-Walk m fuel (m.items a).next ps r it h.2 (λ x j. f x (ground arith)) b in
      let start = Walk-start m (m.items a).next ps r h.2 (λ x j. f x (ground arith)) b in
      ground (arith, rest, start, f a)

  module _ (m : Memory A) (s r it : Ptr) (ps : List Ptr) (fuel : ℕ) (h : IsStack m s r ps)
      (here : has it ps ≡ true) (l : length ps < fuel) where
    -- The memory after `Remove` of the item.
    uncounted : Memory A
    uncounted = record m {
      items = update m.items it (record (m.items it) { stack = nil });
      stacks =
          update m.stacks s
            (record { head = (m.stacks s).head; length = (m.stacks s).length +ℤ negsuc 0 });
    }

    remove_eq : remove fuel m it ≡ (true, uncounted)
    unfolding remove uncounted
    remove_eq =
        let found =
          find_item-Walk m fuel (m.stacks s).head ps r it h.walk (λ x i. (h.member x i).0)
            h.root_not_nil here l in
        ground (
          arith,
          found,
          h.member it here,
          h.stack_not_nil,
          item_ok m ps (m.stacks s).head r it h.walk here,
        )

    uncounted-length : len uncounted s +ℤ pos 1 ≡ pos (length ps)
    unfolding uncounted ◌+ℤ◌
    uncounted-length = ground (arith, h.counted)

    uncounted-values : iterate fuel uncounted (uncounted.stacks s).head ≡ values m ps
    unfolding uncounted
    uncounted-values =
        let walked = Walk-frame m uncounted (m.stacks s).head ps r h.walk (λ x i. ground arith) in
        let same = values-frame m uncounted ps (λ x i. ground arith) in
        let yielded =
          iterate-Walk m fuel (m.stacks s).head ps r h.walk (λ x i. (h.member x i).0) h.root_bad
            l in
        let again =
          iterate-Walk uncounted fuel (m.stacks s).head ps r walked (λ x i. (h.member x i).0)
            (ground (arith, h.root_bad)) l in
        ground (arith, again, same)

    -- `Remove` of an item of a stack says that it has removed it and counts the stack down, but the
    -- iteration still yields all the values, that of the item among them.
    pub remove_keeps :
        ((remove fuel m it).0 ≡ true)
        × (len (remove fuel m it).1 s +ℤ pos 1 ≡ pos (length ps))
        × (iterate fuel (remove fuel m it).1 ((remove fuel m it).1.stacks s).head ≡ values m ps)
    remove_keeps = rw remove_eq (refl, uncounted-length, uncounted-values)
