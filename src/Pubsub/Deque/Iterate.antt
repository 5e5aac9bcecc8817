-- ===== src/Pubsub/Deque/Iterate.antt =====
-- `IteratorFront` of pubsub/deque.go over a deque that nobody changes meanwhile.
use fun.Prelude.{ℕ, zero, suc, ◌<◌, ◌≡◌, true, false, none, some, List, [], ◌∷◌, length, arith}
use fun.Links.{Ptr, has, Chain}
use fun.Pubsub.Tracker.{Floats, len}
use fun.Pubsub.Deque.{Direction, dq_next, Deque}
use fun.Pubsub.Deque.Waits.{neighbor, iterator_move}
use fun.Pubsub.Deque.Holds.{next_of, prev_of, items, Holds}

module _ {F : Floats} {A : Type 0} where
  -- What an iterator yields from its cursor on, for at most `fuel` items.
  pub yields : ℕ → Deque F A → Direction → Ptr → List A
  yields zero q side p = []
  yields (suc fuel) q side p = elim (iterator_move q p side) [
    | none ↦ []
    | some (a, p') ↦ a ∷ yields fuel q side p'
  ]

  yields-Chain :
      (q : Deque F A) (fuel : ℕ) (p : Ptr) (ps : List Ptr)
      → Chain (next_of q) (prev_of q) p ps q.root
      → (q.cells p).removed ≡ false
      → ((x : Ptr) → has x ps ≡ true → (q.cells x).removed ≡ false)
      → has q.root ps ≡ false
      → length ps < fuel
      → yields fuel q dq_next p ≡ items q ps
  unfolding yields iterator_move neighbor
  yields-Chain q zero p ps h k f n l = absurd (omega (arith, l))
  yields-Chain q (suc fuel) p [] h k f n l = ground arith
  yields-Chain q (suc fuel) p (a ∷ ps) h k f n l =
      let rest =
        yields-Chain q fuel a ps h.2 (f a (ground arith)) (λ x i. f x (ground arith)) (ground arith)
          (omega (arith, l)) in
      ground (arith, rest)

  -- An iterator from the front of a deque that holds its elements yields their items in order, and then
  -- ends, when it is given one step more than the deque is long.
  pub iterator_yields :
      (q : Deque F A) (ps : List Ptr)
      → Holds q ps
      → yields (suc (len q.tracker)) q dq_next q.root ≡ items q ps
  iterator_yields q ps h =
      yields-Chain q (suc (len q.tracker)) q.root ps h.chain h.root_kept
        (λ x i. ground (arith, h.live x i)) h.apart (omega (arith, h.counted))
