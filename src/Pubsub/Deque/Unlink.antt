-- ===== src/Pubsub/Deque/Unlink.antt =====
-- What unlinking and releasing an element makes of a deque of pubsub/deque.go.
use fun.Prelude.{◌≡◌, ◌⊎◌, true, false, List, arith, ◌==◌}
use fun.Links.{
  Ptr, has, has_ne, without, Removed, Chain-remove, next-has, prev-has, has-without,
  Distinct-without, length-without, next_ne, prev_ne,
}
use fun.Pubsub.Tracker.{Floats}
use fun.Pubsub.Tracker.Limits.{remove-IsValid, len-remove}
use fun.Pubsub.Deque.{Deque, take_out}
use fun.Pubsub.Deque.Holds.{next_of, prev_of, items, Live, Holds, items-frame}

module _ {F : Floats} {A : Type 0} where
  module _ (z : A) (q : Deque F A) (e : Ptr) (ps : List Ptr) (h : Holds q ps)
      (here : has e ps ≡ true) where
    -- The neighbours of an element are others, or the root.
    pub next_cases : (has (next_of q e) ps ≡ true) ⊎ (next_of q e ≡ q.root)
    next_cases = next-has (next_of q) (prev_of q) q.root ps q.root e h.chain (ground arith)

    pub prev_cases : (has (prev_of q e) ps ≡ true) ⊎ (prev_of q e ≡ q.root)
    prev_cases =
        let sooner = prev-has (next_of q) (prev_of q) q.root ps q.root e h.chain here in
        ground arith

    unlinks :
        Removed (next_of q) (prev_of q) e (next_of (take_out z q e)) (prev_of (take_out z q e))
    unfolding take_out
    unlinks =
        let a =
          next_ne (next_of q) (prev_of q) q.root ps q.root e h.chain h.distinct h.apart here in
        let b =
          prev_ne (next_of q) (prev_of q) q.root ps q.root e h.chain h.distinct h.apart here in
        record {
          over_next = ground arith;
          over_prev = ground arith;
          else_next = λ y i j. ground arith;
          else_prev = λ y i j. ground arith;
        }

    take_out-Live : (p : Ptr) → has p ps ≡ true → (p == e) ≡ false → Live (take_out z q e) p
    unfolding take_out
    take_out-Live p i n =
        let known = h.live p i in
        record {
          not_nil = known.not_nil;
          old = known.old;
          no_root = ground (arith, known);
          kept = ground (arith, known);
        }

    pub take_out-Holds : Holds (take_out z q e) (without ps e)
    unfolding take_out
    take_out-Holds =
        let apart = has_ne e q.root ps here h.apart in
        record {
          chain =
              Chain-remove (next_of q) (prev_of q) e (next_of (take_out z q e))
                (prev_of (take_out z q e)) q.root ps q.root h.chain h.distinct h.apart h.apart here
                unlinks;
          distinct = Distinct-without ps e h.distinct;
          apart = ground (arith, has-without ps e q.root h.distinct, h.apart);
          live = λ p i.
              let j = has-without ps e p h.distinct in
              take_out-Live p (ground (arith, j)) (ground (arith, j));
          root_not_nil = h.root_not_nil;
          root_old = h.root_old;
          root_is = ground (arith, h.root_is);
          root_kept = ground (arith, h.root_kept);
          counted = omega (arith, h.counted, len-remove q.tracker, length-without ps e here);
          limits_ok =
              remove-IsValid q.tracker h.limits_ok
                (omega (arith, h.counted, length-without ps e here));
        }

    pub take_out-items : items (take_out z q e) (without ps e) ≡ items q (without ps e)
    unfolding take_out
    take_out-items =
        items-frame q (take_out z q e) (without ps e)
          (λ p i. ground (arith, has-without ps e p h.distinct))
