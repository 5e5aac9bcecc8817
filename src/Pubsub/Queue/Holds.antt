-- ===== src/Pubsub/Queue/Holds.antt =====
-- The representation of a queue: its chain of entries, counted by its tracker, and what each
-- operation of pubsub/queue.go makes of it.
use fun.Prelude.{
  ℕ, zero, suc, ◌+◌, ◌<◌, ◌≡◌, refl, inl, inr, false, Option, none, some, List, [], ◌∷◌, ◌++◌,
  length, length-append, arith, ◌==◌, if◌then◌else◌, Bool-cases,
}
use fun.Pubsub.Tracker.{Floats, Tracker, len, add, remove}
use fun.Pubsub.Tracker.Limits.{IsValid, remove-IsValid, len-remove}
use fun.Pubsub.Queue.{Ptr, Queue, ok, make_queue, append_entry, unlink, pop_front, close, pop_wake}
use fun.Pubsub.Queue.Chain.{
  Chain, items, Chain-le, Chain-linked, items-linked, Chain-unlinked, items-unlinked,
}
use fun.Pubsub.Queue.Iterate.{position, iterator_step, iterator}
use fun.Pubsub.Queue.Model.{Model}

-- The queue holds the entries at these addresses, and its tracker counts them.
pub record Holds {F : Floats} {A : Type 0} (q : Queue F A) (ps : List Ptr) : Type 0 where
  pub chain : Chain q.cells q.front ps q.back
  pub room : q.back < q.fresh
  pub counted : len q.tracker ≡ length ps
  pub limits_ok : IsValid q.tracker

-- The state of the model that such a queue stands for.
abbrev pub view : {F : Floats} {A : Type 0} → Queue F A → List Ptr → Model F A
view q ps = record {
  limits = q.tracker;
  drains = q.drainers;
  is_closed = q.closed;
  content = items q.cells ps;
}

module _ {F : Floats} {A : Type 0} where
  pub make_queue-Holds : (z : A) (t : Tracker F) → len t ≡ 0 → IsValid t → Holds (make_queue z t) []
  unfolding make_queue
  make_queue-Holds z t e v = record {
    chain = (refl, refl, refl);
    room = omega arith;
    counted = e;
    limits_ok = v;
  }

  pub append_entry-Holds :
      (q : Queue F A) (x : A) (t : Tracker F) (ps : List Ptr)
      → Holds q ps
      → len t ≡ len q.tracker + 1
      → IsValid t
      → Holds (append_entry q x t) (ps ++ (q.fresh ∷ []))
  unfolding append_entry
  append_entry-Holds q x t ps h e v = record {
    chain = Chain-linked q.cells x q.fresh q.front ps q.back h.chain h.room;
    room = omega arith;
    counted = omega (arith, h.counted, length-append ps (q.fresh ∷ []));
    limits_ok = v;
  }

  pub unlink-Holds :
      (z : A) (q : Queue F A) (e : Ptr) (ps : List Ptr) → Holds q (e ∷ ps) → Holds (unlink z q e) ps
  unfolding unlink
  unlink-Holds z q e ps h =
      let below = Chain-le q.cells q.front (e ∷ ps) q.back h.chain in
      record {
        chain = Chain-unlinked q.cells z q.front e ps q.back h.chain;
        room = ground arith;
        counted = omega (arith, h.counted, len-remove q.tracker);
        limits_ok = remove-IsValid q.tracker h.limits_ok (omega (arith, h.counted));
      }

  pub view-append_entry :
      (q : Queue F A) (x : A) (ps : List Ptr)
      → Holds q ps
      → view (append_entry q x (add q.tracker).1) (ps ++ (q.fresh ∷ []))
        ≡ record (view q ps) { limits = (add q.tracker).1; content = items q.cells ps ++ (x ∷ []) }
  unfolding append_entry
  view-append_entry q x ps h =
      ground (arith, items-linked q.cells x q.fresh q.front ps q.back h.chain h.room)

  pub view-unlink :
      (z : A) (q : Queue F A) (e : Ptr) (ps : List Ptr)
      → Holds q (e ∷ ps)
      → view (unlink z q e) ps
        ≡ record (view q (e ∷ ps)) { limits = remove q.tracker; content = items q.cells ps }
  unfolding unlink
  view-unlink z q e ps h = ground (arith, items-unlinked q.cells z q.front e ps q.back h.chain)

  -- `pop_front` on a queue that holds the entry `e` first.
  pub pop_front-cons :
      (z : A) (q : Queue F A) (e : Ptr) (ps : List Ptr)
      → Holds q (e ∷ ps)
      → pop_front z q ≡ ok ((q.cells e).item, unlink z q e)
  unfolding pop_front
  pop_front-cons z q e ps h = rw (h.chain.1, pop_front)

  -- The wake-ups of a pop change nothing that the model sees.
  pub view-pop_wake : (n : ℕ) (q : Queue F A) (ps : List Ptr) → view (pop_wake n q) ps ≡ view q ps
  unfolding pop_wake
  view-pop_wake n q ps = elim (Bool-cases (n == 1)) [ inl e ↦ rw e | inr e ↦ rw e ]

  pub pop_wake-Holds :
      (n : ℕ) (q : Queue F A) (ps : List Ptr) → Holds q ps → Holds (pop_wake n q) ps
  unfolding pop_wake
  pop_wake-Holds n q ps h = elim (Bool-cases (n == 1)) [
    | inl e ↦
        rw e
          (record { chain = h.chain; room = h.room; counted = h.counted; limits_ok = h.limits_ok })
    | inr e ↦
        rw e
          (record { chain = h.chain; room = h.room; counted = h.counted; limits_ok = h.limits_ok })
  ]

  pub close-Holds : (q : Queue F A) (ps : List Ptr) → Holds q ps → Holds (close q) ps
  unfolding close
  close-Holds q ps h = record {
    chain = h.chain;
    room = h.room;
    counted = h.counted;
    limits_ok = h.limits_ok;
  }

  -- From a cursor in an open queue the iterator yields what stands behind it.
  pub iterator-Chain :
      (q : Queue F A) (cursor : Option Ptr) (fuel : ℕ) (p : Ptr) (ps : List Ptr) (b : Ptr)
      → Chain q.cells p ps b
      → position q cursor ≡ p
      → length ps < fuel
      → q.closed ≡ false
      → iterator fuel q cursor ≡ items q.cells ps
  unfolding iterator
  iterator-Chain q cursor zero p ps b h at l c = absurd (omega arith)
  iterator-Chain q cursor (suc fuel) p [] b h at l c = ground arith
  iterator-Chain q cursor (suc fuel) p (a ∷ ps) b h at l c =
      ground (arith, iterator-Chain q (some a) fuel a ps b h.3 refl)

  -- With one step more than it has items an iterator yields all of them, or none once it is closed.
  pub iterator_lem :
      (q : Queue F A) (ps : List Ptr)
      → Holds q ps
      → iterator (suc (len q.tracker)) q none ≡ (if q.closed then [] else items q.cells ps)
  unfolding iterator
  iterator_lem q ps h = elim (Bool-cases q.closed) [
    | inl c ↦ rw (c, iterator_step)
    | inr c ↦ simp c (
        iterator-Chain q none (suc (len q.tracker)) q.front ps q.back h.chain refl
          (omega (arith, h.counted)) c)
  ]
