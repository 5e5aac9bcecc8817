-- ===== src/Pubsub/Queue/Asleep.antt =====
-- What an operation of pubsub/queue.go waits for when it sleeps on a condition variable, and that the
-- operations keep this true of all that sleep.
use fun.Prelude.{
  ℕ, ◌+◌, ◌-◌, ◌<◌, ◌≤◌, ◌≡◌, ◌⊎◌, inl, inr, Bool, true, false, Option, none, some, List, [], ◌∷◌,
  arith, ltb, ◌==◌, if◌then◌else◌, Bool-cases, All, All-map,
}
use fun.Pubsub.Errors.{ContextError, Error}
use fun.Pubsub.Tracker.{Floats, len, cap, remove}
use fun.Pubsub.Queue.{
  Ptr, Queue, Turn, done, asleep, push, close, unlink, append_entry, signal, Waiter, push_waiter,
  pop_waiter, drain_waiter, iterator_waiter, pop_wake,
}
use fun.Pubsub.Queue.Blocking.{drain, drain_turn, then_close}
use fun.Pubsub.Queue.Iterate.{after}
use fun.Pubsub.Queue.Model.{refusal}
use fun.Pubsub.Queue.Holds.{view}
use fun.Pubsub.Queue.Refine.{pushed_by, push-refusal}
use fun.Pubsub.Queue.Steps.{left_by}

-- Whether a broadcast or a signal wakes them, those that stay asleep were asleep.
All-woken :
    (P : Waiter → Type 0) (b : Bool) (ws : List Waiter)
    → All P ws
    → All P (if b then [] else signal ws)
All-woken P true ws h = tt
All-woken P false [] h = tt
All-woken P false (w ∷ ws) h = h.1

module _ {F : Floats} {A : Type 0} where
  -- Why an operation sleeps on `nempty`: the queue is open, and there is no item for a pop, or some
  -- item for a drain.
  abbrev pub AwaitsItems : Queue F A → Waiter → Type 0
  AwaitsItems q pop_waiter = (q.closed ≡ false) × (len q.tracker ≡ 0)
  AwaitsItems q drain_waiter = (q.closed ≡ false) × (0 < len q.tracker)
  AwaitsItems q push_waiter = ⊥
  AwaitsItems q (iterator_waiter p) = ⊥

  -- Why an operation sleeps on `nupdates`: the queue is open, and there is no room and no drain for a
  -- push, or nothing behind the cursor for an iterator.
  abbrev pub AwaitsUpdates : Queue F A → Waiter → Type 0
  AwaitsUpdates q push_waiter =
      (q.drainers ≡ 0) × (q.closed ≡ false) × (cap q.tracker ≤ len q.tracker)
  AwaitsUpdates q (iterator_waiter p) = (q.closed ≡ false) × (after q p ≡ none)
  AwaitsUpdates q pop_waiter = ⊥
  AwaitsUpdates q drain_waiter = ⊥

  pub record NoneLost (q : Queue F A) : Type 0 where
    pub items_ok : All (AwaitsItems q) q.nempty
    pub updates_ok : All (AwaitsUpdates q) q.nupdates

  pub push-NoneLost : (q : Queue F A) (x : A) (ps : List Ptr) → NoneLost q → NoneLost (push q x).1
  unfolding pushed_by append_entry
  push-NoneLost q x ps n = rw (push-refusal q x ps) (go (refusal (view q ps)))
    where
      go : (r : Option Error) → NoneLost (pushed_by q x r).1
      go none = record { items_ok = tt; updates_ok = tt }
      go (some e) = n

  unlink-items :
      (z : A) (q : Queue F A) (e : Ptr)
      → 0 < len q.tracker
      → 0 < len (remove q.tracker)
      → (w : Waiter) → AwaitsItems q w
      → AwaitsItems (unlink z q e) w
  unfolding unlink
  unlink-items z q e l r pop_waiter h = absurd (omega (arith, h.1))
  unlink-items z q e l r drain_waiter h = (h.0, r)
  unlink-items z q e l r push_waiter h = h
  unlink-items z q e l r (iterator_waiter p) h = h

  -- Taking an item out wakes the drains when it was the last one; no pop was asleep.
  pub unlink-NoneLost :
      (z : A) (q : Queue F A) (e : Ptr) → 0 < len q.tracker → NoneLost q → NoneLost (unlink z q e)
  unfolding unlink
  unlink-NoneLost z q e l n = elim (Bool-cases (len (remove q.tracker) == 0)) [
    | inl r ↦ record { items_ok = rw r tt; updates_ok = tt }
    | inr r ↦ record {
      items_ok = rw r (All-map q.nempty (unlink-items z q e l (ground arith)) n.items_ok);
      updates_ok = tt;
    }
  ]

  pub pop_wake-NoneLost : (k : ℕ) (q : Queue F A) → NoneLost q → NoneLost (pop_wake k q)
  unfolding pop_wake
  pop_wake-NoneLost k q n = elim (Bool-cases (k == 1)) [
    | inl e ↦ rw e (record {
      items_ok = All-woken (AwaitsItems q) (ltb 0 q.drainers) q.nempty n.items_ok;
      updates_ok = n.updates_ok;
    })
    | inr e ↦ rw e (record {
      items_ok = n.items_ok;
      updates_ok = All-woken (AwaitsUpdates q) (ltb 0 q.drainers) q.nupdates n.updates_ok;
    })
  ]

  -- A drainer that leaves or goes back to sleep.
  leave_drain-NoneLost :
      (q : Queue F A) → NoneLost q → NoneLost (record q { drainers = q.drainers - 1 })
  leave_drain-NoneLost q n = record {
    items_ok = n.items_ok;
    updates_ok = All-map q.nupdates keep n.updates_ok;
  }
    where
      keep :
          (w : Waiter)
          → AwaitsUpdates q w
          → AwaitsUpdates (record q { drainers = q.drainers - 1 }) w
      keep push_waiter h = (omega (arith, h.0), h.1, h.2)
      keep (iterator_waiter p) h = h
      keep pop_waiter h = h
      keep drain_waiter h = h

  drain_turn_cases :
      (ctx : Option ContextError) (q : Queue F A)
      → (left_by (drain_turn ctx q) ≡ record q { drainers = q.drainers - 1 })
        ⊎ ((q.closed ≡ false)
            × (0 < len q.tracker)
            × (left_by (drain_turn ctx q) ≡ record q { nempty = drain_waiter ∷ q.nempty }))
  unfolding drain_turn
  drain_turn_cases ctx q = ground arith

  pub drain_turn-NoneLost :
      (ctx : Option ContextError) (q : Queue F A)
      → NoneLost q
      → NoneLost (left_by (drain_turn ctx q))
  drain_turn-NoneLost ctx q n = elim (drain_turn_cases ctx q) [
    | inl e ↦ rw e (leave_drain-NoneLost q n)
    | inr (c, l, e) ↦ rw e (record { items_ok = ((c, l), n.items_ok); updates_ok = n.updates_ok })
  ]

  drain_cases :
      (ctx : Option ContextError) (q : Queue F A)
      → (left_by (drain ctx q) ≡ q)
        ⊎ (left_by (drain ctx q)
            ≡ left_by (drain_turn none (record q { drainers = q.drainers + 1; nupdates = [] })))
  unfolding drain
  drain_cases ctx q = ground arith

  -- A drain wakes every push that sleeps before it waits itself.
  pub drain-NoneLost :
      (ctx : Option ContextError) (q : Queue F A) → NoneLost q → NoneLost (left_by (drain ctx q))
  drain-NoneLost ctx q n = elim (drain_cases ctx q) [
    | inl e ↦ rw e n
    | inr e ↦ rw e (
        drain_turn-NoneLost none (record q { drainers = q.drainers + 1; nupdates = [] })
          (record { items_ok = n.items_ok; updates_ok = tt }))
  ]

  pub close-NoneLost : (q : Queue F A) → NoneLost (close q)
  unfolding close
  close-NoneLost q = record { items_ok = tt; updates_ok = tt }

  pub then_close-NoneLost :
      (t : Turn F A (Option Error)) → NoneLost (left_by t) → NoneLost (left_by (then_close t))
  unfolding then_close
  then_close-NoneLost (done none q) n = close-NoneLost q
  then_close-NoneLost (done (some e) q) n = n
  then_close-NoneLost (asleep q) n = n
