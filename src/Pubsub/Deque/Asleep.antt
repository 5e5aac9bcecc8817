-- ===== src/Pubsub/Deque/Asleep.antt =====
-- What an operation of pubsub/deque.go waits for when it sleeps on a condition variable, and that the
-- operations keep this true of all that sleep.
use fun.Prelude.{
  ℕ, ◌+◌, ◌-◌, ◌<◌, ◌≤◌, ◌≡◌, refl, ◌⊎◌, inl, inr, false, Option, none, some, List, [], ◌∷◌, arith,
  ◌==◌, Bool-cases, All, All-map, Option-cases,
}
use mathlib.Core.Path.{subst}
use fun.Links.{Ptr}
use fun.Pubsub.Errors.{ContextError, Error}
use fun.Pubsub.Tracker.{Floats, len, cap, add}
use fun.Pubsub.Tracker.Limits.{add_lem}
use fun.Pubsub.Deque.{
  Direction, dq_next, dq_prev, Waiter, push_waiter, drain_waiter, pop_waiter, iterator_waiter,
  Deque, ok, add_item, insert, pop, take_out, force_push, close, check_open,
}
use fun.Pubsub.Deque.Waits.{
  Turn, done, asleep, wait_push_turn, drain_turn, drain, then_close, shutdown, fall_asleep,
  neighbor,
}
use fun.Pubsub.Deque.Ends.{end, pop_refines}
use fun.Pubsub.Deque.Run.{force-refused, force-room, force-full}
use fun.Pubsub.Deque.Refine.{view}
use fun.Pubsub.Deque.Model.{other, pop_model}
use fun.Pubsub.Deque.Steps.{left_by, Held, wait_push_cases, drain_turn_cases, drain_cases}

module _ {F : Floats} {A : Type 0} where
  -- Why an operation sleeps on `updates`: the deque is open, and there is no room and no drain for a
  -- push, or some item for a drain.
  abbrev pub AwaitsUpdates : Deque F A → Waiter → Type 0
  AwaitsUpdates q push_waiter =
      (q.drainers ≡ 0) × (q.closed ≡ false) × (cap q.tracker ≤ len q.tracker)
  AwaitsUpdates q drain_waiter = (q.closed ≡ false) × (0 < len q.tracker)
  AwaitsUpdates q (pop_waiter d) = ⊥
  AwaitsUpdates q (iterator_waiter d p) = ⊥

  -- Why an operation sleeps on the condition variable of an end: the deque is open, and there is no
  -- item for a pop, or nothing next to the cursor for an iterator.
  abbrev pub AwaitsEnd : Deque F A → Direction → Waiter → Type 0
  AwaitsEnd q side (pop_waiter d) = (d ≡ side) × (q.closed ≡ false) × (len q.tracker ≡ 0)
  AwaitsEnd q side (iterator_waiter d p) =
      (d ≡ side) × (q.closed ≡ false) × (neighbor q p d ≡ q.root)
  AwaitsEnd q side push_waiter = ⊥
  AwaitsEnd q side drain_waiter = ⊥

  pub record NoneLost (q : Deque F A) : Type 0 where
    pub front_ok : All (AwaitsEnd q dq_next) q.nfront
    pub back_ok : All (AwaitsEnd q dq_prev) q.nback
    pub updates_ok : All (AwaitsUpdates q) q.updates

  -- The three lists are empty, as `notify` leaves them.
  Quiet : Deque F A → Type 0
  Quiet q = (q.nfront ≡ []) × (q.nback ≡ []) × (q.updates ≡ [])

  Quiet-NoneLost : (q : Deque F A) → Quiet q → NoneLost q
  unfolding Quiet
  Quiet-NoneLost q (a, b, c) = record {
    front_ok = rw a tt;
    back_ok = rw b tt;
    updates_ok = rw c tt;
  }

  -- A longer list of those asleep, and another count of drainers, leave the reasons as they are.
  pub booked-NoneLost :
      (q : Deque F A) (fs bs us : List Waiter) (d : ℕ)
      → All (AwaitsEnd q dq_next) fs
      → All (AwaitsEnd q dq_prev) bs
      → All (AwaitsUpdates (record q { drainers = d })) us
      → NoneLost (record q { nfront = fs; nback = bs; updates = us; drainers = d })
  unfolding neighbor
  booked-NoneLost q fs bs us d f b u = record {
    front_ok = All-map fs (keep dq_next) f;
    back_ok = All-map bs (keep dq_prev) b;
    updates_ok = All-map us again u;
  }
    where
      keep :
          (side : Direction) (w : Waiter)
          → AwaitsEnd q side w
          → AwaitsEnd (record q { nfront = fs; nback = bs; updates = us; drainers = d }) side w
      keep side (pop_waiter e) h = h
      keep side (iterator_waiter e p) h = h
      keep side push_waiter h = h
      keep side drain_waiter h = h

      again :
          (w : Waiter)
          → AwaitsUpdates (record q { drainers = d }) w
          → AwaitsUpdates (record q { nfront = fs; nback = bs; updates = us; drainers = d }) w
      again push_waiter h = h
      again drain_waiter h = h
      again (pop_waiter e) h = h
      again (iterator_waiter e p) h = h

  pub fall_asleep-NoneLost :
      (q : Deque F A) (side : Direction) (w : Waiter)
      → AwaitsEnd q side w
      → NoneLost q
      → NoneLost (fall_asleep side w q)
  fall_asleep-NoneLost q dq_next w h n =
      booked-NoneLost q (w ∷ q.nfront) q.nback q.updates q.drainers (h, n.front_ok) n.back_ok
        n.updates_ok
  fall_asleep-NoneLost q dq_prev w h n =
      booked-NoneLost q q.nfront (w ∷ q.nback) q.updates q.drainers n.front_ok (h, n.back_ok)
        n.updates_ok

  add_item_cases :
      (q : Deque F A) (x : A) (side : Direction)
      → ((add_item q x side).1 ≡ q)
        ⊎ ((add_item q x side).1 ≡ record q { updates = [] })
        ⊎ ((add_item q x side).1 ≡ insert q x side (add q.tracker).1)
  unfolding add_item
  add_item_cases q x side = ground (arith, add_lem q.tracker)

  pub add_item-NoneLost :
      (q : Deque F A) (x : A) (side : Direction) → NoneLost q → NoneLost (add_item q x side).1
  unfolding insert Quiet
  add_item-NoneLost q x side n = elim (add_item_cases q x side) [
    | inl e ↦ rw e n
    | inr (inl e) ↦ rw e (booked-NoneLost q q.nfront q.nback [] q.drainers n.front_ok n.back_ok tt)
    | inr (inr e) ↦ rw e (Quiet-NoneLost (insert q x side (add q.tracker).1) (refl, refl, refl))
  ]

  pop_cases :
      (z : A) (q q' : Deque F A) (p : Ptr) (o : Option A)
      → pop z q p ≡ ok (o, q')
      → (q' ≡ q) ⊎ Quiet q'
  unfolding pop take_out Quiet
  pop_cases z q q' p o e = ground arith

  pub pop-NoneLost :
      (z : A) (q q' : Deque F A) (p : Ptr) (o : Option A)
      → pop z q p ≡ ok (o, q')
      → NoneLost q
      → NoneLost q'
  pop-NoneLost z q q' p o e n = elim (pop_cases z q q' p o e) [
    | inl s ↦ rw s n
    | inr s ↦ Quiet-NoneLost q' s
  ]

  pub force_push-NoneLost :
      (z : A) (q q' : Deque F A) (x : A) (side : Direction) (e : Option Error)
      → force_push z q x side (other side) ≡ ok (e, q')
      → Held q
      → NoneLost q
      → NoneLost q'
  force_push-NoneLost z q q' x side e f (ps, h) n = elim (Option-cases (check_open q)) [
    | inr (err, c) ↦
        let same : q ≡ q' = cc (f, (force-refused z q x side ps err c).0) in subst NoneLost same n
    | inl c ↦ elim (Bool-cases (cap q.tracker == len q.tracker)) [
      | inr r ↦
          let same : (add_item q x side).1 ≡ q' = cc (f, (force-room z q x side ps c r).0) in
          subst NoneLost same (add_item-NoneLost q x side n)
      | inl r ↦
          let p = pop_refines z q (other side) ps h in
          let g =
            force-full z q x side ps (pop_model (view q ps) (other side)).0 p.left c r p.answer in
          let same : (add_item p.left x side).1 ≡ q' = cc (f, g.0) in
          let popped = pop-NoneLost z q p.left (end q (other side)) _ p.answer n in
          subst NoneLost same (add_item-NoneLost p.left x side popped)
    ]
  ]

  pub drain_turn-NoneLost :
      (ctx : Option ContextError) (q : Deque F A)
      → NoneLost q
      → NoneLost (left_by (drain_turn ctx q))
  drain_turn-NoneLost ctx q n = elim (drain_turn_cases ctx q) [
    | inl e ↦ rw e (
        booked-NoneLost q q.nfront q.nback q.updates (q.drainers - 1) n.front_ok n.back_ok
          (All-map q.updates fewer n.updates_ok))
    | inr (c, l, e) ↦ rw e (
        booked-NoneLost q q.nfront q.nback (drain_waiter ∷ q.updates) q.drainers n.front_ok
          n.back_ok ((c, l), n.updates_ok))
  ]
    where
      fewer :
          (w : Waiter)
          → AwaitsUpdates q w
          → AwaitsUpdates (record q { drainers = q.drainers - 1 }) w
      fewer push_waiter h = (omega (arith, h.0), h.1, h.2)
      fewer drain_waiter h = h
      fewer (pop_waiter d) h = h
      fewer (iterator_waiter d p) h = h

  -- A drain wakes every push that sleeps before it waits itself.
  pub drain-NoneLost :
      (ctx : Option ContextError) (q : Deque F A) → NoneLost q → NoneLost (left_by (drain ctx q))
  drain-NoneLost ctx q n = elim (drain_cases ctx q) [
    | inl e ↦ rw e n
    | inr e ↦ rw e (
        drain_turn-NoneLost none (record q { drainers = q.drainers + 1; updates = [] })
          (booked-NoneLost q q.nfront q.nback [] (q.drainers + 1) n.front_ok n.back_ok tt))
  ]

  pub close-NoneLost : (q : Deque F A) → NoneLost (close q)
  unfolding close Quiet
  close-NoneLost q = Quiet-NoneLost (close q) (refl, refl, refl)

  pub then_close-NoneLost :
      (t : Turn F A (Option Error)) → NoneLost (left_by t) → NoneLost (left_by (then_close t))
  unfolding then_close
  then_close-NoneLost (done none q) n = close-NoneLost q
  then_close-NoneLost (done (some e) q) n = n
  then_close-NoneLost (asleep q) n = n

  pub shutdown-NoneLost :
      (ctx : Option ContextError) (q : Deque F A) → NoneLost q → NoneLost (left_by (shutdown ctx q))
  unfolding shutdown
  shutdown-NoneLost ctx q n = then_close-NoneLost (drain ctx q) (drain-NoneLost ctx q n)

  pub wait_push-NoneLost :
      (ctx : Option ContextError) (q : Deque F A) (side : Direction) (x : A)
      → NoneLost q
      → NoneLost (left_by (wait_push_turn ctx q x side))
  wait_push-NoneLost ctx q side x n = elim (wait_push_cases ctx q side x) [
    | inl e ↦ rw e n
    | inr (inl e) ↦ rw e (add_item-NoneLost q x side n)
    | inr (inr (d, c, l, e)) ↦ rw e (
        booked-NoneLost q q.nfront q.nback (push_waiter ∷ q.updates) q.drainers n.front_ok n.back_ok
          ((d, c, l), n.updates_ok))
  ]
