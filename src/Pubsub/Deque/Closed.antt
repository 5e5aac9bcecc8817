-- ===== src/Pubsub/Deque/Closed.antt =====
-- What Close of pubsub/deque.go promises for good, whatever goroutines and contexts do afterwards.
use fun.Prelude.{
  ℕ, ◌-◌, ◌≡◌, refl, sym, ap, ◌∙◌, ◌⊎◌, inl, Bool, true, Option, none, some, [], arith, ltb,
  if◌then◌else◌,
}
use mathlib.Core.Path.{subst}
use fun.Links.{Ptr}
use fun.Pubsub.Errors.{ContextError, Error, queue_closed, queue_draining}
use fun.Pubsub.Tracker.{Floats}
use fun.Pubsub.Deque.{Direction, Deque, ok, add_item, pop, force_push, close}
use fun.Pubsub.Deque.Waits.{
  Turn, done, asleep, wait_push_turn, wait_pop_turn, drain, drain_turn, shutdown, then_close,
  neighbor, iterator_turn, iterator_move,
}
use fun.Pubsub.Deque.Ends.{end}
use fun.Pubsub.Deque.Model.{other}
use fun.Pubsub.Deque.Precedence.{deque_closed_first}
use fun.Pubsub.Deque.Steps.{
  Step, left_by, pushes, pops, force_pushes, closes, wait_pushes, wait_pops, drains, drain_resumes,
  shutdowns, shutdown_resumes, iterates, cancel_wakes_front, cancel_wakes_back,
  cancel_wakes_updates,
}

module _ {F : Floats} {A : Type 0} where
  -- What a deque becomes by steps.
  pub data Later (z : A) (q : Deque F A) : Deque F A → Type 0 where
    now : Later z q q
    next : {q' q'' : Deque F A} → Later z q q' → Step z q' q'' → Later z q q''

  -- Closed, with the elements and the tracker of `q`, and nobody asleep on a condition variable.
  pub record Shut (q q' : Deque F A) : Type 0 where
    pub is_closed : q'.closed ≡ true
    pub same_tracker : q'.tracker ≡ q.tracker
    pub same_cells : q'.cells ≡ q.cells
    pub same_root : q'.root ≡ q.root
    pub no_front_sleeps : q'.nfront ≡ []
    pub no_back_sleeps : q'.nback ≡ []
    pub no_update_sleeps : q'.updates ≡ []

  push_shut :
      (q : Deque F A) (side : Direction) (x : A) → q.closed ≡ true → (add_item q x side).1 ≡ q
  unfolding add_item
  push_shut q side x c = ground (arith, c)

  pop_shut :
      (z : A) (q q' : Deque F A) (p : Ptr) (o : Option A)
      → q.closed ≡ true
      → pop z q p ≡ ok (o, q')
      → q' ≡ q
  unfolding pop
  pop_shut z q q' p o c e = ground (arith, c, e)

  force_push_shut :
      (z : A) (q q' : Deque F A) (x : A) (side far : Direction) (e : Option Error)
      → q.closed ≡ true
      → force_push z q x side far ≡ ok (e, q')
      → q' ≡ q
  unfolding force_push
  force_push_shut z q q' x side far e c h = ground (arith, c, h)

  wait_push_shut :
      (ctx : Option ContextError) (q : Deque F A) (side : Direction) (x : A)
      → q.closed ≡ true
      → left_by (wait_push_turn ctx q x side) ≡ q
  unfolding wait_push_turn
  wait_push_shut ctx q side x c = ground (arith, c)

  wait_pop_shut :
      (z : A) (ctx : Option ContextError) (q : Deque F A) (side : Direction)
      (t : Turn F A (Error ⊎ Option A))
      → q.closed ≡ true
      → wait_pop_turn z ctx side q ≡ ok t
      → left_by t ≡ q
  unfolding wait_pop_turn
  wait_pop_shut z ctx q side t c e = ground (arith, c, e)

  drain_shut :
      (ctx : Option ContextError) (q : Deque F A) → q.closed ≡ true → left_by (drain ctx q) ≡ q
  unfolding drain
  drain_shut ctx q c = ground (arith, c)

  drain_turn_shut :
      (ctx : Option ContextError) (q : Deque F A)
      → q.closed ≡ true
      → left_by (drain_turn ctx q) ≡ record q { drainers = q.drainers - 1 }
  unfolding drain_turn
  drain_turn_shut ctx q c = ground (arith, c)

  shutdown_shut :
      (ctx : Option ContextError) (q : Deque F A) → q.closed ≡ true → left_by (shutdown ctx q) ≡ q
  unfolding shutdown drain then_close
  shutdown_shut ctx q c = ground (arith, c)

  iterate_shut :
      (ctx : Option ContextError) (q : Deque F A) (blocking : Bool) (side : Direction)
      (cursor : Ptr)
      → q.closed ≡ true
      → left_by (iterator_turn ctx blocking side cursor q) ≡ q
  unfolding iterator_turn
  iterate_shut ctx q blocking side cursor c = ground (arith, c)

  close-Shut : (q p : Deque F A) → Shut q p → Shut q (close p)
  unfolding close
  close-Shut q p s = ground (arith, s)

  fewer-Shut : (q p : Deque F A) (n : ℕ) → Shut q p → Shut q (record p { drainers = n })
  fewer-Shut q p n s = ground (arith, s)

  then_close-Shut :
      (q : Deque F A) (t : Turn F A (Option Error))
      → Shut q (left_by t)
      → Shut q (left_by (then_close t))
  unfolding then_close
  then_close-Shut q (done none p) s = close-Shut q p s
  then_close-Shut q (done (some e) p) s = s
  then_close-Shut q (asleep p) s = s

  drain_turn-Shut :
      (q : Deque F A) (ctx : Option ContextError) (p : Deque F A)
      → Shut q p
      → Shut q (left_by (drain_turn ctx p))
  drain_turn-Shut q ctx p s =
      subst (Shut q) (sym (drain_turn_shut ctx p s.is_closed)) (fewer-Shut q p (p.drainers - 1) s)

  Step-Shut : (z : A) (q : Deque F A) {p p' : Deque F A} → Step z p p' → Shut q p → Shut q p'
  Step-Shut z q (pushes p side x) s = subst (Shut q) (sym (push_shut p side x s.is_closed)) s
  Step-Shut z q (pops {q = p} {q' = p'} side o e) s =
      subst (Shut q) (sym (pop_shut z p p' (end p side) o s.is_closed e)) s
  Step-Shut z q (force_pushes {q = p} {q' = p'} side x r e) s =
      subst (Shut q) (sym (force_push_shut z p p' x side (other side) r s.is_closed e)) s
  Step-Shut z q (closes p) s = close-Shut q p s
  Step-Shut z q (wait_pushes ctx p side x) s =
      subst (Shut q) (sym (wait_push_shut ctx p side x s.is_closed)) s
  Step-Shut z q (wait_pops ctx {q = p} side t e same) s =
      subst (Shut q) (sym (wait_pop_shut z ctx p side t s.is_closed e) ∙ same) s
  Step-Shut z q (drains ctx p) s = subst (Shut q) (sym (drain_shut ctx p s.is_closed)) s
  Step-Shut z q (drain_resumes ctx p l) s = drain_turn-Shut q ctx p s
  Step-Shut z q (shutdowns ctx p) s = subst (Shut q) (sym (shutdown_shut ctx p s.is_closed)) s
  Step-Shut z q (shutdown_resumes ctx p l) s =
      then_close-Shut q (drain_turn ctx p) (drain_turn-Shut q ctx p s)
  Step-Shut z q (iterates ctx p blocking side cursor) s =
      subst (Shut q) (sym (iterate_shut ctx p blocking side cursor s.is_closed)) s
  Step-Shut z q (cancel_wakes_front p) s = ground (arith, s)
  Step-Shut z q (cancel_wakes_back p) s = ground (arith, s)
  Step-Shut z q (cancel_wakes_updates p) s = ground (arith, s)

  Later-Shut : (z : A) (q : Deque F A) {p p' : Deque F A} → Later z p p' → Shut q p → Shut q p'
  Later-Shut z q now s = s
  Later-Shut z q (next l t) s = Step-Shut z q t (Later-Shut z q l s)

  closed-Shut : (q : Deque F A) → Shut q (close q)
  unfolding close
  closed-Shut q = ground arith

  move_same :
      (q q' : Deque F A) (cursor : Ptr) (side : Direction)
      → Shut q q'
      → iterator_move q' cursor side ≡ iterator_move q cursor side
  unfolding iterator_move neighbor
  move_same q q' cursor side s = rw (s.same_cells, s.same_root, s.same_tracker) refl

  -- After Close, whatever goroutines and contexts do, the deque stays closed, nobody sleeps on it, and
  -- its elements and its tracker stay as Close found them: nothing is added, forced in or taken out. In
  -- each of those states the waiting pops, Drain and Shutdown report the close, whatever the context
  -- says; the waiting pushes report the close too, or that the deque is draining while a drain is
  -- outstanding; and a waiting iterator moves on through what Close found.
  pub deque_close_lem :
      (z : A) (q : Deque F A) {q' : Deque F A} (ctx : Option ContextError) (side : Direction)
      (x : A) (cursor : Ptr)
      → Later z (close q) q'
      → Shut q q'
        × (wait_pop_turn z ctx side q' ≡ ok (done (inl queue_closed) q'))
        × (drain ctx q' ≡ done (some queue_closed) q')
        × (shutdown ctx q' ≡ done (some queue_closed) q')
        × (wait_push_turn ctx q' x side
            ≡ done (some (if ltb 0 q'.drainers then queue_draining else queue_closed)) q')
        × (iterator_turn ctx true side cursor q' ≡ done (iterator_move q cursor side) q')
  deque_close_lem z q {q'} ctx side x cursor l =
      let s = Later-Shut z q l (closed-Shut q) in
      let (pop_says, drain_says, shutdown_says, push_says, moves) =
        deque_closed_first z q' side ctx x cursor s.is_closed in
      let same : iterator_move q' cursor side ≡ iterator_move q cursor side =
        move_same q q' cursor side s in
      (s, pop_says, drain_says, shutdown_says, push_says, moves ∙ ap (λ r. done r q') same)
