-- ===== src/Pubsub/Queue/Closed.antt =====
-- What Close of pubsub/queue.go promises for good, whatever goroutines and contexts do afterwards.
use fun.Prelude.{
  ℕ, ◌-◌, ◌≡◌, sym, ap, ◌∙◌, ◌⊎◌, inl, true, Option, none, some, [], arith, ltb, if◌then◌else◌,
}
use mathlib.Core.Path.{subst}
use fun.Pubsub.Errors.{ContextError, Error, queue_closed, queue_draining}
use fun.Pubsub.Tracker.{Floats}
use fun.Pubsub.Queue.{Ptr, Queue, ok, Turn, done, asleep, push, pop, close}
use fun.Pubsub.Queue.Blocking.{
  wait_push_turn, wait_pop_turn, drain, drain_turn, shutdown, then_close,
}
use fun.Pubsub.Queue.Iterate.{iterator_wait_turn, advance}
use fun.Pubsub.Queue.Precedence.{closed_first}
use fun.Pubsub.Queue.Steps.{
  Step, left_by, pushes, pops, closes, wait_pushes, wait_pops, drains, drain_resumes, shutdowns,
  shutdown_resumes, iterates, cancel_wakes_empty, cancel_wakes_updates,
}

module _ {F : Floats} {A : Type 0} where
  -- What a queue becomes by steps.
  pub data Later (z : A) (q : Queue F A) : Queue F A → Type 0 where
    now : Later z q q
    next : {q' q'' : Queue F A} → Later z q q' → Step z q' q'' → Later z q q''

  -- Closed, with the entries and the tracker of `q`, and nobody asleep on a condition variable.
  pub record Shut (q q' : Queue F A) : Type 0 where
    pub is_closed : q'.closed ≡ true
    pub same_tracker : q'.tracker ≡ q.tracker
    pub same_cells : q'.cells ≡ q.cells
    pub same_front : q'.front ≡ q.front
    pub same_back : q'.back ≡ q.back
    pub no_pop_sleeps : q'.nempty ≡ []
    pub no_push_sleeps : q'.nupdates ≡ []

  push_shut : (q : Queue F A) (x : A) → q.closed ≡ true → (push q x).1 ≡ q
  unfolding push
  push_shut q x c = ground (arith, c)

  pop_shut :
      (z : A) (q q' : Queue F A) (o : Option A) → q.closed ≡ true → pop z q ≡ ok (o, q') → q' ≡ q
  unfolding pop
  pop_shut z q q' o c e = ground (arith, c, e)

  wait_push_shut :
      (ctx : Option ContextError) (q : Queue F A) (x : A)
      → q.closed ≡ true
      → left_by (wait_push_turn ctx q x) ≡ q
  unfolding wait_push_turn
  wait_push_shut ctx q x c = ground (arith, c)

  wait_pop_shut :
      (z : A) (ctx : Option ContextError) (q : Queue F A) (t : Turn F A (Error ⊎ A))
      → q.closed ≡ true
      → wait_pop_turn z ctx q ≡ ok t
      → left_by t ≡ q
  unfolding wait_pop_turn
  wait_pop_shut z ctx q t c e = ground (arith, c, e)

  drain_shut :
      (ctx : Option ContextError) (q : Queue F A) → q.closed ≡ true → left_by (drain ctx q) ≡ q
  unfolding drain
  drain_shut ctx q c = ground (arith, c)

  drain_turn_shut :
      (ctx : Option ContextError) (q : Queue F A)
      → q.closed ≡ true
      → left_by (drain_turn ctx q) ≡ record q { drainers = q.drainers - 1 }
  unfolding drain_turn
  drain_turn_shut ctx q c = ground (arith, c)

  shutdown_shut :
      (ctx : Option ContextError) (q : Queue F A) → q.closed ≡ true → left_by (shutdown ctx q) ≡ q
  unfolding shutdown drain then_close
  shutdown_shut ctx q c = ground (arith, c)

  iterate_shut :
      (ctx : Option ContextError) (q : Queue F A) (cursor : Option Ptr)
      → q.closed ≡ true
      → iterator_wait_turn ctx q cursor ≡ done (advance q cursor) q
  unfolding iterator_wait_turn
  iterate_shut ctx q cursor c = ground (arith, c)

  close-Shut : (q p : Queue F A) → Shut q p → Shut q (close p)
  unfolding close
  close-Shut q p s = ground (arith, s)

  fewer-Shut : (q p : Queue F A) (n : ℕ) → Shut q p → Shut q (record p { drainers = n })
  fewer-Shut q p n s = ground (arith, s)

  then_close-Shut :
      (q : Queue F A) (t : Turn F A (Option Error))
      → Shut q (left_by t)
      → Shut q (left_by (then_close t))
  unfolding then_close
  then_close-Shut q (done none p) s = close-Shut q p s
  then_close-Shut q (done (some e) p) s = s
  then_close-Shut q (asleep p) s = s

  drain_turn-Shut :
      (q : Queue F A) (ctx : Option ContextError) (p : Queue F A)
      → Shut q p
      → Shut q (left_by (drain_turn ctx p))
  drain_turn-Shut q ctx p s =
      subst (Shut q) (sym (drain_turn_shut ctx p s.is_closed)) (fewer-Shut q p (p.drainers - 1) s)

  Step-Shut : (z : A) (q : Queue F A) {p p' : Queue F A} → Step z p p' → Shut q p → Shut q p'
  Step-Shut z q (pushes p x) s = subst (Shut q) (sym (push_shut p x s.is_closed)) s
  Step-Shut z q (pops {q = p} {q' = p'} o e) s =
      subst (Shut q) (sym (pop_shut z p p' o s.is_closed e)) s
  Step-Shut z q (closes p) s = close-Shut q p s
  Step-Shut z q (wait_pushes ctx p x) s =
      subst (Shut q) (sym (wait_push_shut ctx p x s.is_closed)) s
  Step-Shut z q (wait_pops ctx {q = p} t e same) s =
      subst (Shut q) (sym (wait_pop_shut z ctx p t s.is_closed e) ∙ same) s
  Step-Shut z q (drains ctx p) s = subst (Shut q) (sym (drain_shut ctx p s.is_closed)) s
  Step-Shut z q (drain_resumes ctx p l) s = drain_turn-Shut q ctx p s
  Step-Shut z q (shutdowns ctx p) s = subst (Shut q) (sym (shutdown_shut ctx p s.is_closed)) s
  Step-Shut z q (shutdown_resumes ctx p l) s =
      then_close-Shut q (drain_turn ctx p) (drain_turn-Shut q ctx p s)
  Step-Shut z q (iterates ctx p cursor) s =
      subst (Shut q) (sym (ap left_by (iterate_shut ctx p cursor s.is_closed))) s
  Step-Shut z q (cancel_wakes_empty p) s = ground (arith, s)
  Step-Shut z q (cancel_wakes_updates p) s = ground (arith, s)

  Later-Shut : (z : A) (q : Queue F A) {p p' : Queue F A} → Later z p p' → Shut q p → Shut q p'
  Later-Shut z q now s = s
  Later-Shut z q (next l t) s = Step-Shut z q t (Later-Shut z q l s)

  closed-Shut : (q : Queue F A) → Shut q (close q)
  unfolding close
  closed-Shut q = ground arith

  -- After Close, whatever goroutines and contexts do, the queue stays closed, nobody sleeps on it, and
  -- its entries and its tracker stay as Close found them: nothing is added, and nothing is taken out. In
  -- each of those states WaitPop, Drain and Shutdown report the close, whatever the context says;
  -- WaitPush reports the close too, or that the queue is draining while a drain is outstanding.
  pub close_lem :
      (z : A) (q : Queue F A) {q' : Queue F A} (ctx : Option ContextError) (x : A)
      → Later z (close q) q'
      → Shut q q'
        × (wait_pop_turn z ctx q' ≡ ok (done (inl queue_closed) q'))
        × (drain ctx q' ≡ done (some queue_closed) q')
        × (shutdown ctx q' ≡ done (some queue_closed) q')
        × (wait_push_turn ctx q' x
            ≡ done (some (if ltb 0 q'.drainers then queue_draining else queue_closed)) q')
  close_lem z q {q'} ctx x l =
      let s = Later-Shut z q l (closed-Shut q) in
      let (pop_says, drain_says, shutdown_says, push_says) = closed_first z q' ctx x s.is_closed in
      (s, pop_says, drain_says, shutdown_says, push_says)
