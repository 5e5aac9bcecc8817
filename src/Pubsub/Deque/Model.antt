-- ===== src/Pubsub/Deque/Model.antt =====
-- What a Deque promises to a client that never blocks: a list with two ends behind a limit tracker. Its
-- state, its replies and the reason for a refusal are those of the queue.
use fun.Prelude.{true, Option, none, some, List, [], ◌∷◌, ltb, ◌==◌, if◌then◌else◌}
use fun.Pubsub.Errors.{Error, queue_closed, queue_draining}
use fun.Pubsub.Tracker.{Floats, len, cap, add, remove}
use fun.Pubsub.Queue.Model.{Model, refusal, Reply, pushed, popped_item, closed_ok, size}
use fun.Pubsub.Deque.{Direction, dq_next, dq_prev}
use fun.Pubsub.Deque.Holds.{put_end}

-- The calls of a client; `dq_next` is the front and `dq_prev` the back.
pub data Call (A : Type 0) : Type 0 where
  push_call force_push_call : Direction → A → Call A
  pop_call : Direction → Call A
  close_call len_call : Call A

abbrev pub other : Direction → Direction
other dq_next = dq_prev
other dq_prev = dq_next

-- The last of a list and what is before it.
unfoldable pub split_last : {A : Type 0} → List A → Option (A × List A)
split_last [] = none
split_last (x ∷ xs) = elim (split_last xs) [ none ↦ some (x, []) | some (y, ys) ↦ some (y, x ∷ ys) ]

-- A list without the item at one end.
unfoldable pub take_end : {A : Type 0} → Direction → List A → Option (A × List A)
unfolding split_last
take_end dq_next [] = none
take_end dq_next (x ∷ xs) = some (x, xs)
take_end dq_prev xs = split_last xs

module _ {F : Floats} {A : Type 0} where
  unfoldable pub push_model : Model F A → Direction → A → Option Error × Model F A
  unfolding refusal
  push_model m side x = elim (refusal m) [
    | some e ↦ (some e, m)
    | none ↦ (none, record m { limits = (add m.limits).1; content = put_end side x m.content })
  ]

  unfoldable pub pop_model : Model F A → Direction → Option A × Model F A
  unfolding take_end
  pop_model m side = if m.is_closed then (none, m) else elim (take_end side m.content) [
    | none ↦ (none, m)
    | some (x, xs) ↦ (some x, record m { limits = remove m.limits; content = xs })
  ]

  -- An open model at its capacity first loses the item at the other end.
  unfoldable pub force_push_model : Model F A → Direction → A → Option Error × Model F A
  unfolding push_model pop_model
  force_push_model m side x =
      if ltb 0 m.drains
      then (some queue_draining, m)
      else if m.is_closed
      then (some queue_closed, m)
      else if cap m.limits == len m.limits
      then push_model (pop_model m (other side)).1 side x
      else push_model m side x

  unfoldable pub model_step : Model F A → Call A → Reply A × Model F A
  unfolding push_model pop_model force_push_model
  model_step m (push_call side x) = let (e, m') = push_model m side x in (pushed e, m')
  model_step m (force_push_call side x) = let (e, m') = force_push_model m side x in (pushed e, m')
  model_step m (pop_call side) = let (o, m') = pop_model m side in (popped_item o, m')
  model_step m close_call = (closed_ok, record m { is_closed = true })
  model_step m len_call = (size (len m.limits), m)

  unfoldable pub model_run : Model F A → List (Call A) → List (Reply A)
  unfolding model_step
  model_run m [] = []
  model_run m (c ∷ cs) = let (r, m') = model_step m c in r ∷ model_run m' cs
