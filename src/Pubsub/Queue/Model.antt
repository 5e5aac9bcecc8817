-- ===== src/Pubsub/Queue/Model.antt =====
-- What a Queue promises to a client that never blocks: a FIFO list behind a limit tracker.
use fun.Prelude.{ℕ, Bool, true, Option, none, some, List, [], ◌∷◌, ◌++◌, ltb, if◌then◌else◌}
use fun.Pubsub.Errors.{Error, queue_closed, queue_draining}
use fun.Pubsub.Tracker.{Floats, Tracker, len, add, remove}

pub record Model (F : Floats) (A : Type 0) : Type 0 where
  pub limits : Tracker F
  pub drains : ℕ
  pub is_closed : Bool
  pub content : List A

-- The calls of a client, and what each returns.
pub data Call (A : Type 0) : Type 0 where
  push_call : A → Call A
  pop_call close_call len_call iterate_call : Call A

pub data Reply (A : Type 0) : Type 0 where
  pushed : Option Error → Reply A
  popped_item : Option A → Reply A
  closed_ok : Reply A
  size : ℕ → Reply A
  listed : List A → Reply A

module _ {F : Floats} {A : Type 0} where
  -- Why a push is refused, if it is.
  unfoldable pub refusal : Model F A → Option Error
  refusal m =
      if ltb 0 m.drains
      then some queue_draining
      else if m.is_closed
      then some queue_closed
      else (add m.limits).0

  unfoldable pub push_model : Model F A → A → Option Error × Model F A
  unfolding refusal
  push_model m x = elim (refusal m) [
    | some e ↦ (some e, m)
    | none ↦ (none, record m { limits = (add m.limits).1; content = m.content ++ (x ∷ []) })
  ]

  unfoldable pub pop_model : Model F A → Option A × Model F A
  pop_model m = if m.is_closed then (none, m) else elim m.content [
    | [] ↦ (none, m)
    | x ∷ xs ↦ (some x, record m { limits = remove m.limits; content = xs })
  ]

  unfoldable pub model_step : Model F A → Call A → Reply A × Model F A
  unfolding push_model pop_model
  model_step m (push_call x) = let (e, m') = push_model m x in (pushed e, m')
  model_step m pop_call = let (o, m') = pop_model m in (popped_item o, m')
  model_step m close_call = (closed_ok, record m { is_closed = true })
  model_step m len_call = (size (len m.limits), m)
  model_step m iterate_call = (listed (if m.is_closed then [] else m.content), m)

  unfoldable pub model_run : Model F A → List (Call A) → List (Reply A)
  unfolding model_step
  model_run m [] = []
  model_run m (c ∷ cs) = let (r, m') = model_step m c in r ∷ model_run m' cs
