-- ===== src/Pubsub/Tracker.antt =====
-- pubsub/tracker.go and the options of pubsub/queue.go: the three limit trackers behind the
-- interface `queueLimitTracker`. The burst credit is a float64, whose arithmetic is a parameter.
-- `int` values are natural numbers: options are checked as signed integers first, and
-- Limits.antt shows that no subtraction of a tracker that is in use goes below zero.
pub mod Limits
use fun.Prelude.{
  ℕ, ◌+◌, ◌-◌, ◌/◌, ◌^◌, ◌⊎◌, inl, inr, Bool, ◌||◌, ◌&&◌, Option, none, some, ltb, leb, ◌==◌,
  if◌then◌else◌,
}
use fun.Prelude.Int.{ℤ, pos, pos_part, ltb_ℤ, leb_ℤ}
use fun.Pubsub.Errors.{Error, queue_full, queue_no_credit, hard_limit, burst_credit}

-- float64, as far as the trackers use it.
pub record Floats : Type 1 where
  pub Float : Type 0
  pub of_int : ℕ → Float
  pub add_float : Float → Float → Float
  pub sub_float : Float → Float → Float
  pub div_float : Float → Float → Float
  pub ltb_float : Float → Float → Bool
  pub eqb_float : Float → Float → Bool

module _ (F : Floats) where
  open F use {Float}

  -- `QueueOptions`
  pub record QueueOptions : Type 0 where
    pub hard_limit : ℤ
    pub soft_quota : ℤ
    pub burst_credit : Float

  -- `queueLimitTrackerImpl`
  pub record Quota : Type 0 where
    pub soft_quota : ℕ
    pub hard_limit : ℕ
    pub length : ℕ
    pub credit : Float

  -- The implementations of `queueLimitTracker`.
  pub data Tracker : Type 0 where
    no_limit : (length : ℕ) → Tracker
    hard : (capacity length : ℕ) → Tracker
    quota : Quota → Tracker

abbrev pub max_int : ℕ
max_int = 2 ^ 63 - 1

module _ {F : Floats} where
  open F use {Float, of_int, add_float, sub_float, div_float, ltb_float, eqb_float}

  -- `opts.Validate()`: an error, or the options with the defaults filled in.
  unfoldable pub validate : QueueOptions F → Error ⊎ QueueOptions F
  validate o =
      let quota = if leb_ℤ o.soft_quota (pos 0) then o.hard_limit else o.soft_quota in
      if leb_ℤ o.hard_limit (pos 0) || ltb_ℤ o.hard_limit o.soft_quota
      then inl hard_limit
      else if ltb_float o.burst_credit (of_int 0)
      then inl burst_credit
      else inr (record {
        hard_limit = o.hard_limit;
        soft_quota = quota;
        burst_credit =
            if eqb_float o.burst_credit (of_int 0) then of_int (pos_part quota) else o.burst_credit;
      })

  -- `newQueueLimitTracker`, for options that `validate` has passed: its integers are positive.
  unfoldable pub new_tracker : QueueOptions F → Tracker F
  new_tracker o = quota (record {
    soft_quota = pos_part o.soft_quota;
    hard_limit = pos_part o.hard_limit;
    length = 0;
    credit = o.burst_credit;
  })

  -- `len()`
  abbrev pub len : Tracker F → ℕ
  len (no_limit n) = n
  len (hard c n) = n
  len (quota t) = t.length

  -- `cap()`
  abbrev pub cap : Tracker F → ℕ
  cap (no_limit n) = max_int
  cap (hard c n) = c
  cap (quota t) = t.soft_quota

  add_quota : Quota F → Option Error × Quota F
  add_quota t =
      if leb t.soft_quota t.length
      then (if t.length == t.hard_limit
          then (some queue_full, t)
          else if ltb_float t.credit (of_int 1)
          then (some queue_no_credit, t)
          else (
            none,
            record t {
              credit = sub_float t.credit (of_int 1);
              soft_quota = t.length + 1;
              length = t.length + 1;
            },
          ))
      else (none, record t { length = t.length + 1 })

  -- `add()`: the error, if there is one, and the tracker afterwards.
  unfoldable pub add : Tracker F → Option Error × Tracker F
  unfolding add_quota
  add (no_limit n) = (none, no_limit (n + 1))
  add (hard c n) = if leb c n then (some queue_full, hard c n) else (none, hard c (n + 1))
  add (quota t) = let (e, t') = add_quota t in (e, quota t')

  -- The credit after an item has left, given the new quota and the new length.
  regain : Quota F → ℕ → ℕ → Float
  regain t soft n =
      let credit = add_float t.credit (div_float (of_int (soft - n)) (of_int soft)) in
      let len_cap = of_int (t.hard_limit - soft) in
      if ltb_float len_cap credit then len_cap else credit

  remove_quota : Quota F → Quota F
  unfolding regain
  remove_quota t =
      let n = t.length - 1 in
      let soft =
        if ltb 1 t.soft_quota && ltb n (t.soft_quota / 2) then t.soft_quota - 1 else t.soft_quota in
      if ltb n t.soft_quota
      then record t { length = n; soft_quota = soft; credit = regain t soft n }
      else record t { length = n }

  -- `remove()`
  unfoldable pub remove : Tracker F → Tracker F
  unfolding remove_quota
  remove (no_limit n) = if n == 0 then no_limit n else no_limit (n - 1)
  remove (hard c n) = if n == 0 then hard c n else hard c (n - 1)
  remove (quota t) = quota (remove_quota t)
