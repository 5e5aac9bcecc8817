-- ===== src/Dt/Ring.antt =====
-- dt/ring.go: a ring buffer. The two slices of a ring are functions of the index, and an index that is not
-- below their length is a panic, `none`. A pointer in `nils` is only compared with nil. A position is an int,
-- whose arithmetic wraps: it stands here as its 64-bit word, of which those from 2 ^ 63 on are negative and
-- out of range of any slice. The size and the total are natural numbers.
pub mod Holds
pub mod Iterate
pub mod Pop
pub mod Overflow
pub mod Run
mod Tests
mod Walk
use fun.Prelude.{
  ℕ, zero, suc, ◌+◌, ◌-◌, ◌*◌, ◌%◌, ◌^◌, Bool, true, false, List, [], ◌∷◌, Option, none, some,
  if◌then◌else◌, ltb, ◌==◌,
}
use Prim.Native.Nat.{max}

-- `Ring`; `ready` tells that the slices are made, with `size` as their length.
pub record Ring (A : Type 0) : Type 0 where
  pub size : ℕ
  pub count : ℕ
  pub pos : ℕ
  pub total : ℕ
  pub ready : Bool
  pub ring : ℕ → A
  pub nils : ℕ → Bool

-- An assignment to an index of a slice.
abbrev pub put : {A : Type 0} → (ℕ → A) → ℕ → A → ℕ → A
put f i a j = if j == i then a else f j

abbrev pub max_ring_size : ℕ
max_ring_size = 4294967296

abbrev pub default_ring_size : ℕ
default_ring_size = 1024

-- -1 as a word, the bound from which a word is negative, and `stw.Abs`.
abbrev pub minus_one : ℕ
minus_one = 2 ^ 64 - 1

abbrev pub negative : ℕ
negative = 2 ^ 63

abbrev pub abs : ℕ → ℕ
abs w = if ltb w negative then w else 2 ^ 64 - w

-- `offset`, which wraps.
unfoldable pub offset : ℕ → ℕ → ℕ → ℕ
offset size idx by = (size * max 1 (abs idx) + (idx + by)) % 2 ^ 64

-- Go's `%` by a size: the remainder of a negative int is negative, or 0.
unfoldable pub rem_word : ℕ → ℕ → ℕ
rem_word w size =
    if ltb w negative
    then w % size
    else (let m = (2 ^ 64 - w) % size in if m == 0 then 0 else 2 ^ 64 - m)

module _ {A : Type 0} where
  -- `hasWrapped`
  unfoldable pub has_wrapped : Ring A → Bool
  has_wrapped r = ltb r.size r.total

  -- `after` and `before`
  unfoldable pub after : Ring A → ℕ → ℕ
  unfolding offset rem_word
  after r idx = rem_word (offset r.size idx 1) r.size

  unfoldable pub before : Ring A → ℕ → ℕ
  unfolding offset rem_word
  before r idx = rem_word (offset r.size idx minus_one) r.size

  -- `oldest`
  unfoldable pub oldest : Ring A → ℕ
  unfolding has_wrapped
  oldest r = if has_wrapped r then r.pos else 0

  -- `ring[idx]`
  unfoldable pub index : Ring A → ℕ → Option A
  index r idx = if ltb idx r.size then some (r.ring idx) else none

  -- What `Push` assigns, when the slices are made.
  unfoldable pub write : Ring A → A → Ring A
  unfolding after
  write r val = record r {
    total = r.total + 1;
    count = if ltb r.count r.size then r.count + 1 else r.count;
    ring = put r.ring r.pos val;
    nils = put r.nils r.pos false;
    pos = after r r.pos;
  }

module _ {A : Type 0} (zero_value : A) where
  -- `innerInit`, with `none` for a violated invariant.
  unfoldable pub inner_init : Ring A → Option (Ring A)
  inner_init r =
      let size = if r.size == 0 then default_ring_size else r.size in
      if ltb max_ring_size size
      then none
      else if ltb size 2
      then none
      else some (record r { size = size; ready = true; ring = λ i. zero_value; nils = λ i. true })

  -- `init`
  unfoldable pub init : Ring A → Option (Ring A)
  unfolding inner_init
  init r = if r.ready then some r else inner_init r

  -- `Setup`
  unfoldable pub setup : Ring A → ℕ → Option (Ring A)
  unfolding init
  setup r size = init (if r.size == 0 then record r { size = size } else r)

  -- `Head` and `Tail`
  unfoldable pub head : Ring A → Option A
  unfolding init index oldest
  head r = elim (init r) [ none ↦ none | some s ↦ index s (oldest s) ]

  unfoldable pub tail : Ring A → Option A
  unfolding init index before
  tail r = elim (init r) [ none ↦ none | some s ↦ index s (before s s.pos) ]

  -- `Push`
  unfoldable pub push : Ring A → A → Option (Ring A)
  unfolding init write
  push r val = elim (init r) [
    | none ↦ none
    | some s ↦ if ltb s.pos s.size then some (write s val) else none
  ]

  -- `Pop` takes the value at this index.
  unfoldable pub take_at : Ring A → ℕ → A × Ring A
  take_at r idx = (
    r.ring idx,
    record r { ring = put r.ring idx zero_value; nils = put r.nils idx true; count = r.count - 1 },
  )

  -- The loop of `Pop`, with fuel for its rounds.
  unfoldable pub pop_from : ℕ → Ring A → ℕ → Option (Option A × Ring A)
  unfolding take_at after
  pop_from zero r idx = none
  pop_from (suc fuel) r idx =
      let rest = pop_from fuel r (after r idx) in
      if r.count == 0
      then some (none, r)
      else if ltb idx r.size
      then (if r.nils idx then rest else some (some (take_at r idx).0, (take_at r idx).1))
      else none

  -- `Pop`: no round is the second at its index.
  unfoldable pub pop : Ring A → Option (Option A × Ring A)
  unfolding init pop_from oldest
  pop r = elim (init r) [ none ↦ none | some s ↦ pop_from (suc s.size) s (oldest s) ]

module _ {A : Type 0} where
  -- `Len`, `Cap` and `Total`
  pub len : Ring A → ℕ
  len r = r.count

  pub cap : Ring A → ℕ
  cap r = r.size

  pub total_of : Ring A → ℕ
  total_of r = r.total

  -- The loop of the function that `iterate` returns, from its first round on: `first` is `count == 0`.
  unfoldable pub iterate : ℕ → Ring A → ℕ → (ℕ → ℕ) → ℕ → Bool → Option (List A)
  iterate zero r from advance next first = none
  iterate (suc fuel) r from advance next first =
      let rest = iterate fuel r from advance (advance next) false in
      if r.count == 0
      then some []
      else if (if first then false else next == from)
      then some []
      else if ltb next r.size
      then (if r.nils next
          then rest
          else elim rest [ none ↦ none | some vs ↦ some (r.ring next ∷ vs) ])
      else none

module _ {A : Type 0} (zero_value : A) where
  -- `FIFO` and `LIFO`, used once, and to the end.
  unfoldable pub fifo : Ring A → Option (List A)
  unfolding init iterate after oldest
  fifo r = elim (init zero_value r) [
    | none ↦ none
    | some s ↦ iterate (suc s.size) s (oldest s) (after s) (oldest s) true
  ]

  unfoldable pub lifo : Ring A → Option (List A)
  unfolding init iterate before
  lifo r = elim (init zero_value r) [
    | none ↦ none
    | some s ↦ iterate (suc s.size) s (before s s.pos) (before s) (before s s.pos) true
  ]
