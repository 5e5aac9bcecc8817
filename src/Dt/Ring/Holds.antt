-- ===== src/Dt/Ring/Holds.antt =====
-- When a ring of dt/ring.go holds some values, oldest first, and what its operations make of that.
use fun.Prelude.{
  ℕ, zero, suc, ◌+◌, ◌-◌, ◌*◌, ◌%◌, ◌^◌, ◌≤◌, ◌<◌, ◌≡◌, refl, ◌∙◌, true, false, List, [], ◌∷◌, ◌++◌,
  if◌then◌else◌, ltb, ◌==◌, arith, length, get_or, some, length-append, Bool-cases, inl, inr,
}
use Prim.Native.Nat.{max}
use native.Mathlib.Nat.{mul-add-mod_self_left, mul-le-mul, mod-eq_of_lt, mod_self}
use fun.Dt.Ring.{
  Ring, negative, minus_one, offset, rem_word, has_wrapped, after, before, oldest, init, write,
  push,
}

-- The greatest size at which no product in `offset` wraps.
abbrev pub max_sound_size : ℕ
max_sound_size = 3037000499

-- How many steps forward an index is from the position.
abbrev pub ahead : ℕ → ℕ → ℕ → ℕ
ahead size pos i = if ltb i pos then i + size - pos else i - pos

module _ {A : Type 0} (z : A) where
  -- The values take up the last slots, counted from the position, and the others are empty.
  pub record Holds (r : Ring A) (xs : List A) : Type 0 where
    pub ready : r.ready ≡ true
    pub two : 1 < r.size
    pub small : r.size ≤ max_sound_size
    pub within : r.pos < r.size
    pub counts : r.count ≡ length xs
    pub fits : length xs ≤ r.size
    pub not_wrapped :
        r.total < suc r.size
        → (length xs ≤ r.total) × (r.pos ≡ (if r.total == r.size then 0 else r.total))
    pub empty :
        (i : ℕ)
        → i < r.size
        → ahead r.size r.pos i + length xs < r.size
        → (r.nils i ≡ true) × (r.ring i ≡ z)
    pub full :
        (i : ℕ)
        → i < r.size
        → r.size ≤ ahead r.size r.pos i + length xs
        → (r.nils i ≡ false) × (r.ring i ≡ get_or xs (ahead r.size r.pos i + length xs - r.size) z)

-- Where no sum wraps, the remainder is that of the numbers.
offset_lem :
    (size i by n : ℕ)
    → i < size
    → size ≤ max_sound_size
    → n < negative
    → (size * max 1 i + (i + by)) % 2 ^ 64 ≡ n
    → rem_word (offset size i by) size ≡ n % size
unfolding offset rem_word
offset_lem size i by n h s l e =
    let positive : ltb i negative ≡ true = ground (arith, h, s) in
    let less : ltb n negative ≡ true = ground (arith, l) in rw positive (rw e (rw less refl))

wrap_back : (p i : ℕ) → p + i < 2 ^ 64 → (p + (suc i + minus_one)) % 2 ^ 64 ≡ p + i
wrap_back p i h = omega arith

product_lem :
    (size i : ℕ)
    → i < size
    → size ≤ max_sound_size
    → size * max 1 i ≤ max_sound_size * max_sound_size
product_lem size i h s = mul-le-mul {m₂ = max_sound_size} s (omega arith)

module _ {A : Type 0} where
  pub after_lem :
      (r : Ring A) (i : ℕ)
      → i < r.size
      → r.size ≤ max_sound_size
      → after r i ≡ (if i + 1 == r.size then 0 else i + 1)
  unfolding after
  after_lem r i h s =
      let product = product_lem r.size i h s in
      offset_lem r.size i 1 (r.size * max 1 i + (i + 1)) h s (omega arith)
        (mod-eq_of_lt (omega arith))
      ∙ mul-add-mod_self_left r.size (max 1 i) (i + 1)
      ∙ elim (Bool-cases (i + 1 == r.size)) [
        | inl e ↦
            let same : i + 1 ≡ r.size = ground arith in rw same (mod_self r.size ∙ ground arith)
        | inr n ↦ let less : i + 1 < r.size = ground arith in mod-eq_of_lt less ∙ ground arith
      ]

  pub before_lem :
      (r : Ring A) (i : ℕ)
      → i < r.size
      → r.size ≤ max_sound_size
      → before r i ≡ (if i == 0 then r.size - 1 else i - 1)
  unfolding before
  before_lem r zero h s =
      offset_lem r.size 0 minus_one (r.size - 1) h s (omega arith) (omega arith)
      ∙ mod-eq_of_lt (omega (arith, h))
  before_lem r (suc i) h s =
      let product = product_lem r.size (suc i) h s in
      offset_lem r.size (suc i) minus_one (r.size * max 1 (suc i) + i) h s (omega arith)
        (wrap_back (r.size * max 1 (suc i)) i (omega arith))
      ∙ mul-add-mod_self_left r.size (max 1 (suc i)) i
      ∙ mod-eq_of_lt (omega arith)
      ∙ ground arith

module _ {A : Type 0} where
  get_or-snoc :
      (xs : List A) (i : ℕ) (v z : A) → i < length xs → get_or (xs ++ (v ∷ [])) i z ≡ get_or xs i z
  get_or-snoc [] i v z h = absurd (omega (arith, h))
  get_or-snoc (x ∷ xs) zero v z h = refl
  get_or-snoc (x ∷ xs) (suc i) v z h = get_or-snoc xs i v z (omega (arith, h))

  get_or_last : (xs : List A) (v z : A) → get_or (xs ++ (v ∷ [])) (length xs) z ≡ v
  get_or_last [] v z = refl
  get_or_last (x ∷ xs) v z = get_or_last xs v z

-- A push into a full buffer of this size drops the oldest value.
abbrev pub pushed : {A : Type 0} → ℕ → List A → A → List A
pushed size [] v = v ∷ []
pushed size (x ∷ xs) v = if suc (length xs) == size then xs ++ (v ∷ []) else (x ∷ xs) ++ (v ∷ [])

module _ {A : Type 0} (z : A) where
  write_room :
      (r : Ring A) (xs : List A) (v : A)
      → Holds z r xs
      → length xs < r.size
      → Holds z (write r v) (xs ++ (v ∷ []))
  unfolding write
  write_room r xs v h l = record {
    ready = h.ready;
    two = h.two;
    small = h.small;
    within = ground (arith, after_lem r r.pos h.within h.small, h.within);
    counts = ground (arith, length-append xs (v ∷ []), h.counts);
    fits = omega (arith, length-append xs (v ∷ []));
    not_wrapped = λ w. ground (
      arith,
      length-append xs (v ∷ []),
      after_lem r r.pos h.within h.small,
      h.not_wrapped (omega (arith, w)),
    );
    empty = λ i b e.
        ground (arith, length-append xs (v ∷ []), after_lem r r.pos h.within h.small, h.empty i);
    full = λ i b e. ground (
      arith,
      length-append xs (v ∷ []),
      after_lem r r.pos h.within h.small,
      h.full i,
      get_or-snoc xs (ahead r.size r.pos i + length xs - r.size) v z,
      get_or_last xs v z,
    );
  }

  write_full :
      (r : Ring A) (x : A) (xs : List A) (v : A)
      → Holds z r (x ∷ xs)
      → suc (length xs) ≡ r.size
      → Holds z (write r v) (xs ++ (v ∷ []))
  unfolding write
  write_full r x xs v h l = record {
    ready = h.ready;
    two = h.two;
    small = h.small;
    within = ground (arith, after_lem r r.pos h.within h.small, h.within);
    counts = ground (arith, length-append xs (v ∷ []), h.counts);
    fits = omega (arith, length-append xs (v ∷ []));
    not_wrapped = λ w. ground (arith, h.not_wrapped (omega (arith, w)));
    empty = λ i b e. absurd (omega (arith, length-append xs (v ∷ []), e));
    full = λ i b e. ground (
      arith,
      length-append xs (v ∷ []),
      after_lem r r.pos h.within h.small,
      h.full i,
      get_or-snoc xs (ahead r.size r.pos i - 1) v z,
      get_or_last xs v z,
    );
  }

  -- Push drops the oldest value of a full ring, and never fails.
  pub push_lem :
      (r : Ring A) (xs : List A) (v : A)
      → Holds z r xs
      → (push z r v ≡ some (write r v)) × Holds z (write r v) (pushed r.size xs v)
  unfolding push init
  push_lem r [] v h =
      (ground (arith, h.ready, h.within), write_room r [] v h (omega (arith, h.two)))
  push_lem r (x ∷ xs) v h = (
    ground (arith, h.ready, h.within),
    elim (Bool-cases (suc (length xs) == r.size)) [
      | inl e ↦ rw e (write_full r x xs v h (ground arith))
      | inr n ↦ rw n (write_room r (x ∷ xs) v h (ground (arith, h.fits)))
    ],
  )

  -- The values begin where the walk of Pop begins, or after that.
  pub oldest-Holds :
      (r : Ring A) (xs : List A)
      → Holds z r xs
      → (oldest r < r.size) × (ahead r.size r.pos (oldest r) + length xs ≤ r.size)
  unfolding oldest has_wrapped
  oldest-Holds r xs h = elim (Bool-cases (ltb r.size r.total)) [
    | inl y ↦ ground (arith, h.within, h.fits)
    | inr n ↦ ground (arith, h.within, h.fits, h.two, h.not_wrapped (ground arith))
  ]
