-- ===== src/Dt/Ring/Walk.antt =====
-- The rounds of the loop in `iterate` of dt/ring.go, and where its steps lead.
use fun.Prelude.{
  ℕ, zero, suc, ◌-◌, ◌<◌, ◌≤◌, ◌≡◌, refl, true, false, List, [], ◌∷◌, some, if◌then◌else◌, ◌==◌,
  arith, length, get_or, drop,
}
use fun.Dt.Ring.{Ring, after, before, iterate}
use fun.Dt.Ring.Holds.{max_sound_size, ahead, after_lem, before_lem}

module _ {A : Type 0} where
  pub get_or-drop :
      (xs : List A) (i : ℕ) (z : A) → i < length xs → get_or xs i z ∷ drop (suc i) xs ≡ drop i xs
  get_or-drop [] i z h = absurd (omega (arith, h))
  get_or-drop (x ∷ xs) zero z h = refl
  get_or-drop (x ∷ xs) (suc i) z h = get_or-drop xs i z (omega (arith, h))

  pub drop_all : (xs : List A) → drop (length xs) xs ≡ []
  drop_all [] = refl
  drop_all (x ∷ xs) = drop_all xs

  -- A step of a walk: where it leads, by the distance from the position.
  pub after-ahead :
      (r : Ring A) (i : ℕ)
      → i < r.size
      → r.pos < r.size
      → r.size ≤ max_sound_size
      → (after r i < r.size)
        × (ahead r.size r.pos (after r i)
            ≡ (if suc (ahead r.size r.pos i) == r.size then 0 else suc (ahead r.size r.pos i)))
  after-ahead r i b w s = let step = after_lem r i b s in (ground arith, ground arith)

  pub before-ahead :
      (r : Ring A) (i : ℕ)
      → i < r.size
      → r.pos < r.size
      → r.size ≤ max_sound_size
      → (before r i < r.size)
        × (ahead r.size r.pos (before r i)
            ≡ (if ahead r.size r.pos i == 0 then r.size - 1 else ahead r.size r.pos i - 1))
  before-ahead r i b w s = let step = before_lem r i b s in (ground arith, ground arith)

  pub ahead_inj :
      (r : Ring A) (i j : ℕ)
      → i < r.size
      → j < r.size
      → r.pos < r.size
      → (i == j) ≡ (ahead r.size r.pos i == ahead r.size r.pos j)
  ahead_inj r i j b c w = ground arith

  -- A round at an empty slot, and at one with a value.
  pub round_empty :
      (fuel n : ℕ) (r : Ring A) (from i : ℕ) (advance : ℕ → ℕ) (vs : List A)
      → r.count ≡ suc n
      → i < r.size
      → r.nils i ≡ true
      → iterate fuel r from advance (advance i) false ≡ some vs
      → iterate (suc fuel) r from advance i (i == from) ≡ some vs
  unfolding iterate
  round_empty fuel n r from i advance vs c b e rest = ground arith

  pub round_full :
      (fuel n : ℕ) (r : Ring A) (from i : ℕ) (advance : ℕ → ℕ) (a : A) (vs : List A)
      → r.count ≡ suc n
      → i < r.size
      → (r.nils i ≡ false) × (r.ring i ≡ a)
      → iterate fuel r from advance (advance i) false ≡ some vs
      → iterate (suc fuel) r from advance i (i == from) ≡ some (a ∷ vs)
  unfolding iterate
  round_full fuel n r from i advance a vs c b e rest = ground arith

  -- Back at the start.
  pub round_end :
      (fuel : ℕ) (r : Ring A) (from i : ℕ) (advance : ℕ → ℕ)
      → (i == from) ≡ true
      → iterate (suc fuel) r from advance i false ≡ some []
  unfolding iterate
  round_end fuel r from i advance e = ground arith
