-- ===== src/Dt/Ring/Overflow.antt =====
-- Where `offset` of dt/ring.go wraps: the sizes that innerInit allows go past what an int holds.
use fun.Prelude.{ℕ, ◌≡◌, true, List, [], ◌∷◌, Option, none, some}
use fun.Dt.Ring.{Ring, max_ring_size, push}

-- From this position on of a ring of the greatest size the product is too large.
abbrev pub half : ℕ
half = 2147483648

module _ {A : Type 0} (z : A) where
  -- `Push` of one value after the other
  unfoldable pub push_all : Ring A → List A → Option (Ring A)
  push_all r [] = some r
  push_all r (v ∷ vs) = elim (push z r v) [ none ↦ none | some s ↦ push_all s vs ]

  -- A ring of the greatest size, at this position.
  record At (r : Ring A) (k : ℕ) : Type 0 where
    is_ready : r.ready ≡ true
    greatest : r.size ≡ max_ring_size
    place : r.pos ≡ k
