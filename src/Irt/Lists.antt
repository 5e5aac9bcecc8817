-- ===== src/Irt/Lists.antt =====
-- What the combinators of irt/irt.go make of the values of a sequence, as functions on lists.
use fun.Prelude.{
  ℕ, ◌+◌, ◌≡◌, ◌↔◌, Bool, true, false, ◌||◌, List, [], ◌∷◌, ◌++◌, map, if◌then◌else◌, Option, none,
  some,
}

module _ {ℓ} {A : Type ℓ} where
  -- The values that pass the test, and those before the first that does not.
  unfoldable pub kept : (A → Bool) → List A → List A
  kept p [] = []
  kept p (x ∷ xs) = if p x then x ∷ kept p xs else kept p xs

  unfoldable pub prefix : (A → Bool) → List A → List A
  prefix p [] = []
  prefix p (x ∷ xs) = if p x then x ∷ prefix p xs else []

  -- The values with their positions.
  unfoldable pub indexed : ℕ → List A → List (ℕ × A)
  indexed n [] = []
  indexed n (x ∷ xs) = (n, x) ∷ indexed (n + 1) xs

  -- A value through the functions that are there, in turn.
  unfoldable pub thread_all : List (Option (A → A)) → A → A
  thread_all [] x = x
  thread_all (none ∷ fs) x = thread_all fs x
  thread_all (some f ∷ fs) x = thread_all fs (f x)

  unfoldable pub concat : List (List A) → List A
  concat [] = []
  concat (xs ∷ xss) = xs ++ concat xss

  unfoldable pub last_of : List A → Option A → Option A
  last_of [] o = o
  last_of (x ∷ xs) o = last_of xs (some x)

  unfoldable pub head_of : List A → Option A
  head_of [] = none
  head_of (x ∷ xs) = some x

-- Each value of each list with its key.
unfoldable pub spread {ℓ κ μ} :
    {A : Type ℓ} {B : Type κ} {C : Type μ} → (A → B → C) → List (A × List B) → List C
spread f [] = []
spread f ((a, bs) ∷ ps) = map (f a) bs ++ spread f ps

-- A fold from the left.
unfoldable pub fold_left {ℓ κ} : {A : Type ℓ} {B : Type κ} → (B → A → B) → B → List A → B
fold_left f b [] = b
fold_left f b (x ∷ xs) = fold_left f (f b x) xs

-- The world after a function was called with each value in turn.
unfoldable pub each {ℓ} : {A : Type ℓ} {W : Type 0} → (A → W → W) → List A → W → W
each op [] w = w
each op (x ∷ xs) w = each op xs (op x w)

-- Whether some value passes the test.
unfoldable pub some_pass {ℓ} : {A : Type ℓ} → (A → Bool) → List A → Bool
some_pass p [] = false
some_pass p (x ∷ xs) = p x || some_pass p xs

-- Calls in turn up to the first that gives an error: that error, and the world after it.
unfoldable pub first_error {ℓ} :
    {A : Type ℓ} {W E : Type 0} → (A → W → Option E × W) → List A → W → Option E × W
first_error op [] w = (none, w)
first_error op (x ∷ xs) w =
    let r = op x w in
    let rest = first_error op xs r.1 in elim r.0 [ none ↦ rest | some e ↦ (some e, r.1) ]

-- Calls in turn up to the first that says no: how many there were, and the world after them.
unfoldable pub first_no {ℓ} : {A : Type ℓ} {W : Type 0} → (A → W → Bool × W) → List A → W → ℕ × W
first_no op [] w = (0, w)
first_no op (x ∷ xs) w =
    let r = op x w in
    let rest = first_no op xs r.1 in if r.0 then (rest.0 + 1, rest.1) else (1, r.1)

-- Equality of a comparable type.
pub record Comparable (A : Type 0) : Type 0 where
  pub eq : A → A → Bool
  pub eq_iff : (a b : A) → (eq a b ≡ true) ↔ (a ≡ b)

module _ {A K : Type 0} (c : Comparable K) where
  -- The values whose key is neither among these nor that of an earlier value.
  unfoldable pub uniques : (A → K) → List K → List A → List A
  uniques key seen [] = []
  uniques key seen (x ∷ xs) =
      if some_pass (c.eq (key x)) seen
      then uniques key seen xs
      else x ∷ uniques key (key x ∷ seen) xs
