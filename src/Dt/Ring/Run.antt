-- ===== src/Dt/Ring/Run.antt =====
-- A ring of dt/ring.go is a queue of bounded length that drops its oldest value when it is full.
use fun.Prelude.{
  ℕ, ◌≤◌, ◌<◌, ◌≡◌, refl, true, false, List, [], ◌∷◌, Option, none, some, arith, length,
}
use fun.Dt.Ring.{Ring, inner_init, init, setup, write, push, pop, len, fifo}
use fun.Dt.Ring.Holds.{max_sound_size, Holds, pushed, push_lem}
use fun.Dt.Ring.Pop.{ring_pop_lem, pop_empty}
use fun.Dt.Ring.Iterate.{ring_iterators_lem}

pub data Call (A : Type 0) : Type 0 where
  push_call : A → Call A
  pop_call : Call A
  len_call : Call A
  fifo_call : Call A

pub data Answer (A : Type 0) : Type 0 where
  done : Answer A
  popped : Option A → Answer A
  counted : ℕ → Answer A
  listed : List A → Answer A

module _ {A : Type 0} where
  -- What the queue of bounded length answers, and its values after the call.
  abbrev pub model_call : ℕ → List A → Call A → Answer A × List A
  model_call size xs (push_call v) = (done, pushed size xs v)
  model_call size [] pop_call = (popped none, [])
  model_call size (x ∷ xs) pop_call = (popped (some x), xs)
  model_call size xs len_call = (counted (length xs), xs)
  model_call size xs fifo_call = (listed xs, xs)

  abbrev pub model_run : ℕ → List A → List (Call A) → List (Answer A)
  model_run size xs [] = []
  model_run size xs (c ∷ cs) = let r = model_call size xs c in r.0 ∷ model_run size r.1 cs

  -- A ring that nobody has used.
  abbrev pub unused : A → Ring A
  unused z = record {
    size = 0;
    count = 0;
    pos = 0;
    total = 0;
    ready = false;
    ring = λ i. z;
    nils = λ i. true;
  }

module _ {A : Type 0} (z : A) where
  unfoldable pub serve : Ring A → Call A → Option (Answer A × Ring A)
  unfolding push pop len fifo
  serve r (push_call v) = elim (push z r v) [ none ↦ none | some s ↦ some (done, s) ]
  serve r pop_call = elim (pop z r) [ none ↦ none | some q ↦ some (popped q.0, q.1) ]
  serve r len_call = some (counted (len r), r)
  serve r fifo_call = elim (fifo z r) [ none ↦ none | some xs ↦ some (listed xs, r) ]

  unfoldable pub run : Ring A → List (Call A) → Option (List (Answer A))
  unfolding serve
  run r [] = some []
  run r (c ∷ cs) = elim (serve r c) [
    | none ↦ none
    | some q ↦ elim (run q.1 cs) [ none ↦ none | some rest ↦ some (q.0 ∷ rest) ]
  ]

  serve_lem :
      (r : Ring A) (xs : List A) (c : Call A)
      → Holds z r xs
      → (r' : Ring A) × (serve r c ≡ some ((model_call r.size xs c).0, r'))
        × Holds z r' (model_call r.size xs c).1
        × (r'.size ≡ r.size)
  unfolding serve len write
  serve_lem r xs (push_call v) h =
      let p = push_lem z r xs v h in (write r v, ground (arith, p.0), p.1, refl)
  serve_lem r [] pop_call h = (r, ground (arith, pop_empty z r h), h, refl)
  serve_lem r (x ∷ xs) pop_call h =
      let (r', e, h', s, rest) = ring_pop_lem z r x xs h in (r', ground (arith, e), h', s)
  serve_lem r xs len_call h = (r, ground (arith, h.counts), h, refl)
  serve_lem r xs fifo_call h =
      let e = (ring_iterators_lem z r xs h).0 in (r, ground (arith, e), h, refl)

  run_lem :
      (r : Ring A) (xs : List A) (cs : List (Call A))
      → Holds z r xs
      → run r cs ≡ some (model_run r.size xs cs)
  unfolding run
  run_lem r xs [] h = refl
  run_lem r xs (c ∷ cs) h =
      let (r', e, h', s) = serve_lem r xs c h in
      let rest = run_lem r' (model_call r.size xs c).1 cs h' in ground (arith, e, rest, s)

  -- The ring that Setup makes of an unused one.
  unfoldable pub made : ℕ → Ring A
  made n = record (unused z) { size = n; ready = true }

  pub made-Holds : (n : ℕ) → 1 < n → n ≤ max_sound_size → Holds z (made n) []
  unfolding made
  made-Holds n l m = record {
    ready = refl;
    two = l;
    small = m;
    within = omega arith;
    counts = refl;
    fits = omega arith;
    not_wrapped = λ w. (omega arith, ground arith);
    empty = λ i b e. (refl, refl);
    full = λ i b e. absurd (ground arith);
  }

  -- A ring that Setup makes, of a size from 2 to 3037000499, where no product in offset wraps, answers whatever calls
  -- of Push, Pop, Len and FIFO a client makes as the queue does that holds as many values as the size says
  -- and drops its oldest when it is full. No call panics, and every loop ends.
  pub ring_run_refines :
      (n : ℕ) (cs : List (Call A))
      → 1 < n
      → n ≤ max_sound_size
      → (r : Ring A) × (setup z (unused z) n ≡ some r) × (run r cs ≡ some (model_run n [] cs))
  unfolding setup init inner_init made
  ring_run_refines n cs l m = (made n, ground (arith), run_lem (made n) [] cs (made-Holds n l m))
