-- ===== src/Dt/Ring/Tests.antt =====
-- The theorems about rings at concrete inputs.
use fun.Prelude.{ℕ, zero, suc, ◌≡◌, List, [], ◌∷◌, some, arith}
use mathlib.Core.List.{reverse}
use fun.Dt.Ring.{Ring, setup, write, pop, fifo, lifo, head}
use fun.Dt.Ring.Holds.{Holds, push_lem}
use fun.Dt.Ring.Pop.{ring_pop_lem}
use fun.Dt.Ring.Iterate.{ring_iterators_lem}
use fun.Dt.Ring.Run.{
  Call, push_call, pop_call, len_call, fifo_call, unused, made, made-Holds, run, model_run,
  ring_run_refines,
}

-- A ring of two slots after three pushes, the last of which overwrote the first.
abbrev wrapped : Ring ℕ
wrapped = write (write (write (made 0 2) 5) 7) 9

wrapped-Holds : Holds 0 wrapped (7 ∷ 9 ∷ [])
unfolding write made
wrapped-Holds =
    let one = push_lem 0 (made 0 2) [] 5 (made-Holds 0 2 (omega arith) (omega arith)) in
    let two = push_lem 0 (write (made 0 2) 5) (5 ∷ []) 7 one.1 in
    (push_lem 0 (write (write (made 0 2) 5) 7) (5 ∷ 7 ∷ []) 9 two.1).1

ring_iterators_lem_run :
    (fifo 0 wrapped ≡ some (7 ∷ 9 ∷ [])) × (lifo 0 wrapped ≡ some (reverse (7 ∷ 9 ∷ [])))
ring_iterators_lem_run = ring_iterators_lem 0 wrapped (7 ∷ 9 ∷ []) wrapped-Holds

ring_pop_lem_example :
    (r' : Ring ℕ) × (pop 0 wrapped ≡ some (some 7, r'))
    × Holds 0 r' (9 ∷ [])
    × (r'.size ≡ wrapped.size)
    × (head 0 r' ≡ some 0)
ring_pop_lem_example = ring_pop_lem 0 wrapped 7 (9 ∷ []) wrapped-Holds

abbrev calls : List (Call ℕ)
calls = push_call 5 ∷ push_call 7 ∷ push_call 9 ∷ fifo_call ∷ pop_call ∷ len_call ∷ []

ring_run_refines_example :
    (r : Ring ℕ) × (setup 0 (unused 0) 2 ≡ some r) × (run 0 r calls ≡ some (model_run 2 [] calls))
ring_run_refines_example = ring_run_refines 0 2 calls (omega arith) (omega arith)

-- So many times the same value.
copies : ℕ → ℕ → List ℕ
copies zero v = []
copies (suc n) v = v ∷ copies n v
