-- ===== src/Dt/List/Runs.antt =====
-- Runs of the list on a memory of a few elements.
use fun.Prelude.{ℕ, ◌≡◌, refl, true, false, some, [], ◌∷◌, ltb}
use fun.Dt.List.{Memory, ◌>>=◌, push_back, front, back, swap, is_sorted, iterator_front, nil}

abbrev empty : Memory ℕ
empty = record {
  elements = λ p. record { next = nil; prev = nil; list = nil; ok = false; item = 0 };
  lists = λ l. record { head = nil; meta = nil };
  lengths = λ k. 0;
  fresh = 2;
}

-- After a swap of its two elements the list has one that its iterator meets.
swap_run :
    (do
      m ← push_back 0 empty 1 7
      m ← push_back 0 m 1 8
      (a, m) ← front 0 m 1
      (b, m) ← back 0 m 1
      (done, m) ← swap m a b
      iterator_front 0 10 m 1)
    ≡ some (8 ∷ [])
unfolding push_back front back swap iterator_front
swap_run = refl

sorted_run :
    (do
      m ← push_back 0 empty 1 1
      m ← push_back 0 m 1 2
      m ← push_back 0 m 1 0
      is_sorted 0 ltb m 1)
    ≡ some true
unfolding push_back is_sorted
sorted_run = refl
