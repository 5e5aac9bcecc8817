-- ===== src/Dt/Heap/Sort.antt =====
-- Push and Pop of dt/heap.go on a heap that holds some values, and a client that sorts by them.
use fun.Prelude.{
  ℕ, zero, suc, ◌+◌, ◌≡◌, refl, ap, ◌∙◌, Bool, true, List, [], ◌∷◌, Option, some, arith, length,
}
use fun.Links.{Ptr}
use fun.Dt.List.{Memory, pop_front, ◌>>=◌}
use fun.Dt.List.Push.{Contains}
use fun.Dt.List.Remove.{Popped, pop_front_lem}
use fun.Dt.Heap.{Heap, list, heap_push, heap_pop, value_ok}
use fun.Dt.Heap.Push.{placed, push_list_lem}
use fun.Dt.Heap.Order.{Ordering, Sorted, passing, placed-Sorted, passing-placed, passing_all}

-- A heap with this comparison and this list.
abbrev pub heap_of : {A : Type 0} → (A → A → Bool) → Ptr → Heap A
heap_of less l = record { less = some less; items = l }

module _ {A : Type 0} (z : A) (less : A → A → Bool) where
  list_eq :
      (m : Memory A) (l : Ptr) (xs : List A)
      → Contains m l xs
      → list m (heap_of less l) ≡ some (heap_of less l, m)
  unfolding list
  list_eq m l xs c = ground (arith, c.is_list.list_not_nil)

  -- Push puts the value behind the last one that is not greater, with no nil dereference and within the
  -- fuel of one round more than there are values; a sorted heap is sorted after it.
  pub heap_push_lem :
      (m : Memory A) (l : Ptr) (xs : List A) (t : A)
      → Contains m l xs
      → (m' : Memory A) × (heap_push z m (heap_of less l) t ≡ some (heap_of less l, m'))
        × Contains m' l (placed less t xs)
        × (Ordering less → Sorted less xs → Sorted less (placed less t xs))
  unfolding heap_push
  heap_push_lem m l xs t c =
      let (m', e, d) = push_list_lem z less t m l xs c in
      (m', ground (arith, list_eq m l xs c, e), d, λ o s. placed-Sorted less o t xs s)

  value_ok-Popped :
      (m : Memory A) (l : Ptr) (x : A) (xs : List A) (answer : Option (Ptr × Memory A))
      (p : Popped m l x xs answer)
      → value_ok p.left p.element ≡ some x
  unfolding value_ok
  value_ok-Popped m l x xs answer p = ground (arith, p.not_nil, p.still_ok, p.unlisted, p.item_is)

  -- Pop takes out the first value, with no nil dereference.
  pub heap_pop_lem :
      (m : Memory A) (l : Ptr) (x : A) (xs : List A)
      → Contains m l (x ∷ xs)
      → (m' : Memory A) × (heap_pop z m (heap_of less l) ≡ some (some x, heap_of less l, m'))
        × Contains m' l xs
  unfolding heap_pop
  heap_pop_lem m l x xs c =
      let p = pop_front_lem z m l x xs c in
      let v = value_ok-Popped m l x xs (pop_front z m l) p in
      (p.left, ground (arith, list_eq m l (x ∷ xs) c, p.answered, v), p.contains)

  -- A client that pushes these values, and one that pops so many; `none` too when a pop gives none.
  unfoldable pub push_each : Memory A → Heap A → List A → Option (Heap A × Memory A)
  push_each m h [] = some (h, m)
  push_each m h (t ∷ ts) = heap_push z m h t >>= (λ s. push_each s.1 s.0 ts)

  unfoldable pub pop_each : ℕ → Memory A → Heap A → Option (List A)
  pop_each zero m h = some []
  pop_each (suc n) m h =
      heap_pop z m h >>= (λ s. s.0 >>= (λ x. pop_each n s.2 s.1 >>= (λ xs. some (x ∷ xs))))

  push_each_lem :
      (m : Memory A) (l : Ptr) (xs ts : List A)
      → Contains m l xs
      → Sorted less xs
      → Ordering less
      → (m' : Memory A) × (ys : List A) × (push_each m (heap_of less l) ts
          ≡ some (heap_of less l, m'))
        × Contains m' l ys
        × Sorted less ys
        × ((p : A → Bool) → passing p ys ≡ passing p xs + passing p ts)
  unfolding push_each passing
  push_each_lem m l xs [] c s o = (m, xs, refl, c, s, λ p. ground arith)
  push_each_lem m l xs (t ∷ ts) c s o =
      let (m1, e, d, keeps) = heap_push_lem m l xs t c in
      let (m', ys, e', c', s', n) = push_each_lem m1 l (placed less t xs) ts d (keeps o s) o in
      (m', ys, ground (arith, e, e'), c', s', λ p. ground (arith, n p, passing-placed less p t xs))

  pop_each_lem :
      (m : Memory A) (l : Ptr) (xs : List A)
      → Contains m l xs
      → pop_each (length xs) m (heap_of less l) ≡ some xs
  unfolding pop_each
  pop_each_lem m l [] c = refl
  pop_each_lem m l (x ∷ xs) c =
      let (m', e, d) = heap_pop_lem m l x xs c in ground (arith, e, pop_each_lem m' l xs d)

  -- Values that are pushed into an empty heap with an ordering come out sorted when as many are popped,
  -- and none is lost or made up: as many of them pass any test as of those that went in.
  pub heap_sort_lem :
      (m : Memory A) (l : Ptr) (ts : List A)
      → Contains m l []
      → Ordering less
      → (zs : List A) × (push_each m (heap_of less l) ts >>= (λ s. pop_each (length ts) s.1 s.0)
          ≡ some zs)
        × Sorted less zs
        × ((p : A → Bool) → passing p zs ≡ passing p ts)
  unfolding passing
  heap_sort_lem m l ts c o =
      let (m', ys, e, d, s, n) = push_each_lem m l [] ts c tt o in
      let same : length ts ≡ length ys =
        omega (arith, n (λ x. true), passing_all ts, passing_all ys) in
      (
        ys,
        rw e (ap (λ k. pop_each k m' (heap_of less l)) same ∙ pop_each_lem m' l ys d),
        s,
        (λ p. omega (arith, n p)),
      )
