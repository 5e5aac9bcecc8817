-- ===== src/Dt/Ring/Pop.antt =====
-- Pop of dt/ring.go on a ring that holds some values.
use fun.Prelude.{
  ℕ, zero, suc, ◌==◌, if◌then◌else◌, ◌+◌, ◌-◌, ◌<◌, ◌≡◌, refl, true, ap, ◌∙◌, List, [], ◌∷◌, Option,
  none, some, arith, length,
}
use fun.Dt.Ring.{Ring, head, index, after, oldest, init, take_at, pop_from, pop}
use fun.Dt.Ring.Holds.{Holds, ahead, oldest-Holds}
use fun.Dt.Ring.Walk.{after-ahead}

module _ {A : Type 0} (z : A) where
  no_wrap :
      (a d l size : ℕ) → a + suc d + suc l ≡ size → (if suc a == size then 0 else suc a) ≡ suc a
  no_wrap a d l size e = ground (arith, e)

  pop_round :
      (fuel : ℕ) (r : Ring A) (n i : ℕ)
      → r.count ≡ suc n
      → i < r.size
      → r.nils i ≡ true
      → pop_from z (suc fuel) r i ≡ pop_from z fuel r (after r i)
  unfolding pop_from
  pop_round fuel r n i c b e = ground (arith, c, b, e)

  -- The index of the oldest value, so many steps ahead of this one.
  pop_scan :
      (fuel d : ℕ) (r : Ring A) (x : A) (xs : List A) (i : ℕ)
      → Holds z r (x ∷ xs)
      → i < r.size
      → ahead r.size r.pos i + d + suc (length xs) ≡ r.size
      → d < fuel
      → (k : ℕ) × (k < r.size)
        × (ahead r.size r.pos k + suc (length xs) ≡ r.size)
        × (pop_from z fuel r i ≡ some (some (take_at z r k).0, (take_at z r k).1))
  unfolding pop_from
  pop_scan zero d r x xs i h b e f = absurd (omega (arith, f))
  pop_scan (suc fuel) zero r x xs i h b e f =
      (i, b, omega (arith, e), ground (arith, h.full i, h.counts))
  pop_scan (suc fuel) (suc d) r x xs i h b e f =
      let step = after-ahead r i b h.within h.small in
      let (k, kb, ke, kp) =
        pop_scan fuel d r x xs (after r i) h step.0
          (omega (arith, step.1 ∙ no_wrap (ahead r.size r.pos i) d (length xs) r.size e, e))
          (omega arith) in
      (k, kb, ke, pop_round fuel r (length xs) i h.counts b (h.empty i b (omega (arith, e))).0 ∙ kp)

  take_at_lem :
      (r : Ring A) (x : A) (xs : List A) (k : ℕ)
      → Holds z r (x ∷ xs)
      → k < r.size
      → ahead r.size r.pos k + suc (length xs) ≡ r.size
      → ((take_at z r k).0 ≡ x) × Holds z (take_at z r k).1 xs
  unfolding take_at
  take_at_lem r x xs k h b e = (
    ground (arith, h.full k),
    record {
      ready = h.ready;
      two = h.two;
      small = h.small;
      within = h.within;
      counts = omega (arith, h.counts);
      fits = omega (arith, h.fits);
      not_wrapped = λ w. ground (arith, h.not_wrapped w);
      empty = λ i ib ie. ground (arith, h.empty i, h.full i, h.within);
      full = λ i ib ie. ground (arith, h.full i, h.within);
    },
  )

  popped_at :
      (r : Ring A) (x : A) (xs : List A)
      → Holds z r (x ∷ xs)
      → (k : ℕ) × (k < r.size)
        × (ahead r.size r.pos k + suc (length xs) ≡ r.size)
        × (pop z r ≡ some (some (take_at z r k).0, (take_at z r k).1))
  unfolding pop init
  popped_at r x xs h =
      let o = oldest-Holds z r (x ∷ xs) h in
      let d = r.size - (ahead r.size r.pos (oldest r) + suc (length xs)) in
      let (k, kb, ke, kp) =
        pop_scan (suc r.size) d r x xs (oldest r) h o.0 (omega (arith, o.1)) (omega arith) in
      (k, kb, ke, ground (arith, h.ready, kp))

  -- Pop takes out the oldest value. After it Head gives the zero value, whatever the ring still holds.
  pub ring_pop_lem :
      (r : Ring A) (x : A) (xs : List A)
      → Holds z r (x ∷ xs)
      → (r' : Ring A) × (pop z r ≡ some (some x, r'))
        × Holds z r' xs
        × (r'.size ≡ r.size)
        × (head z r' ≡ some z)
  unfolding head init index take_at oldest
  ring_pop_lem r x xs h =
      let (k, kb, ke, kp) = popped_at r x xs h in
      let (value, after_it) = take_at_lem r x xs k h kb ke in
      let r' = (take_at z r k).1 in
      let o = oldest-Holds z r (x ∷ xs) h in
      (
        r',
        kp ∙ ap (λ (a : A). let t : Option (Option A × Ring A) = some (some a, r') in t) value,
        after_it,
        refl,
        ground (arith, after_it.ready, after_it.empty (oldest r') o.0 (omega (arith, o.1)), o.0),
      )

  pub pop_empty : (r : Ring A) → Holds z r [] → pop z r ≡ some (none, r)
  unfolding pop init pop_from
  pop_empty r h = ground (arith, h.ready, h.counts)
