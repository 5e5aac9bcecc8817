-- ===== src/Pubsub/Deque/Holds.antt =====
-- The representation of a deque of pubsub/deque.go: a ring of live elements round its root, counted by
-- its tracker, and what linking an element makes of it.
use fun.Prelude.{
  ◌+◌, ◌||◌, ◌⊎◌, ◌<◌, ◌≡◌, refl, sym, ap, true, false, List, [], ◌∷◌, ◌++◌, length, arith, ◌==◌,
  inl, inr, Bool-cases,
}
use mathlib.Core.Path.{subst}
use fun.Links.{
  Ptr, has, has_ne, Distinct, Chain, insert_after, Inserted, Chain-insert, next-has, last-has,
  has-insert_after, Distinct-insert_after, length-insert_after, insert_after_start,
  insert_after_last,
}
use fun.Pubsub.Tracker.{Floats, Tracker, len}
use fun.Pubsub.Tracker.Limits.{IsValid}
use fun.Pubsub.Deque.{Direction, dq_next, dq_prev, Deque, make_deque, insert, place, close}

-- The addresses and the items with one more at this end.
abbrev pub put_end {ℓ} : {B : Type ℓ} → Direction → B → List B → List B
put_end dq_next x xs = x ∷ xs
put_end dq_prev x xs = xs ++ (x ∷ [])

module _ {F : Floats} {A : Type 0} where
  abbrev pub next_of : Deque F A → Ptr → Ptr
  next_of q p = (q.cells p).next

  abbrev pub prev_of : Deque F A → Ptr → Ptr
  prev_of q p = (q.cells p).prev

  abbrev pub items : Deque F A → List Ptr → List A
  items q [] = []
  items q (p ∷ ps) = (q.cells p).item ∷ items q ps

  -- An element of a deque.
  pub record Live (q : Deque F A) (p : Ptr) : Type 0 where
    pub not_nil : 0 < p
    pub old : p < q.fresh
    pub no_root : (q.cells p).is_root ≡ false
    pub kept : (q.cells p).removed ≡ false

  -- The deque holds the elements at these addresses, front first, and its tracker counts them.
  pub record Holds (q : Deque F A) (ps : List Ptr) : Type 0 where
    pub chain : Chain (next_of q) (prev_of q) q.root ps q.root
    pub distinct : Distinct ps
    pub apart : has q.root ps ≡ false
    pub live : (p : Ptr) → has p ps ≡ true → Live q p
    pub root_not_nil : 0 < q.root
    pub root_old : q.root < q.fresh
    pub root_is : (q.cells q.root).is_root ≡ true
    pub root_kept : (q.cells q.root).removed ≡ false
    pub counted : len q.tracker ≡ length ps
    pub limits_ok : IsValid q.tracker

  pub make_deque-Holds : (z : A) (t : Tracker F) → len t ≡ 0 → IsValid t → Holds (make_deque z t) []
  unfolding make_deque
  make_deque-Holds z t e v = record {
    chain = (refl, refl);
    distinct = tt;
    apart = refl;
    live = λ p i. absurd (cc i);
    root_not_nil = omega arith;
    root_old = omega arith;
    root_is = refl;
    root_kept = refl;
    counted = e;
    limits_ok = v;
  }

  pub items-frame :
      (q q' : Deque F A) (ps : List Ptr)
      → ((p : Ptr) → has p ps ≡ true → (q'.cells p).item ≡ (q.cells p).item)
      → items q' ps ≡ items q ps
  items-frame q q' [] f = refl
  items-frame q q' (p ∷ ps) f = ground (arith, f p, items-frame q q' ps (λ x i. f x (ground arith)))

  pub items-append :
      (q : Deque F A) (ps qs : List Ptr) → items q (ps ++ qs) ≡ items q ps ++ items q qs
  items-append q [] qs = refl
  items-append q (p ∷ ps) qs = ap (λ r. (q.cells p).item ∷ r) (items-append q ps qs)

  place-has :
      (q : Deque F A) (side : Direction) (ps : List Ptr)
      → Holds q ps
      → has (place q side) (q.root ∷ ps) ≡ true
  place-has q dq_next ps h = ground arith
  place-has q dq_prev ps h = last-has (next_of q) (prev_of q) q.root ps q.root h.chain

  order :
      (q : Deque F A) (side : Direction) (ps : List Ptr)
      → Holds q ps
      → insert_after q.root ps (place q side) q.fresh ≡ put_end side q.fresh ps
  order q dq_next ps h = insert_after_start q.root ps q.fresh
  order q dq_prev ps h =
      insert_after_last (next_of q) (prev_of q) q.root ps q.root q.fresh h.chain h.distinct h.apart

  out : (q : Deque F A) (ps : List Ptr) → Holds q ps → has q.fresh (q.root ∷ ps) ≡ false
  out q ps h = elim (Bool-cases (has q.fresh (q.root ∷ ps))) [
    | inr n ↦ n
    | inl y ↦ absurd (ground (arith, h.live q.fresh, h.root_old))
  ]

  module _ (q : Deque F A) (x : A) (side : Direction) (t : Tracker F) (ps : List Ptr)
      (h : Holds q ps) where
    links :
        Inserted
          (next_of q)
          (prev_of q)
          (place q side)
          q.fresh
          (next_of (insert q x side t))
          (prev_of (insert q x side t))
    unfolding insert
    links =
        let here = place-has q side ps h in
        let away = out q ps h in
        let apart = has_ne (place q side) q.fresh (q.root ∷ ps) here away in
        let later = next-has (next_of q) (prev_of q) q.root ps q.root (place q side) h.chain here in
        let apart2 : (next_of q (place q side) == q.fresh) ≡ false =
          ground (arith, has_ne (next_of q (place q side)) q.fresh ps) in
        record {
          at_e = ground arith;
          at_v = ground arith;
          back_v = ground arith;
          back_next = ground arith;
          else_next = λ y i j. ground arith;
          else_prev = λ y i j. ground arith;
        }

    insert-Live : (p : Ptr) → has p ps ≡ true → Live (insert q x side t) p
    unfolding insert
    insert-Live p i =
        let known = h.live p i in
        record {
          not_nil = known.not_nil;
          old = omega (arith, known.old);
          no_root = ground (arith, known);
          kept = ground (arith, known);
        }

    new-Live : Live (insert q x side t) q.fresh
    unfolding insert
    new-Live =
        let here = place-has q side ps h in
        let apart = has_ne (place q side) q.fresh (q.root ∷ ps) here (out q ps h) in
        let later = next-has (next_of q) (prev_of q) q.root ps q.root (place q side) h.chain here in
        record {
          not_nil = omega (arith, h.root_old);
          old = omega arith;
          no_root = ground (arith, has_ne (next_of q (place q side)) q.fresh ps, out q ps h);
          kept = ground (arith, has_ne (next_of q (place q side)) q.fresh ps, out q ps h);
        }

    has_cases : (p : Ptr) → (has p ps || p == q.fresh) ≡ true → (has p ps ≡ true) ⊎ (q.fresh ≡ p)
    has_cases p i = ground arith

    pub insert-Holds :
        len t ≡ len q.tracker + 1
        → IsValid t
        → Holds (insert q x side t) (insert_after q.root ps (place q side) q.fresh)
    unfolding insert
    insert-Holds e v =
        let away = out q ps h in
        let j = has-insert_after q.root ps (place q side) q.fresh in
        record {
          chain =
              Chain-insert (next_of q) (prev_of q) (place q side) q.fresh
                (next_of (insert q x side t)) (prev_of (insert q x side t)) q.root ps q.root h.chain
                h.distinct h.apart h.apart (ground arith) (place-has q side ps h) links;
          distinct =
              Distinct-insert_after q.root ps (place q side) q.fresh h.distinct (ground arith);
          apart = ground (arith, has-insert_after q.root ps (place q side) q.fresh q.root, h.apart);
          live = λ p i. elim (has_cases p (ground (arith, j p))) [
            | inl k ↦ insert-Live p k
            | inr k ↦ subst (Live (insert q x side t)) k new-Live
          ];
          root_not_nil = h.root_not_nil;
          root_old = omega (arith, h.root_old);
          root_is = ground (arith, h.root_is);
          root_kept = ground (arith, h.root_kept);
          counted = omega (arith, h.counted, length-insert_after q.root ps (place q side) q.fresh);
          limits_ok = v;
        }

    inserted_at : put_end side q.fresh ps ≡ insert_after q.root ps (place q side) q.fresh
    inserted_at = sym (order q side ps h)

    -- The new element is at its end.
    pub put-Holds :
        len t ≡ len q.tracker + 1 → IsValid t → Holds (insert q x side t) (put_end side q.fresh ps)
    put-Holds e v = subst (Holds (insert q x side t)) (order q side ps h) (insert-Holds e v)

    old_items : items (insert q x side t) ps ≡ items q ps
    unfolding insert
    old_items =
        items-frame q (insert q x side t) ps
          (λ p i. ground (arith, has_ne p q.fresh ps, out q ps h))

    new_item : ((insert q x side t).cells q.fresh).item ≡ x
    unfolding insert
    new_item =
        let here = place-has q side ps h in
        let apart = has_ne (place q side) q.fresh (q.root ∷ ps) here (out q ps h) in
        let later = next-has (next_of q) (prev_of q) q.root ps q.root (place q side) h.chain here in
        ground (arith, has_ne (next_of q (place q side)) q.fresh ps, out q ps h)

  pub put-items :
      (q : Deque F A) (x : A) (side : Direction) (t : Tracker F) (ps : List Ptr)
      → Holds q ps
      → items (insert q x side t) (put_end side q.fresh ps) ≡ put_end side x (items q ps)
  put-items q x dq_next t ps h =
      ground (arith, old_items q x dq_next t ps h, new_item q x dq_next t ps h)
  put-items q x dq_prev t ps h = ground (
    arith,
    items-append (insert q x dq_prev t) ps (q.fresh ∷ []),
    old_items q x dq_prev t ps h,
    new_item q x dq_prev t ps h,
  )

  pub close-Holds : (q : Deque F A) (ps : List Ptr) → Holds q ps → Holds (close q) ps
  unfolding close
  close-Holds q ps h = ground arith

  pub close-items : (q : Deque F A) (ps : List Ptr) → items (close q) ps ≡ items q ps
  unfolding close
  close-items q ps = items-frame q (close q) ps (λ p i. refl)
