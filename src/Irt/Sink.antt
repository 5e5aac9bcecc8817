-- ===== src/Irt/Sink.antt =====
-- Sink of irt/irt.go: a yield function that concurrent workers share. The mutex makes their calls one
-- sequence of calls, in whatever order. A yield that panics has no answer, and the panic is recovered.
use fun.Prelude.{
  ◌≡◌, refl, ap, Bool, true, false, not, List, [], ◌∷◌, if◌then◌else◌, Option, none, some,
}

-- A call of a yield function, with `none` for a panic.
abbrev pub Call : Type 0 → Type 0 → Type 0
Call S A = A → S → Option Bool × S

module _ {S A : Type 0} where
  -- The function that `Sink` returns; its state has the flag `done`.
  pub sink : Call S A → Call (S × Bool) A
  sink yield v t =
      let r = yield v t.0 in
      elim t.1 [
        | true ↦ (some false, t)
        | false ↦ elim r.0 [ none ↦ (none, (r.1, true)) | some ok ↦ (some ok, (r.1, not ok)) ]
      ]

  -- A loop that calls yield until it is told to stop or yield panics.
  unfoldable pub until_refused : Call S A → List A → S → S
  until_refused yield [] s = s
  until_refused yield (v ∷ vs) s =
      let r = yield v s in
      let rest = until_refused yield vs r.1 in
      elim r.0 [ none ↦ r.1 | some ok ↦ if ok then rest else r.1 ]

-- The calls of the workers in the order in which they get the mutex: their answers, and the state.
pub serve : {T A : Type 0} → Call T A → List A → T → List (Option Bool) × T
serve call [] t = ([], t)
serve call (v ∷ vs) t = let r = call v t in let rest = serve call vs r.1 in (r.0 ∷ rest.0, rest.1)

-- Each of these calls was refused.
abbrev pub AllRefused : List (Option Bool) → Type 0
AllRefused [] = Unit
AllRefused (r ∷ rs) = (r ≡ some false) × AllRefused rs

-- Behind the first call that was refused or panicked every call was refused.
abbrev pub RefusedAfter : List (Option Bool) → Type 0
RefusedAfter [] = Unit
RefusedAfter (some true ∷ rs) = RefusedAfter rs
RefusedAfter (some false ∷ rs) = AllRefused rs
RefusedAfter (none ∷ rs) = AllRefused rs

module _ {S A : Type 0} (yield : Call S A) where
  -- A sink that is done calls nobody any more.
  done-serve :
      (vs : List A) (s : S)
      → AllRefused (serve (sink yield) vs (s, true)).0
        × ((serve (sink yield) vs (s, true)).1 ≡ (s, true))
  unfolding serve sink
  done-serve [] s = (tt, refl)
  done-serve (v ∷ vs) s = let rest = done-serve vs s in ((refl, rest.0), rest.1)

  -- However many calls the workers make of a sink, and in whatever order, yield is called as by a loop
  -- that stops at its first refusal or panic, never again after it, and every later call is refused.
  pub sink_lem :
      (vs : List A) (s : S)
      → ((serve (sink yield) vs (s, false)).1.0 ≡ until_refused yield vs s)
        × RefusedAfter (serve (sink yield) vs (s, false)).0
  unfolding serve sink until_refused
  sink_lem [] s = (refl, tt)
  sink_lem (v ∷ vs) s = go (sink_lem vs (yield v s).1) (yield v s).0 refl
    where
      go :
          ((serve (sink yield) vs ((yield v s).1, false)).1.0
              ≡ until_refused yield vs (yield v s).1)
            × RefusedAfter (serve (sink yield) vs ((yield v s).1, false)).0
          → (o : Option Bool) → (yield v s).0 ≡ o
          → ((serve (sink yield) (v ∷ vs) (s, false)).1.0 ≡ until_refused yield (v ∷ vs) s)
            × RefusedAfter (serve (sink yield) (v ∷ vs) (s, false)).0
      go rest none e =
          let stop = done-serve vs (yield v s).1 in
          rw (sink, until_refused, e) (ap (λ (t : S × Bool). t.0) stop.1, stop.0)
      go rest (some false) e =
          let stop = done-serve vs (yield v s).1 in
          rw (sink, until_refused, e) (ap (λ (t : S × Bool). t.0) stop.1, stop.0)
      go rest (some true) e = rw (sink, until_refused, e) rest
