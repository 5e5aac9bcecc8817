-- ===== src/Strut/Replace/Tests.antt =====
-- `Replace` of strut/mut.go on small texts, with a search by hand for `bytes.Index`.
use fun.Prelude.{
  ℕ, suc, ◌≡◌, ◌∙◌, ◌≤◌, inl, inr, refl, ap, Bool, true, false, ◌&&◌, List, [], ◌∷◌, Option, none,
  some, length, take, drop, ◌==◌, if◌then◌else◌, arith, Bool-cases, Option-cases,
}
use fun.Prelude.Int.{ℤ, pos, negsuc}
use fun.Strut.Replace.{Mutable, replace}
use fun.Strut.Replace.Matches.{Finds, replaced_from}
use fun.Strut.Replace.Refine.{replace_lem}

same : List ℕ → List ℕ → Bool
same [] [] = true
same [] (y ∷ t) = false
same (x ∷ s) [] = false
same (x ∷ s) (y ∷ t) = x == y && same s t

same_lem : (s t : List ℕ) → same s t ≡ true → s ≡ t
unfolding same
same_lem [] [] h = refl
same_lem [] (y ∷ t) h = absurd (ground (arith, h))
same_lem (x ∷ s) [] h = absurd (ground (arith, h))
same_lem (x ∷ s) (y ∷ t) h =
    let e : x ≡ y = ground (arith, h) in
    let r : same s t ≡ true = ground (arith, h) in cc (e, same_lem s t r)

search : List ℕ → List ℕ → Option ℕ
unfolding same
search [] t = if same (take (length t) []) t then some 0 else none
search (x ∷ s) t =
    let rest = search s t in
    if same (take (length t) (x ∷ s)) t
    then some 0
    else elim rest [ none ↦ none | some i ↦ some (suc i) ]

-- The search finds what it says.
search_finds :
    (s t : List ℕ) (i : ℕ) → search s t ≡ some i → (i ≤ length s) × (take (length t) (drop i s) ≡ t)
unfolding search
search_finds [] t i e = elim (Bool-cases (same (take (length t) []) t)) [
  | inl y ↦
      let at : i ≡ 0 = ground (arith, e, y) in
      (
        omega (arith, at),
        ap (λ j. take (length t) (drop j [])) at ∙ same_lem (take (length t) []) t y,
      )
  | inr f ↦ absurd (ground (arith, e, f))
]
search_finds (x ∷ s) t i e = elim (Bool-cases (same (take (length t) (x ∷ s)) t)) [
  | inl y ↦
      let at : i ≡ 0 = ground (arith, e, y) in
      (
        omega (arith, at),
        ap (λ j. take (length t) (drop j (x ∷ s))) at ∙ same_lem (take (length t) (x ∷ s)) t y,
      )
  | inr f ↦ elim (Option-cases (search s t)) [
    | inl miss ↦ absurd (ground (arith, e, f, miss))
    | inr (j, hit) ↦
        let at : i ≡ suc j = ground (arith, e, f, hit) in
        let (h, k) = search_finds s t j hit in
        (omega (arith, h, at), ap (λ q. take (length t) (drop q (x ∷ s))) at ∙ k)
  ]
]

search-Finds : Finds search
search-Finds = record { found = search_finds }

by_hand : List ℕ → List ℕ → List ℕ → ℤ → List ℕ
by_hand s old new n = replaced_from search old new n (suc (length s)) 0 s

abbrev text : Mutable ℕ
text = record { bytes = 1 ∷ 7 ∷ 2 ∷ 7 ∷ 3 ∷ []; spare = 0 ∷ 0 ∷ 0 ∷ [] }

-- Two matches are moved apart in the same array, of which one element is left.
replace_run :
    replace search by_hand text (7 ∷ []) (8 ∷ 9 ∷ []) (negsuc 0)
    ≡ record { bytes = 1 ∷ 8 ∷ 9 ∷ 2 ∷ 8 ∷ 9 ∷ 3 ∷ []; spare = 0 ∷ [] }
unfolding search replace
replace_run = refl

-- No more than asked for are replaced.
replace_once_run :
    (replace search by_hand text (7 ∷ []) (8 ∷ []) (pos 1)).bytes ≡ 1 ∷ 8 ∷ 2 ∷ 7 ∷ 3 ∷ []
unfolding search replace
replace_once_run = refl

replace_lem_example :
    (replace search by_hand text (7 ∷ []) (8 ∷ 9 ∷ []) (negsuc 0)).bytes
    ≡ replaced_from search (7 ∷ []) (8 ∷ 9 ∷ []) (negsuc 0) 6 0 text.bytes
unfolding by_hand
replace_lem_example =
    replace_lem search search-Finds (7 ∷ []) (8 ∷ 9 ∷ []) (negsuc 0) (omega arith) text by_hand refl
