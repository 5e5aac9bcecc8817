-- ===== src/Irt/Tests.antt =====
-- The theorems about sequences at concrete inputs.
use fun.Prelude.{
  ℕ, ◌+◌, ◌≡◌, ◌↔◌, refl, Bool, true, false, List, [], ◌∷◌, ◌++◌, take, length, arith, Option, none,
  some, ltb, ◌==◌, ==_iff, if◌then◌else◌, ◌%◌,
}
use fun.Prelude.Int.{pos}
use fun.Irt.Lists.{
  Comparable, head_of, last_of, fold_left, some_pass, each, first_no, first_error, spread, uniques,
}
use fun.Irt.{Op, Seq, pure, slice, Denotes}
use fun.Irt.Filter.{limit, limit-Denotes}
use fun.Irt.Chain.{
  chain, no_inner, nil_inner, some_inner, chain-Denotes, flatten_slice, reverse_mapping,
  flatten_slice-Denotes,
}
use fun.Irt.Consume.{
  collect, collect_first_n, initial, final, apply, apply_while, apply_until, count, reduce,
  contains,
}
use fun.Irt.Results.{consume_lem, apply_lem}
use fun.Irt.Unique.{unique_by, unique_by_lem, DistinctKeys, has_key}
use fun.Irt.Generate.{generate, generate_n, limit-generate}
use fun.Irt.Group.{Grouping, group_by, iter, grouped}
use fun.Irt.Group.Groups.{group_by_lem}
use fun.Irt.Pull.{equal, equal_lem}
use fun.Irt.Pairs.{remove_errors, while_success, until_error, errors_lem}
use fun.Irt.Sink.{Call, sink, serve, until_refused, RefusedAfter, sink_lem}

abbrev numbers : Comparable ℕ
numbers = record { eq = λ a b. a == b; eq_iff = ==_iff }

abbrev three : List ℕ
three = 5 ∷ 7 ∷ 5 ∷ []

-- The three values in a world that counts.
abbrev values : Seq ℕ ℕ
values = slice three

abbrev values-Denotes : Denotes values three
values-Denotes = record { runs = λ L yield s. refl }

limit-Denotes_run : Denotes (limit values (pos 2)) (take 2 three)
limit-Denotes_run = limit-Denotes values (pos 2) three values-Denotes

abbrev inners : List (Option (Seq ℕ ℕ))
inners = some values ∷ none ∷ some (slice (9 ∷ [])) ∷ []

chain-Denotes_run : Denotes (chain (slice inners)) (three ++ (9 ∷ []))
chain-Denotes_run =
    chain-Denotes (slice inners) inners (three ++ (9 ∷ [])) (record { runs = λ L yield s. refl })
      (some_inner three values-Denotes
        (nil_inner (some_inner (9 ∷ []) (record { runs = λ L yield s. refl }) no_inner)))

abbrev mapping : List (ℕ × List ℕ)
mapping = (1, three) ∷ (2, []) ∷ (3, 4 ∷ []) ∷ []

flatten_slice-Denotes_run :
    Denotes (flatten_slice {W = ℕ} (slice mapping)) (spread (λ a b. (a, b)) mapping)
    × Denotes (reverse_mapping {W = ℕ} (slice mapping)) (spread (λ a b. (b, a)) mapping)
flatten_slice-Denotes_run =
    flatten_slice-Denotes (slice mapping) mapping (record { runs = λ L yield s. refl })

consume_lem_run :
    (collect values 1 ≡ (three, 1))
    × (collect_first_n values (pos 2) 1 ≡ (take 2 three, 1))
    × (initial values 1 ≡ (head_of three, 1))
    × (final values 1 ≡ (last_of three none, 1))
    × (count values 1 ≡ (length three, 1))
    × (reduce 0 values (λ r. pure (λ x. r + x)) 1 ≡ (fold_left (λ r x. r + x) 0 three, 1))
    × (contains (λ a b. a == b) values 7 1 ≡ (some_pass (λ b. 7 == b) three, 1))
consume_lem_run =
    consume_lem values three 1 (pos 2) (λ a b. a == b) 7 (λ r x. r + x) 0 values-Denotes

-- A call that adds its argument to the world, and one that refuses a world over ten.
abbrev add_up : ℕ → ℕ → ℕ
add_up x w = w + x

abbrev test : Op ℕ ℕ Bool
test x w = (ltb w 10, w + x)

abbrev try : Op ℕ ℕ (Option ℕ)
try x w = (if ltb w 10 then none else some w, w + x)

apply_lem_run :
    (apply values add_up 1 ≡ (length three, each add_up three 1))
    × (apply_while values test 1 ≡ first_no test three 1)
    × (apply_until values try 1 ≡ first_error try three 1)
apply_lem_run = apply_lem values three 1 add_up test try values-Denotes

unique_by_lem_example :
    Denotes (unique_by numbers (λ x. x) values) (uniques numbers (λ x. x) [] three)
    × DistinctKeys numbers (λ x. x) (uniques numbers (λ x. x) [] three)
    × ((k : ℕ)
        → has_key numbers (λ x. x) k (uniques numbers (λ x. x) [] three)
          ≡ has_key numbers (λ x. x) k three)
unique_by_lem_example = unique_by_lem numbers (λ x. x) values three values-Denotes

-- A function that gives the world and counts it up.
abbrev tick : ℕ → ℕ × ℕ
tick w = (w, w + 1)

limit-generate_example :
    limit (generate 3 tick) (pos 2) ℕ (λ x s. (true, (s.0, s.1 + x))) (4, 0)
    ≡ generate_n (pos 2) tick ℕ (λ x s. (true, (s.0, s.1 + x))) (4, 0)
limit-generate_example =
    limit-generate (pos 2) 3 tick ℕ (λ x s. (true, (s.0, s.1 + x))) (4, 0) (omega arith)

-- Even and odd numbers apart.
abbrev parity : ℕ → ℕ
parity n = n % 2

group_by_lem_example :
    (og : Grouping ℕ ℕ) × (group_by numbers values parity 1 ≡ (og, 1))
    × DistinctKeys numbers (λ k. k) og.order
    × ((k : ℕ) → some_pass (λ b. k == b) og.order ≡ has_key numbers parity k three)
    × (collect (iter numbers og) og.table ≡ (grouped numbers parity og.order three, []))
group_by_lem_example = group_by_lem numbers parity values three 1 values-Denotes

equal_lem_example : (equal numbers values (slice (5 ∷ [])) 1 ≡ true) ↔ (three ≡ 5 ∷ [])
equal_lem_example =
    equal_lem numbers values (slice (5 ∷ [])) three (5 ∷ []) 1 values-Denotes
      (record { runs = λ L yield s. refl })

abbrev outcomes : List (ℕ × Option ℕ)
outcomes = (5, none) ∷ (7, some 1) ∷ (9, none) ∷ []

errors_lem_example :
    Denotes (remove_errors {W = ℕ} (slice outcomes)) (5 ∷ 9 ∷ [])
    × Denotes (while_success {W = ℕ} (slice outcomes)) (5 ∷ [])
    × Denotes (until_error {W = ℕ} (slice outcomes)) (5 ∷ [])
errors_lem_example = errors_lem (slice outcomes) outcomes (record { runs = λ L yield s. refl })

-- A yield that panics on 9, and else refuses a state over ten.
abbrev yielded : Call ℕ ℕ
yielded x s = (if x == 9 then none else some (ltb s 10), s + x)

sink_lem_example :
    ((serve (sink yielded) three (1, false)).1.0 ≡ until_refused yielded three 1)
    × RefusedAfter (serve (sink yielded) three (1, false)).0
sink_lem_example = sink_lem yielded three 1
