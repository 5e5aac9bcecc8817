-- ===== src/Dt/StackTests.antt =====
-- The theorems about the stack at concrete inputs.
use fun.Prelude.{ℕ, ◌≡◌, refl, true, false, some, [], ◌∷◌, arith, ◌==◌, if◌then◌else◌}
use fun.Prelude.Int.{pos, ◌+ℤ◌}
use fun.Dt.Stack.{is_ok, Memory, push, remove, iterate, iterator, len}
use fun.Dt.Stack.Holds.{IsStack, Contains}
use fun.Dt.Stack.Pop.{Popped, stack_pop-push, stack_iterator_lem}
use fun.Dt.Stack.Detach.{detach, detach_forgets}
use fun.Dt.Stack.Remove.{remove_keeps}

-- The stack 1 with the items 3 and 4 over the root 2.
abbrev couple : Memory ℕ
couple = record {
  items = λ p.
      if p == 2
      then record { next = 0; stack = 1; ok = false; value = 0 }
      else if p == 3
      then record { next = 4; stack = 1; ok = true; value = 5 }
      else record { next = 2; stack = 1; ok = true; value = 7 };
  stacks = λ s. record { head = 3; length = pos 2 };
  fresh = 5;
}

couple-IsStack : IsStack couple 1 2 (3 ∷ 4 ∷ [])
couple-IsStack = record {
  stack_not_nil = omega arith;
  root_not_nil = omega arith;
  root_bad = refl;
  root_old = omega arith;
  root_listed = refl;
  walk = ground arith;
  distinct = ground arith;
  member = λ p i. ground arith;
  counted = refl;
}

couple-Contains : Contains couple 1 (5 ∷ 7 ∷ [])
couple-Contains = record { bottom = 2; at = 3 ∷ 4 ∷ []; is_stack = couple-IsStack; are = refl }

stack_pop-push_example :
    (m : Memory ℕ) × (push 0 couple 1 9 ≡ some m)
    × Contains m 1 (9 ∷ 5 ∷ 7 ∷ [])
    × Popped 0 m 1 9 (5 ∷ 7 ∷ [])
stack_pop-push_example = stack_pop-push 0 couple 1 (5 ∷ 7 ∷ []) 9 couple-Contains

stack_run : iterator 0 3 couple 1 ≡ some (5 ∷ 7 ∷ [])
stack_run = stack_iterator_lem 0 couple 1 (5 ∷ 7 ∷ []) 3 couple-Contains (omega arith)

remove_keeps_example :
    ((remove 3 couple 4).0 ≡ true)
    × (len (remove 3 couple 4).1 1 +ℤ pos 1 ≡ pos 2)
    × (iterate 3 (remove 3 couple 4).1 ((remove 3 couple 4).1.stacks 1).head ≡ 5 ∷ 7 ∷ [])
remove_keeps_example = remove_keeps couple 1 2 4 (3 ∷ 4 ∷ []) 3 couple-IsStack refl (omega arith)

detach_forgets_example :
    (is_ok (detach 0 2 couple 4).1 ((detach 0 2 couple 4).1.stacks (detach 0 2 couple 4).0).head
      ≡ true)
    × (len (detach 0 2 couple 4).1 (detach 0 2 couple 4).0 ≡ pos 0)
detach_forgets_example =
    detach_forgets 0 couple 1 2 3 4 (4 ∷ []) 2 couple-IsStack refl (omega arith)
