-- ===== src/Dt/List/Ends.antt =====
-- The pushes and pops of dt/list.go at both ends of one list.
use fun.Prelude.{◌≡◌, ◌∙◌, some, List, [], ◌∷◌, ◌++◌}
use mathlib.Core.Path.{subst}
use fun.Links.{Ptr}
use fun.Dt.List.{Memory, push_front, push_back, pop_front, pop_back}
use fun.Dt.List.Push.{Contains, push_front_lem, push_back_lem}
use fun.Dt.List.Setup.{
  Usable, holds, unused, rooted, rooted-Contains, push_front-rooted, push_back-rooted,
}
use fun.Dt.List.Remove.{Popped, pop_front_lem, pop_back_lem}

module _ {A : Type 0} where
  -- On a list that holds some values, and on one that nobody has used and that has no root yet, `PushFront`
  -- and `PushBack` never dereference nil; the one puts the value before the others, and the other behind
  -- them.
  pub pushes_lem :
      (z : A) (m : Memory A) (l : Ptr) (xs : List A) (a : A)
      → Usable m l xs
      → ((m' : Memory A) × (push_front z m l a ≡ some m') × Contains m' l (a ∷ xs))
        × ((m' : Memory A) × (push_back z m l a ≡ some m') × Contains m' l (xs ++ (a ∷ [])))
  pushes_lem z m l xs a (holds c) = (push_front_lem z m l xs a c, push_back_lem z m l xs a c)
  pushes_lem z m l xs a (unused u e) =
      let c = rooted-Contains z m l u in
      let (m1, p, c1) = push_front_lem z (rooted z m l) l [] a c in
      let (m2, q, c2) = push_back_lem z (rooted z m l) l [] a c in
      (
        (m1, push_front-rooted z m l a u ∙ p, rw e c1),
        (m2, push_back-rooted z m l a u ∙ q, rw e c2),
      )

  -- On a list that is not empty `PopFront` and `PopBack` never dereference nil; the one takes out the
  -- first value with its element, and the other the last.
  pub pops_lem :
      (z : A) (m : Memory A) (l : Ptr) (x y : A) (xs ys : List A)
      → Contains m l (x ∷ xs)
      → x ∷ xs ≡ ys ++ (y ∷ [])
      → Popped m l x xs (pop_front z m l) × Popped m l y ys (pop_back z m l)
  pops_lem z m l x y xs ys c e =
      (pop_front_lem z m l x xs c, pop_back_lem z m l y ys (subst (Contains m l) e c))
