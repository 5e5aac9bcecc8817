-- ===== src/Irt/Group.antt =====
-- Group and GroupBy of irt/irt.go, over the orderedGrouping of irt/internal.go: a table of the values for
-- each key, and the keys in the order in which they came.
pub mod Groups
use fun.Prelude.{
  ℕ, ◌+◌, ◌≡◌, ◌↔◌, refl, ap, ◌∙◌, Bool, true, false, not, ◌||◌, List, [], ◌∷◌, ◌++◌, map,
  if◌then◌else◌, arith, inl, inr, Bool-cases,
}
use fun.Irt.Lists.{Comparable, some_pass, uniques, kept}
use fun.Irt.{Op, Body, Seq, pure, slice, Denotes, within}
use fun.Irt.Pairs.{apply2}
use fun.Irt.Transform.{with}
use fun.Irt.Consume.{result, apply}

-- `orderedGrouping`; the map is an association list, with one entry for a key.
pub record Grouping (K V : Type 0) : Type 0 where
  pub table : List (K × List V)
  pub order : List K

module _ {K V : Type 0} (c : Comparable K) where
  -- `groups.check`
  pub check : List (K × List V) → K → Bool
  check [] k = false
  check ((k', vs) ∷ t) k = c.eq k k' || check t k

  -- `mp[key]`, with nil for a key that is not there.
  pub group_of : List (K × List V) → K → List V
  group_of [] k = []
  group_of ((k', vs) ∷ t) k = if c.eq k k' then vs else group_of t k

  -- `groups.add`
  pub add_group : List (K × List V) → K → V → List (K × List V)
  add_group [] k v = (k, v ∷ []) ∷ []
  add_group ((k', vs) ∷ t) k v =
      if c.eq k k' then (k', vs ++ (v ∷ [])) ∷ t else (k', vs) ∷ add_group t k v

  -- `delete(mp, key)`
  pub delete_group : List (K × List V) → K → List (K × List V)
  delete_group [] k = []
  delete_group ((k', vs) ∷ t) k = if c.eq k k' then t else (k', vs) ∷ delete_group t k

  -- `groups.pop`
  pub pop_group : K → List (K × List V) → List V × List (K × List V)
  unfolding group_of delete_group
  pop_group k t = (group_of t k, delete_group t k)

  -- `orderedGrouping.add`
  pub add : Grouping K V → K → V → Grouping K V
  unfolding check add_group
  add og k v = record {
    table = add_group og.table k v;
    order = if not (check og.table k) then og.order ++ (k ∷ []) else og.order;
  }

  -- `orderedGrouping.with`, in the world with the grouping.
  pub with_key : {W : Type 0} → (V → K) → V → W × Grouping K V → W × Grouping K V
  unfolding add
  with_key f v w = (w.0, add w.1 (f v) v)

  -- The consuming part of `GroupBy`
  pub group_by : {W : Type 0} → Seq W V → (V → K) → W → Grouping K V × W
  unfolding with_key apply within
  group_by {W} seq key w =
      let empty : Grouping K V = record { table = []; order = [] } in
      result (apply (within seq) (with_key key) (w, empty)).1

  -- The consuming part of `Group`
  pub group : {W : Type 0} → Seq W (K × V) → W → Grouping K V × W
  unfolding add apply2 within
  group {W} seq w =
      let empty : Grouping K V = record { table = []; order = [] } in
      result (apply2 (within seq) (λ k v u. (u.0, add u.1 k v)) (w, empty)).1

  -- `orderedGrouping.iter`: the world of the sequence that is returned is the table, and it is emptied.
  pub iter : Grouping K V → Seq (List (K × List V)) (K × List V)
  unfolding with pop_group
  iter og = with (slice og.order) pop_group

  -- The groups that there should be: for each key, in the order of its first value, the values with it.
  unfoldable pub grouped : (V → K) → List K → List V → List (K × List V)
  grouped key [] vs = []
  grouped key (k ∷ ks) vs = (k, kept (λ v. c.eq k (key v)) vs) ∷ grouped key ks vs
