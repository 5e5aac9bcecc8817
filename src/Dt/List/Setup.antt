-- ===== src/Dt/List/Setup.antt =====
-- `root` and `uncheckedSetup` of dt/list.go: the first operation on a list that nobody has used makes its root.
use fun.Prelude.{◌+◌, ◌≡◌, ◌≢◌, refl, false, List, [], arith}
use fun.Links.{Ptr, update}
use fun.Dt.List.{Memory, nil, root_of, back, push_front, push_back}
use fun.Dt.List.IsList.{IsList}
use fun.Dt.List.Push.{Contains}

module _ {A : Type 0} where
  -- The zero value of a list, which has no root.
  pub record Unused (m : Memory A) (l : Ptr) : Type 0 where
    pub not_nil : l ≢ nil
    pub no_root : (m.lists l).head ≡ nil
    pub room : m.fresh ≢ nil

  -- A list that holds these values, or holds none since nobody has used it.
  pub data Usable (m : Memory A) (l : Ptr) (xs : List A) : Type 0 where
    holds : Contains m l xs → Usable m l xs
    unused : Unused m l → xs ≡ [] → Usable m l xs

  module _ (z : A) (m : Memory A) (l : Ptr) where
    -- What the setup leaves.
    unfoldable pub rooted : Memory A
    rooted = record m {
      elements =
          update m.elements m.fresh
            (record { next = m.fresh; prev = m.fresh; list = l; ok = false; item = z });
      lengths = update m.lengths (m.fresh + 1) 0;
      lists = update m.lists l (record { head = m.fresh; meta = m.fresh + 1 });
      fresh = m.fresh + 1 + 1;
    }

    rooted-IsList : Unused m l → IsList rooted l m.fresh (m.fresh + 1) []
    unfolding rooted
    rooted-IsList u = record {
      list_not_nil = u.not_nil;
      root_not_nil = u.room;
      meta_not_nil = omega arith;
      head_is = ground arith;
      meta_is = ground arith;
      counted = ground arith;
      chain = ground arith;
      distinct = tt;
      root_apart = refl;
      root_listed = ground arith;
      root_bad = ground arith;
      root_old = omega arith;
      member = λ p i. absurd (cc i);
    }

    pub rooted-Contains : Unused m l → Contains rooted l []
    rooted-Contains u = record {
      root = m.fresh;
      meta = m.fresh + 1;
      at = [];
      is_list = rooted-IsList u;
      are = refl;
    }

    root_of-rooted : Unused m l → root_of z m l ≡ root_of z rooted l
    unfolding root_of rooted
    root_of-rooted u = ground (arith, u.not_nil, u.no_root, u.room)

    pub push_front-rooted : (a : A) → Unused m l → push_front z m l a ≡ push_front z rooted l a
    unfolding push_front
    push_front-rooted a u = rw (root_of-rooted u) refl

    pub push_back-rooted : (a : A) → Unused m l → push_back z m l a ≡ push_back z rooted l a
    unfolding push_back back
    push_back-rooted a u = rw (root_of-rooted u) refl
