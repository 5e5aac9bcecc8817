-- ===== src/Dt/List/IsList.antt =====
-- The representation of a list of dt/list.go: a ring of distinct elements round its root, counted.
use fun.Prelude.{◌<◌, ◌≡◌, ◌≢◌, true, false, List, [], ◌∷◌, length}
use fun.Links.{Ptr, has, Distinct, Chain}
use fun.Dt.List.{Memory, nil}

module _ {A : Type 0} where
  abbrev pub next_of : Memory A → Ptr → Ptr
  next_of m p = (m.elements p).next

  abbrev pub prev_of : Memory A → Ptr → Ptr
  prev_of m p = (m.elements p).prev

  abbrev pub values : Memory A → List Ptr → List A
  values m [] = []
  values m (p ∷ ps) = (m.elements p).item ∷ values m ps

  -- An element that belongs to the list.
  pub record Member (m : Memory A) (l p : Ptr) : Type 0 where
    pub not_nil : p ≢ nil
    pub listed : (m.elements p).list ≡ l
    pub good : (m.elements p).ok ≡ true
    pub old : p < m.fresh

  -- `l` is the list of the elements `ps`, front first, round the root `r`, with its length at `k`.
  pub record IsList (m : Memory A) (l r k : Ptr) (ps : List Ptr) : Type 0 where
    pub list_not_nil : l ≢ nil
    pub root_not_nil : r ≢ nil
    pub meta_not_nil : k ≢ nil
    pub head_is : (m.lists l).head ≡ r
    pub meta_is : (m.lists l).meta ≡ k
    pub counted : m.lengths k ≡ length ps
    pub chain : Chain (next_of m) (prev_of m) r ps r
    pub distinct : Distinct ps
    pub root_apart : has r ps ≡ false
    pub root_listed : (m.elements r).list ≡ l
    pub root_bad : (m.elements r).ok ≡ false
    pub root_old : r < m.fresh
    pub member : (p : Ptr) → has p ps ≡ true → Member m l p
