-- ===== src/Dt/List.antt =====
-- dt/list.go: the doubly linked list, over a memory of elements, list headers and length cells.
-- An address is a number and nil is 0; a command that dereferences nil gives `none`.
pub mod Ends
pub mod Append
pub mod IsList
pub mod Middle
pub mod Own
pub mod Iterate
pub mod Push
pub mod Remove
pub mod Reset
pub mod Setup
pub mod Sort
pub mod Whole
mod Runs
use fun.Prelude.{
  ℕ, zero, suc, ◌+◌, ◌-◌, Bool, true, false, not, ◌&&◌, ◌||◌, List, [], ◌∷◌, leb, Option, none,
  some, ltb, ◌==◌, if◌then◌else◌,
}
use fun.Links.{Ptr, update}

abbrev pub nil : Ptr
nil = 0

-- `Element[T]`
pub record Element (A : Type 0) : Type 0 where
  pub next : Ptr
  pub prev : Ptr
  pub list : Ptr
  pub ok : Bool
  pub item : A

-- `List[T]`: the addresses of the root element and of the struct that holds the length.
pub record Header : Type 0 where
  pub head : Ptr
  pub meta : Ptr

-- Nothing is allocated at `fresh` or above.
pub record Memory (A : Type 0) : Type 0 where
  pub elements : Ptr → Element A
  pub lists : Ptr → Header
  pub lengths : Ptr → ℕ
  pub fresh : Ptr

-- Commands thread the memory by hand; this chains their faults.
infixl 5 ◌>>=◌
abbrev pub ◌>>=◌ {ℓ κ} : {R : Type ℓ} {S : Type κ} → Option R → (R → Option S) → Option S
none >>= f = none
some r >>= f = f r

module _ {A : Type 0} where
  -- `*e`, `*l` and the length cell of a list.
  abbrev pub load : Memory A → Ptr → Option (Element A)
  load m e = if e == nil then none else some (m.elements e)

  abbrev pub load_list : Memory A → Ptr → Option Header
  load_list m l = if l == nil then none else some (m.lists l)

  abbrev pub load_length : Memory A → Ptr → Option ℕ
  load_length m k = if k == nil then none else some (m.lengths k)

  abbrev pub put : Memory A → Ptr → Element A → Memory A
  put m e x = record m { elements = update m.elements e x }

  abbrev pub put_length : Memory A → Ptr → ℕ → Memory A
  put_length m k n = record m { lengths = update m.lengths k n }

  -- `l.nonNil()`
  abbrev pub non_nil : Memory A → Ptr → Bool
  non_nil m l = not (l == nil) && (not ((m.lists l).head == nil) && not ((m.lists l).meta == nil))

  -- `l.Len()`
  abbrev pub len : Memory A → Ptr → ℕ
  len m l = if l == nil || (m.lists l).meta == nil then 0 else m.lengths (m.lists l).meta

  -- `e.isRoot()`, of an element that is not nil.
  abbrev pub is_root : Memory A → Ptr → Bool
  is_root m e = let l = (m.elements e).list in non_nil m l && (m.lists l).head == e

  -- `e.Ok()`
  abbrev pub is_ok : Memory A → Ptr → Bool
  is_ok m e = not (e == nil) && ((m.elements e).ok && not (is_root m e))

  -- `e.removable()`, of an element that is not nil.
  abbrev pub removable : Memory A → Ptr → Bool
  removable m e =
      let l = (m.elements e).list in non_nil m l && (not (is_root m e) && ltb 0 (len m l))

  -- `NewElement` with `ok` true, and the zero element.
  abbrev pub detached : Bool → A → Element A
  detached ok a = record { next = nil; prev = nil; list = nil; ok = ok; item = a }

  abbrev pub allocate : Memory A → Element A → Memory A
  allocate m x = record m { elements = update m.elements m.fresh x; fresh = m.fresh + 1 }

  -- `e.uncheckedAppend(val)`, which returns `val`.
  unfoldable pub unchecked_append : Memory A → Ptr → Ptr → Option (Memory A)
  unchecked_append m e val = do
    x ← load m e
    h ← load_list m x.list
    n ← load_length m h.meta
    let m = put_length m h.meta (n + 1)
    v ← load m val
    let m = put m val (record v { list = x.list; prev = e; next = x.next })
    y ← load m e
    let m = put m e (record y { next = val })
    z ← load m x.next
    some (put m x.next (record z { prev = val }))

  -- `e.uncheckedRemove()`
  unfoldable pub unchecked_remove : Memory A → Ptr → Option (Memory A)
  unchecked_remove m e = do
    x ← load m e
    h ← load_list m x.list
    n ← load_length m h.meta
    let m = put_length m h.meta (n - 1)
    p ← load m x.prev
    let m = put m x.prev (record p { next = x.next })
    q ← load m x.next
    let m = put m x.next (record q { prev = x.prev })
    y ← load m e
    some (put m e (record y { list = nil }))

  -- `e.Append(val)`: the memory, and `val` if it was put into the list, else `e`.
  unfoldable pub append : Memory A → Ptr → Ptr → Option (Ptr × Memory A)
  unfolding unchecked_append
  append m e val = if val == nil || not (m.elements val).ok then some (e, m) else do
    x ← load m e
    if non_nil m x.list && (m.elements val).list == nil
        then (do m' ← unchecked_append m e val; some (val, m'))
        else some (e, m)

  -- `e.Push(v)`
  unfoldable pub push : Memory A → Ptr → A → Option (Ptr × Memory A)
  unfolding append
  push m e a = append (allocate m (detached true a)) e m.fresh

  -- `e.Remove()`
  unfoldable pub remove : Memory A → Ptr → Option (Bool × Memory A)
  unfolding unchecked_remove
  remove m e = do
    x ← load m e
    if removable m e then (do m' ← unchecked_remove m e; some (true, m')) else some (false, m)

  -- `e.Set(v)`
  unfoldable pub set_item : Memory A → Ptr → A → Bool × Memory A
  set_item m e a =
      if e == nil || is_root m e
      then (false, m)
      else (true, put m e (record (m.elements e) { ok = true; item = a }))

  -- `e.Swap(with)`; `wprev := *with.prev` is a copy, an element of its own.
  unfoldable pub swap : Memory A → Ptr → Ptr → Option (Bool × Memory A)
  unfolding unchecked_append unchecked_remove
  swap m e with_ =
      let lx = (m.elements e).list in
      if with_ == nil
        || (e == nil || (with_ == e || not (non_nil m lx && lx == (m.elements with_).list)))
      then some (false, m)
      else do
        p ← load m (m.elements with_).prev
        let wprev = m.fresh
        m1 ← unchecked_remove (allocate m p) with_
        m2 ← unchecked_append m1 (m1.elements e).prev with_
        m3 ← unchecked_remove m2 e
        m4 ← unchecked_append m3 wprev e
        some (true, m4)

  -- `IteratorFront` over a list that nobody changes meanwhile: at most `fuel` items from `e` on.
  unfoldable pub iterate : ℕ → Memory A → Ptr → List A
  iterate zero m e = []
  iterate (suc fuel) m e =
      let rest = iterate fuel m (m.elements e).next in
      if is_ok m e then (m.elements e).item ∷ rest else []

  -- The loop of `IsSorted` from the element `e` on, for at most `fuel` rounds.
  unfoldable pub sorted_from : (A → A → Bool) → ℕ → Memory A → Ptr → Option Bool
  sorted_from less zero m e = some true
  sorted_from less (suc fuel) m e =
      let rest = sorted_from less fuel m (m.elements e).next in
      do
        x ← load m e
        if not (is_ok m x.next)
            then some true
            else do p ← load m x.prev; if less x.item p.item then some false else rest

module _ {A : Type 0} (zero_value : A) where
  -- `l.root()`, with `uncheckedSetup` on a list that has no root yet.
  unfoldable pub root_of : Memory A → Ptr → Option (Ptr × Memory A)
  root_of m l = do
    h ← load_list m l
    let r = m.fresh
    let k = m.fresh + 1
    let root : Element A = record { next = r; prev = r; list = l; ok = false; item = zero_value }
    if not (h.head == nil)
        then some (h.head, m)
        else some (
          r,
          record m {
            elements = update m.elements r root;
            lengths = update m.lengths k 0;
            lists = update m.lists l (record { head = r; meta = k });
            fresh = k + 1;
          },
        )

  -- `l.Front()` and `l.Back()`
  unfoldable pub front : Memory A → Ptr → Option (Ptr × Memory A)
  unfolding root_of
  front m l = do (r, m) ← root_of m l; x ← load m r; some (x.next, m)

  unfoldable pub back : Memory A → Ptr → Option (Ptr × Memory A)
  unfolding root_of
  back m l = do (r, m) ← root_of m l; x ← load m r; some (x.prev, m)

  -- `l.PushFront(it)` and `l.PushBack(it)`
  unfoldable pub push_front : Memory A → Ptr → A → Option (Memory A)
  unfolding root_of push
  push_front m l a = do (r, m) ← root_of m l; (n, m) ← push m r a; some m

  unfoldable pub push_back : Memory A → Ptr → A → Option (Memory A)
  unfolding back push
  push_back m l a = do (b, m) ← back m l; (n, m) ← push m b a; some m

  -- `l.pop(it)`: an element of this list is detached and returned, else a new one that is not ok.
  unfoldable pub pop : Memory A → Ptr → Ptr → Option (Ptr × Memory A)
  unfolding unchecked_remove
  pop m l it = do
    x ← load m it
    let same = (m.lists x.list).head == (m.lists l).head
    if removable m it && (not (x.list == nil) && (not ((m.lists l).head == nil) && same))
        then (do m' ← unchecked_remove m it; some (it, m'))
        else some (m.fresh, allocate m (detached false zero_value))

  -- `l.PopFront()` and `l.PopBack()`
  unfoldable pub pop_front : Memory A → Ptr → Option (Ptr × Memory A)
  unfolding front pop
  pop_front m l = do (e, m) ← front m l; pop m l e

  unfoldable pub pop_back : Memory A → Ptr → Option (Ptr × Memory A)
  unfolding back pop
  pop_back m l = do (e, m) ← back m l; pop m l e

  -- `e.Drop()`
  unfoldable pub drop : Memory A → Ptr → Option (Memory A)
  unfolding remove
  drop m e = do
    (gone, m) ← remove m e
    some (if gone then put m e (record (m.elements e) { item = zero_value; ok = false }) else m)

  -- `l.IteratorFront()`, for at most `fuel` items.
  unfoldable pub iterator_front : ℕ → Memory A → Ptr → Option (List A)
  unfolding front iterate
  iterator_front fuel m l = do (e, m) ← front m l; some (iterate fuel m e)

  -- `l.IsSorted(cf)`, where `less a b` is `cf(a, b) < 0`; a list of n elements takes at most n rounds.
  unfoldable pub is_sorted : (A → A → Bool) → Memory A → Ptr → Option Bool
  unfolding front sorted_from
  is_sorted less m l =
      if leb (len m l) 1 then some true else do (e, m) ← front m l; sorted_from less (len m l) m e
