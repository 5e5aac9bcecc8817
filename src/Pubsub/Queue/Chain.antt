-- ===== src/Pubsub/Queue/Chain.antt =====
-- The linked entries of a queue as a list of addresses. Entries are allocated upwards and linked at
-- the back, so that the addresses of a chain grow, and a cell outside of it is told by its address.
use fun.Prelude.{
  ◌≤◌, ◌<◌, ◌≡◌, refl, ap, true, false, none, some, List, [], ◌∷◌, ◌++◌, arith, ◌==◌, if◌then◌else◌,
}
use fun.Pubsub.Queue.{Ptr, Entry, update}

module _ {A : Type 0} where
  -- From `p` the links lead through the addresses to `b`, the last, and none of these is popped.
  abbrev pub Chain : (Ptr → Entry A) → Ptr → List Ptr → Ptr → Type 0
  Chain c p [] b = (p ≡ b) × ((c p).link ≡ none) × ((c p).popped ≡ false)
  Chain c p (a ∷ ps) b = (p < a) × ((c p).link ≡ some a) × ((c p).popped ≡ false) × Chain c a ps b

  abbrev pub items : (Ptr → Entry A) → List Ptr → List A
  items c [] = []
  items c (a ∷ ps) = (c a).item ∷ items c ps

  pub Chain-le : (c : Ptr → Entry A) (p : Ptr) (ps : List Ptr) (b : Ptr) → Chain c p ps b → p ≤ b
  Chain-le c p [] b h = omega arith
  Chain-le c p (a ∷ ps) b h = omega (arith, Chain-le c a ps b h.3)

  module _ (c c' : Ptr → Entry A) where
    -- A chain sees no cell below its start, and its items none at the start either.
    pub Chain-frame :
        (p : Ptr) (ps : List Ptr) (b : Ptr)
        → Chain c p ps b
        → ((x : Ptr) → p ≤ x → c' x ≡ c x)
        → Chain c' p ps b
    Chain-frame p [] b h same = ground (arith, same p)
    Chain-frame p (a ∷ ps) b h same =
        let rest = Chain-frame a ps b h.3 (λ x l. same x (omega (arith, h.0))) in
        let here : c' p ≡ c p = same p (omega arith) in (h.0, rw here h.1, rw here h.2, rest)

    pub items-frame :
        (p : Ptr) (ps : List Ptr) (b : Ptr)
        → Chain c p ps b
        → ((x : Ptr) → p < x → c' x ≡ c x)
        → items c' ps ≡ items c ps
    items-frame p [] b h same = refl
    items-frame p (a ∷ ps) b h same =
        let rest = items-frame a ps b h.3 (λ x l. same x (omega (arith, h.0))) in
        rw (same a h.0) (ap (λ r. (c a).item ∷ r) rest)

  module _ (c : Ptr → Entry A) (x : A) (n : Ptr) where
    -- The cells after a new entry has been linked behind `b`.
    abbrev pub linked : Ptr → Ptr → Entry A
    linked b =
        let new : Entry A = record { item = x; link = none; popped = false } in
        let cells = update c n new in update cells b (record (cells b) { link = some n })

    pub Chain-linked :
        (p : Ptr) (ps : List Ptr) (b : Ptr)
        → Chain c p ps b
        → b < n
        → Chain (linked b) p (ps ++ (n ∷ [])) n
    Chain-linked p [] b h l = ground arith
    Chain-linked p (a ∷ ps) b h l =
        let below = Chain-le c a ps b h.3 in
        (h.0, ground arith, ground arith, Chain-linked a ps b h.3 l)

    pub items-linked :
        (p : Ptr) (ps : List Ptr) (b : Ptr)
        → Chain c p ps b
        → b < n
        → items (linked b) (ps ++ (n ∷ [])) ≡ items c ps ++ (x ∷ [])
    items-linked p [] b h l = ground arith
    items-linked p (a ∷ ps) b h l =
        let below = Chain-le c a ps b h.3 in ground (arith, items-linked a ps b h.3 l)

  module _ (c : Ptr → Entry A) (z : A) where
    -- The cells after the entry `e` behind the sentinel `f` has been unlinked and cleared.
    abbrev pub unlinked : Ptr → Ptr → Ptr → Entry A
    unlinked f e =
        let gone : Entry A = record { item = z; link = none; popped = true } in
        update (update c f (record (c f) { link = (c e).link })) e gone

    pub Chain-unlinked :
        (f e : Ptr) (ps : List Ptr) (b : Ptr)
        → Chain c f (e ∷ ps) b
        → Chain (unlinked f e) f ps (if e == b then f else b)
    Chain-unlinked f e [] b h = ground arith
    Chain-unlinked f e (a ∷ ps) b h =
        let below = Chain-le c a ps b h.3.3 in
        let same = λ (x : Ptr) (l : a ≤ x). let r : unlinked f e x ≡ c x = ground arith in r in
        let rest = Chain-frame c (unlinked f e) a ps b h.3.3 same in
        let ends : (if e == b then f else b) ≡ b = ground arith in
        (omega arith, ground arith, ground arith, rw ends rest)

    pub items-unlinked :
        (f e : Ptr) (ps : List Ptr) (b : Ptr)
        → Chain c f (e ∷ ps) b
        → items (unlinked f e) ps ≡ items c ps
    items-unlinked f e ps b h = items-frame c (unlinked f e) e ps b h.3 (λ x l. ground arith)
