-- ===== src/ListHead/Ring.antt =====
-- The list that a ring of nodes stands for, and what the operations of include/adt/list.h do to it.
use njuos.Prelude.{
  ℕ, ◌≡◌, ◌≢◌, sym, ◌∙◌, Bool, true, false, some, List, [], ◌∷◌, ◌++◌, arith, update,
}
use njuos.ListHead.{
  Heap, null, set_prev, set_next, list_add_before, list_add_after, list_del, list_init, list_empty,
}

-- `x` is none of the nodes `xs`.
abbrev pub NotIn : ℕ → List ℕ → Type 0
NotIn x [] = Unit {0}
NotIn x (y ∷ ys) = (x ≢ y) × NotIn x ys

abbrev pub AllDistinct : List ℕ → Type 0
AllDistinct [] = Unit {0}
AllDistinct (x ∷ xs) = NotIn x xs × AllDistinct xs

-- From `a` through `xs` to `b`, the `next` pointers lead forwards and the `prev` pointers back.
abbrev pub Chain : Heap → ℕ → List ℕ → ℕ → Type 0
Chain h a [] b = (h.next a ≡ b) × (h.prev b ≡ a)
Chain h a (x ∷ xs) b = (h.next a ≡ x) × (h.prev x ≡ a) × Chain h x xs b

-- The ring of `head` holds the nodes `xs` in order.
pub record IsRing (h : Heap) (head : ℕ) (xs : List ℕ) : Type 0 where
  pub chain : Chain h head xs head
  pub distinct : AllDistinct (head ∷ xs)
  pub valid : NotIn null (head ∷ xs)

pub NotIn-eq : {x y : ℕ} (xs : List ℕ) → x ≡ y → NotIn y xs → NotIn x xs
NotIn-eq [] e n = tt
NotIn-eq (z ∷ xs) e n = (ground arith, NotIn-eq xs e n.1)

pub NotIn-append : (x : ℕ) (xs ys : List ℕ) → NotIn x (xs ++ ys) → NotIn x xs × NotIn x ys
NotIn-append x [] ys n = (tt, n)
NotIn-append x (y ∷ xs) ys n = let (p, q) = NotIn-append x xs ys n.1 in ((n.0, p), q)

-- The node before the end of a chain is its start or one of its nodes.
pub prev_end :
    (h : Heap) (a : ℕ) (xs : List ℕ) (b c : ℕ) → Chain h a xs b → NotIn c (a ∷ xs) → c ≢ h.prev b
prev_end h a [] b c ch n = ground arith
prev_end h a (x ∷ xs) b c ch n = prev_end h x xs b c ch.2 n.1

pub next_start :
    (h : Heap) (a : ℕ) (xs : List ℕ) (b c : ℕ) → Chain h a xs b → NotIn c xs → c ≢ b → c ≢ h.next a
next_start h a [] b c ch n m = ground arith
next_start h a (x ∷ xs) b c ch n m = ground arith

module _ (h : Heap) (p v : ℕ) where
  -- A write of `next` at a node that is not on the chain keeps it.
  pub Chain-set_next :
      (a : ℕ) (xs : List ℕ) (b : ℕ)
      → NotIn p (a ∷ xs)
      → Chain h a xs b
      → Chain (set_next h p v) a xs b
  unfolding set_next
  Chain-set_next a [] b n ch = ground arith
  Chain-set_next a (x ∷ xs) b n ch = (ground arith, ch.1, Chain-set_next x xs b n.1 ch.2)

  -- A write of `prev` at a node behind which the chain does not go on keeps it.
  pub Chain-set_prev :
      (a : ℕ) (xs : List ℕ) (b : ℕ)
      → NotIn p xs
      → p ≢ b
      → Chain h a xs b
      → Chain (set_prev h p v) a xs b
  unfolding set_prev
  Chain-set_prev a [] b n m ch = ground arith
  Chain-set_prev a (x ∷ xs) b n m ch = (ch.0, ground arith, Chain-set_prev x xs b n.1 m ch.2)

-- The heap after `list_add`, at nodes that are not NULL.
abbrev pub linked : Heap → ℕ → ℕ → ℕ → Heap
linked h p n d = record {
  prev = update (update h.prev d p) n d;
  next = update (update h.next d n) p d;
}

-- The heap after `list_del`.
abbrev pub unlinked : Heap → ℕ → Heap
unlinked h d = record {
  prev = update h.prev (h.next d) (h.prev d);
  next = update h.next (h.prev d) (h.next d);
}

pub Chain-linked_end :
    (h : Heap) (d a : ℕ) (xs : List ℕ) (b : ℕ)
    → AllDistinct (a ∷ xs)
    → NotIn b xs
    → NotIn d (b ∷ a ∷ xs)
    → Chain h a xs b
    → Chain (linked h (h.prev b) b d) a (xs ++ d ∷ []) b
Chain-linked_end h d a [] b e n m ch = ground arith
Chain-linked_end h d a (x ∷ xs) b e n m ch = (
  ground (arith, prev_end h x xs b a ch.2 e.0),
  ground arith,
  Chain-linked_end h d x xs b e.1 n.1 (m.0, m.1.1) ch.2,
)

-- Linking a node elsewhere, or unlinking one, keeps a chain.
pub Chain-linked_off :
    (h : Heap) (p n d a : ℕ) (xs : List ℕ) (b : ℕ)
    → NotIn d (b ∷ a ∷ xs)
    → NotIn p (a ∷ xs)
    → NotIn n xs
    → n ≢ b
    → Chain h a xs b
    → Chain (linked h p n d) a xs b
Chain-linked_off h p n d a xs b nd np nn ne ch =
    unfold set_next set_prev in
    Chain-set_prev _ n d a xs b nn ne (
      Chain-set_prev _ d p a xs b nd.1.1 nd.0
        (Chain-set_next _ p d a xs b np (Chain-set_next h d n a xs b nd.1 ch)))

pub Chain-unlinked_off :
    (h : Heap) (d a : ℕ) (xs : List ℕ) (b : ℕ)
    → NotIn (h.prev d) (a ∷ xs)
    → NotIn (h.next d) xs
    → h.next d ≢ b
    → Chain h a xs b
    → Chain (unlinked h d) a xs b
Chain-unlinked_off h d a xs b np nn ne ch =
    unfold set_next set_prev in
    Chain-set_prev _ (h.next d) (h.prev d) a xs b nn ne
      (Chain-set_next h (h.prev d) (h.next d) a xs b np ch)

pub Chain-linked_start :
    (h : Heap) (d a : ℕ) (xs : List ℕ) (b : ℕ)
    → AllDistinct (a ∷ xs)
    → NotIn b xs
    → NotIn d (b ∷ a ∷ xs)
    → Chain h a xs b
    → Chain (linked h a (h.next a) d) a (d ∷ xs) b
Chain-linked_start h d a [] b e n m ch = ground arith
Chain-linked_start h d a (x ∷ xs) b e n m ch = (
  ground arith,
  ground arith,
  (
    ground arith,
    ground arith,
    Chain-linked_off h a (h.next a) d x xs b (m.0, m.1.1) e.0 (NotIn-eq xs ch.0 e.1.0)
        (λ q. n.0 (sym (sym ch.0 ∙ q))) ch.2,
  ),
)

-- The neighbours of a node of a chain are on it, or its ends.
prev_in :
    (h : Heap) (a : ℕ) (xs : List ℕ) (d : ℕ) (ys : List ℕ) (b c : ℕ)
    → Chain h a (xs ++ d ∷ ys) b
    → NotIn c (a ∷ xs ++ d ∷ ys)
    → c ≢ h.prev d
prev_in h a [] d ys b c ch n = ground arith
prev_in h a (x ∷ xs) d ys b c ch n = prev_in h x xs d ys b c ch.2 n.1

next_in :
    (h : Heap) (a : ℕ) (xs : List ℕ) (d : ℕ) (ys : List ℕ) (b c : ℕ)
    → Chain h a (xs ++ d ∷ ys) b
    → NotIn c (xs ++ d ∷ ys)
    → c ≢ b
    → c ≢ h.next d
next_in h a [] d ys b c ch n m = next_start h d ys b c ch.2 n.1 m
next_in h a (x ∷ xs) d ys b c ch n m = next_in h x xs d ys b c ch.2 n.1 m

pub Chain-unlinked :
    (h : Heap) (d a : ℕ) (xs ys : List ℕ) (b : ℕ)
    → AllDistinct (a ∷ xs ++ d ∷ ys)
    → NotIn b (xs ++ d ∷ ys)
    → Chain h a (xs ++ d ∷ ys) b
    → Chain (unlinked h d) a (xs ++ ys) b
Chain-unlinked h d a [] [] b e n ch = ground arith
Chain-unlinked h d a [] (y ∷ ys) b e n ch = (
  ground arith,
  ground arith,
  Chain-unlinked_off h d y ys b (NotIn-eq (y ∷ ys) ch.1 e.0.1) (NotIn-eq ys ch.2.0 e.1.1.0)
      (λ q. n.1.0 (sym (sym ch.2.0 ∙ q))) ch.2.2,
)
Chain-unlinked h d a (x ∷ xs) ys b e n ch = (
  ground (arith, prev_in h x xs d ys b a ch.2 e.0),
  ground (arith, next_in h x xs d ys b x ch.2 (e.1.0) (λ q. n.0 (sym q))),
  Chain-unlinked h d x xs ys b e.1 n.1 ch.2,
)

-- Distinctness through insertions and removals.
NotIn-snoc : (x : ℕ) (xs : List ℕ) (d : ℕ) → NotIn x xs → x ≢ d → NotIn x (xs ++ d ∷ [])
NotIn-snoc x [] d n m = (m, tt)
NotIn-snoc x (y ∷ xs) d n m = (n.0, NotIn-snoc x xs d n.1 m)

AllDistinct-snoc : (xs : List ℕ) (d : ℕ) → AllDistinct xs → NotIn d xs → AllDistinct (xs ++ d ∷ [])
AllDistinct-snoc [] d e n = (tt, tt)
AllDistinct-snoc (x ∷ xs) d e n =
    (NotIn-snoc x xs d e.0 (λ q. n.0 (sym q)), AllDistinct-snoc xs d e.1 n.1)

pub NotIn-remove :
    (x : ℕ) (xs : List ℕ) (d : ℕ) (ys : List ℕ) → NotIn x (xs ++ d ∷ ys) → NotIn x (xs ++ ys)
NotIn-remove x [] d ys n = n.1
NotIn-remove x (y ∷ xs) d ys n = (n.0, NotIn-remove x xs d ys n.1)

AllDistinct-remove :
    (xs : List ℕ) (d : ℕ) (ys : List ℕ) → AllDistinct (xs ++ d ∷ ys) → AllDistinct (xs ++ ys)
AllDistinct-remove [] d ys e = e.1
AllDistinct-remove (x ∷ xs) d ys e = (NotIn-remove x xs d ys e.0, AllDistinct-remove xs d ys e.1)

-- `list_init` makes a ring with no node, at a head that is not NULL.
pub list_init-IsRing :
    (h : Heap) (head : ℕ)
    → head ≢ null
    → (h' : Heap) × (list_init head h ≡ some h') × IsRing h' head []
unfolding list_init
list_init-IsRing h head ne = (
  set_prev (set_next h head head) head head,
  ground arith,
  record { chain = ground arith; distinct = (tt, tt); valid = ((λ q. ne (sym q)), tt) },
)

abbrev pub is_nil : List ℕ → Bool
is_nil [] = true
is_nil (x ∷ xs) = false

-- `list_empty` tells whether the ring holds no node.
pub list_empty-IsRing :
    (h : Heap) (head : ℕ) (xs : List ℕ) → IsRing h head xs → list_empty head h ≡ some (is_nil xs)
unfolding list_empty
list_empty-IsRing h head [] r = ground (arith, r.chain, r.valid)
list_empty-IsRing h head (x ∷ xs) r = ground (arith, r.chain, r.valid, r.distinct)

module _ (h : Heap) (head : ℕ) (xs : List ℕ) (r : IsRing h head xs) (d : ℕ)
    (fresh : NotIn d (null ∷ head ∷ xs)) where
  pub list_add_before_heap : list_add_before head d h ≡ some (linked h (h.prev head) head d)
  unfolding list_add_before
  list_add_before_heap = ground (arith, r.valid, prev_end h head xs head null r.chain r.valid)

  pub linked_end-IsRing : IsRing (linked h (h.prev head) head d) head (xs ++ d ∷ [])
  linked_end-IsRing = record {
    chain = Chain-linked_end h d head xs head r.distinct r.distinct.0 (fresh.1.0, fresh.1) r.chain;
    distinct = AllDistinct-snoc (head ∷ xs) d r.distinct fresh.1;
    valid = NotIn-snoc null (head ∷ xs) d r.valid (λ q. fresh.0 (sym q));
  }

  -- `list_add_before` at the head of a ring, with a node that is not NULL and not in the ring,
  -- succeeds and puts the node at the end.
  pub list_add_before-IsRing :
      (h' : Heap) × (list_add_before head d h ≡ some h') × IsRing h' head (xs ++ d ∷ [])
  list_add_before-IsRing = (linked h (h.prev head) head d, list_add_before_heap, linked_end-IsRing)

  -- `list_add_after` likewise puts it at the front.
  pub list_add_after-IsRing :
      (h' : Heap) × (list_add_after head d h ≡ some h') × IsRing h' head (d ∷ xs)
  unfolding list_add_after
  list_add_after-IsRing = (
    linked h head (h.next head) d,
    ground (arith, r.valid, next_start_null),
    record {
      chain =
          Chain-linked_start h d head xs head r.distinct r.distinct.0 (fresh.1.0, fresh.1) r.chain;
      distinct = (((λ q. fresh.1.0 (sym q)), r.distinct.0), (fresh.1.1, r.distinct.1));
      valid = (r.valid.0, ((λ q. fresh.0 (sym q)), r.valid.1));
    },
  )
    where
      next_start_null : null ≢ h.next head
      next_start_null = next_start h head xs head null r.chain r.valid.1 r.valid.0

back :
    (h : Heap) (a : ℕ) (xs : List ℕ) (d : ℕ) (ys : List ℕ) (b : ℕ)
    → Chain h a (xs ++ d ∷ ys) b
    → (h.next (h.prev d) ≡ d) × (h.prev (h.next d) ≡ d)
back h a [] d [] b ch = ground arith
back h a [] d (y ∷ ys) b ch = ground arith
back h a (x ∷ xs) d ys b ch = back h x xs d ys b ch.2

module _ (h : Heap) (head : ℕ) (xs : List ℕ) (d : ℕ) (ys : List ℕ)
    (r : IsRing h head (xs ++ d ∷ ys)) where
  pub list_del_heap : list_del d h ≡ some (unlinked h d)
  unfolding list_del
  list_del_heap = ground (
    arith,
    back h head xs d ys head r.chain,
    (NotIn-append null (head ∷ xs) (d ∷ ys) r.valid).1.0,
    prev_in h head xs d ys head null r.chain r.valid,
    next_in h head xs d ys head null r.chain r.valid.1 r.valid.0,
  )

  pub unlinked-IsRing : IsRing (unlinked h d) head (xs ++ ys)
  unlinked-IsRing = record {
    chain = Chain-unlinked h d head xs ys head r.distinct r.distinct.0 r.chain;
    distinct = AllDistinct-remove (head ∷ xs) d ys r.distinct;
    valid = NotIn-remove null (head ∷ xs) d ys r.valid;
  }

  -- `list_del` at a node of a ring passes its assertions and takes the node out, the others staying
  -- in their order.
  pub list_del-IsRing : (h' : Heap) × (list_del d h ≡ some h') × IsRing h' head (xs ++ ys)
  list_del-IsRing = (unlinked h d, list_del_heap, unlinked-IsRing)
