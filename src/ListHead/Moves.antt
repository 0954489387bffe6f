-- ===== src/ListHead/Moves.antt =====
-- A node that moves from one ring to another, as the kernel's queues do all the time: `list_del` and
-- then `list_add_before` at the other head (include/adt/list.h).
use njuos.Prelude.{ℕ, ◌≡◌, sym, Option, none, some, List, [], ◌∷◌, ◌++◌}
use njuos.ListHead.{Heap, null, list_add_before, list_del}
use njuos.ListHead.Ring.{
  NotIn, NotIn-eq, NotIn-append, AllDistinct, Chain, IsRing, unlinked, linked, unlinked-IsRing,
  linked_end-IsRing, Chain-unlinked_off, Chain-linked_off, list_del_heap, list_add_before_heap,
}

pub move : ℕ → ℕ → Heap → Option Heap
move d b h = elim (list_del d h) [ none ↦ none | some h' ↦ list_add_before b d h' ]

-- No node of `xs` is one of `ys`.
abbrev pub Disjoint : List ℕ → List ℕ → Type 0
Disjoint [] ys = Unit {0}
Disjoint (x ∷ xs) ys = NotIn x ys × Disjoint xs ys

prev_apart :
    (h : Heap) (a : ℕ) (xs : List ℕ) (d : ℕ) (ys : List ℕ) (b : ℕ) (zs : List ℕ)
    → Chain h a (xs ++ d ∷ ys) b
    → Disjoint (a ∷ xs ++ d ∷ ys) zs
    → NotIn (h.prev d) zs
prev_apart h a [] d ys b zs ch e = NotIn-eq zs ch.1 e.0
prev_apart h a (x ∷ xs) d ys b zs ch e = prev_apart h x xs d ys b zs ch.2 e.1

next_apart :
    (h : Heap) (a : ℕ) (xs : List ℕ) (d : ℕ) (ys : List ℕ) (b : ℕ) (zs : List ℕ)
    → Chain h a (xs ++ d ∷ ys) b
    → Disjoint (xs ++ d ∷ ys) zs
    → NotIn b zs
    → NotIn (h.next d) zs
next_apart h a [] d [] b zs ch e n = NotIn-eq zs ch.2.0 n
next_apart h a [] d (y ∷ ys) b zs ch e n = NotIn-eq zs ch.2.0 e.1.0
next_apart h a (x ∷ xs) d ys b zs ch e n = next_apart h x xs d ys b zs ch.2 e.1 n

end_apart :
    (h : Heap) (a : ℕ) (xs : List ℕ) (b : ℕ) (zs : List ℕ)
    → Chain h a xs b
    → Disjoint (a ∷ xs) zs
    → NotIn (h.prev b) zs
end_apart h a [] b zs ch e = NotIn-eq zs ch.1 e.0
end_apart h a (x ∷ xs) b zs ch e = end_apart h x xs b zs ch.2 e.1

node_apart : (xs : List ℕ) (d : ℕ) (ys zs : List ℕ) → Disjoint (xs ++ d ∷ ys) zs → NotIn d zs
node_apart [] d ys zs e = e.0
node_apart (x ∷ xs) d ys zs e = node_apart xs d ys zs e.1

-- Unlinking a node of a ring leaves a ring apart from it as it was.
unlinked_apart :
    (h : Heap) (a : ℕ) (xs : List ℕ) (d : ℕ) (ys : List ℕ) (b : ℕ) (zs : List ℕ)
    → IsRing h a (xs ++ d ∷ ys)
    → IsRing h b zs
    → Disjoint (a ∷ xs ++ d ∷ ys) (b ∷ zs)
    → IsRing (unlinked h d) b zs
unlinked_apart h a xs d ys b zs r s e =
    let np = prev_apart h a xs d ys a (b ∷ zs) r.chain e in
    let nn = next_apart h a xs d ys a (b ∷ zs) r.chain e.1 e.0 in
    record {
      chain = Chain-unlinked_off h d b zs b np nn.1 nn.0 s.chain;
      distinct = s.distinct;
      valid = s.valid;
    }

Disjoint-cons : (x : ℕ) (xs ys : List ℕ) → NotIn x ys → Disjoint ys xs → Disjoint ys (x ∷ xs)
Disjoint-cons x xs [] n e = tt
Disjoint-cons x xs (y ∷ ys) n e = (((λ q. n.0 (sym q)), e.0), Disjoint-cons x xs ys n.1 e.1)

Disjoint-nil : (ys : List ℕ) → Disjoint ys []
Disjoint-nil [] = tt
Disjoint-nil (y ∷ ys) = (tt, Disjoint-nil ys)

Disjoint-symm : (xs ys : List ℕ) → Disjoint xs ys → Disjoint ys xs
Disjoint-symm [] ys e = Disjoint-nil ys
Disjoint-symm (x ∷ xs) ys e = Disjoint-cons x xs ys e.0 (Disjoint-symm xs ys e.1)

Disjoint-remove :
    (xs : List ℕ) (d : ℕ) (ys zs : List ℕ) → Disjoint (xs ++ d ∷ ys) zs → Disjoint (xs ++ ys) zs
Disjoint-remove [] d ys zs e = e.1
Disjoint-remove (x ∷ xs) d ys zs e = (e.0, Disjoint-remove xs d ys zs e.1)

node_distinct :
    (xs : List ℕ) (d : ℕ) (ys : List ℕ) → AllDistinct (xs ++ d ∷ ys) → NotIn d (xs ++ ys)
node_distinct [] d ys e = e.0
node_distinct (x ∷ xs) d ys e =
    ((λ q. (NotIn-append x xs (d ∷ ys) e.0).1.0 (sym q)), node_distinct xs d ys e.1)

-- Linking a node into one ring leaves a ring apart from it, and from the node, as it was.
linked_apart :
    (g : Heap) (a : ℕ) (xs : List ℕ) (b : ℕ) (zs : List ℕ) (d : ℕ)
    → IsRing g a xs
    → IsRing g b zs
    → Disjoint (b ∷ zs) (a ∷ xs)
    → NotIn d (a ∷ xs)
    → IsRing (linked g (g.prev b) b d) a xs
linked_apart g a xs b zs d r s e n = record {
  chain =
      Chain-linked_off g (g.prev b) b d a xs a (n.0, n) (end_apart g b zs b (a ∷ xs) s.chain e)
        e.0.1 e.0.0 r.chain;
  distinct = r.distinct;
  valid = r.valid;
}

-- Of two rings with no node in common, moving a node of the one to the other passes every assertion,
-- takes it out of the first, whose other nodes keep their order, and puts it at the end of the second.
pub move-IsRing :
    (h : Heap) (a : ℕ) (xs : List ℕ) (d : ℕ) (ys : List ℕ) (b : ℕ) (zs : List ℕ)
    → IsRing h a (xs ++ d ∷ ys)
    → IsRing h b zs
    → Disjoint (a ∷ xs ++ d ∷ ys) (b ∷ zs)
    → (h' : Heap) × (move d b h ≡ some h') × IsRing h' a (xs ++ ys) × IsRing h' b (zs ++ d ∷ [])
unfolding move
move-IsRing h a xs d ys b zs r s e =
    let g = unlinked h d in
    let s' = unlinked_apart h a xs d ys b zs r s e in
    let r' = unlinked-IsRing h a xs d ys r in
    let apart = node_apart xs d ys (b ∷ zs) e.1 in
    let live = (NotIn-append null (a ∷ xs) (d ∷ ys) r.valid).1.0 in
    let fresh : NotIn d (null ∷ b ∷ zs) = ((λ q. live (sym q)), apart) in
    (
      linked g (g.prev b) b d,
      rw (list_del_heap h a xs d ys r, move) (list_add_before_heap g b zs s' d fresh),
      linked_apart g a (xs ++ ys) b zs d r' s'
          (Disjoint-symm (a ∷ xs ++ ys) (b ∷ zs) (Disjoint-remove (a ∷ xs) d ys (b ∷ zs) e))
          (node_distinct (a ∷ xs) d ys r.distinct),
      linked_end-IsRing g b zs s' d fresh,
    )
