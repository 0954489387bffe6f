-- ===== src/Tests/Lists.antt =====
-- Inputs for the theorems on the intrusive lists.
use njuos.Prelude.{◌≡◌, [], ◌∷◌, some, arith, ◌==◌, if◌then◌else◌}
use njuos.ListHead.{Heap}
use njuos.ListHead.Ring.{IsRing}
use njuos.ListHead.Moves.{move, move-IsRing}

-- The ring of head 1 holds 2 and 3, that of head 4 holds 5.
abbrev two_rings : Heap
two_rings = record {
  next = λ p.
      if p == 1
      then 2
      else (if p == 2 then 3 else (if p == 3 then 1 else (if p == 4 then 5 else 4)));
  prev = λ p.
      if p == 1
      then 3
      else (if p == 2 then 1 else (if p == 3 then 2 else (if p == 4 then 5 else 4)));
}

first-IsRing : IsRing two_rings 1 (2 ∷ 3 ∷ [])
first-IsRing = record { chain = omega arith; distinct = omega arith; valid = omega arith }

second-IsRing : IsRing two_rings 4 (5 ∷ [])
second-IsRing = record { chain = omega arith; distinct = omega arith; valid = omega arith }

move-IsRing_example :
    (h' : Heap) × (move 2 4 two_rings ≡ some h') × IsRing h' 1 (3 ∷ []) × IsRing h' 4 (5 ∷ 2 ∷ [])
move-IsRing_example =
    move-IsRing two_rings 1 [] 2 (3 ∷ []) 4 (5 ∷ []) first-IsRing second-IsRing (omega arith)
