-- ===== src/Process/Counts.antt =====
-- How often a process stands in a list.
use njuos.Prelude.{
  ℕ, ◌+◌, ◌-◌, ◌<◌, ◌≡◌, refl, List, [], ◌∷◌, ◌++◌, Option, none, some, arith, ◌==◌, if◌then◌else◌,
  true, Bool-cases, inl, inr, ap, sym, append-nil,
}
use njuos.Process.Scheduler.{without, is_in, insert_before}

abbrev pub count : ℕ → List ℕ → ℕ
count p [] = 0
count p (q ∷ qs) = (if p == q then 1 else 0) + count p qs

abbrev pub is_at : ℕ → ℕ → ℕ
is_at p q = if p == q then 1 else 0

pub count-append : (p : ℕ) (xs ys : List ℕ) → count p (xs ++ ys) ≡ count p xs + count p ys
count-append p [] ys = omega arith
count-append p (x ∷ xs) ys = omega (arith, count-append p xs ys)

pub count-without : (p q : ℕ) (xs : List ℕ) → count p (without q xs) ≡ count p xs - is_at p q
count-without p q [] = omega arith
count-without p q (x ∷ xs) = ground (arith, count-without p q xs)

pub count-insert_before :
    (p q : ℕ) (c : Option ℕ) (xs : List ℕ) → count p (insert_before c q xs) ≡ is_at p q + count p xs
unfolding insert_before
count-insert_before p q none xs = omega (arith, count-append p xs (q ∷ []))
count-insert_before p q (some c) [] = refl
count-insert_before p q (some c) (x ∷ xs) = ground (arith, count-insert_before p q (some c) xs)

pub is_in-count : (p : ℕ) (xs : List ℕ) → is_in p xs ≡ true → 0 < count p xs
is_in-count p [] h = ground arith
is_in-count p (x ∷ xs) h = ground (arith, is_in-count p xs)

pub count-is_in : (p : ℕ) (xs : List ℕ) → 0 < count p xs → is_in p xs ≡ true
count-is_in p [] h = absurd (omega arith)
count-is_in p (x ∷ xs) h = ground (arith, count-is_in p xs)

-- Where `insert_before` puts a process.
pub insert_before_lem :
    (c : Option ℕ) (p : ℕ) (xs : List ℕ)
    → (front : List ℕ) × (back : List ℕ) × (xs ≡ front ++ back)
      × (insert_before c p xs ≡ front ++ p ∷ back)
unfolding insert_before
insert_before_lem none p xs = (xs, [], sym (append-nil xs), refl)
insert_before_lem (some c) p [] = ([], [], refl, refl)
insert_before_lem (some c) p (x ∷ xs) = elim (Bool-cases (x == c)) [
  | inl t ↦ ([], x ∷ xs, refl, rw t refl)
  | inr t ↦
      let (front, back, whole, put) = insert_before_lem (some c) p xs in
      (x ∷ front, back, ap (◌∷◌ x) whole, rw (t, put) refl)
]
