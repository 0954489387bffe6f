-- ===== src/FileSystem/Bitmap/Scan.antt =====
-- The circular search of a bitmap: it finds a free entry if there is one, and otherwise does not end.
use njuos.Prelude.{
  ℕ, zero, suc, ◌+◌, ◌-◌, ◌%◌, ◌<◌, ◌≡◌, ◌≢◌, refl, sym, ap, ◌∙◌, Option, none, some, arith, ◌==◌,
  Bool-cases, inl, inr, update,
}
use native.Mathlib.Nat.{mod-add-mod, mod-eq_of_lt}
use njuos.FileSystem.Bitmap.{Bitmap, next_free, take_free}

-- What a search that ends has found.
pub record Found (bits : ℕ → ℕ) (n : ℕ) (r : Option ℕ) : Type 0 where
  pub entry : ℕ
  pub result : r ≡ some entry
  pub in_range : entry < n
  pub free : bits entry ≡ 0

module _ (bits : ℕ → ℕ) (n : ℕ) where
  -- `d` steps ahead of the start there is a free entry.
  pub next_free-Found :
      (fuel d i : ℕ)
      → i < n
      → d < fuel
      → bits ((i + d) % n) ≡ 0
      → Found bits n (next_free bits n fuel i)
  unfolding next_free
  next_free-Found zero d i p q z = absurd (omega arith)
  next_free-Found (suc fuel) zero i p q z =
      let here : bits i ≡ 0 =
        ap bits (sym (ap (λ (k : ℕ). k % n) (omega arith) ∙ mod-eq_of_lt p)) ∙ z in
      record { entry = i; result = ground arith; in_range = p; free = here }
  next_free-Found (suc fuel) (suc d) i p q z = elim (Bool-cases (bits i == 0)) [
    | inl e ↦ record { entry = i; result = rw e; in_range = p; free = ground arith }
    | inr e ↦ rw e (
        next_free-Found fuel d ((i + 1) % n) (omega arith) (omega arith)
          (ap bits (mod-add-mod (i + 1) n d ∙ ap (λ (k : ℕ). k % n) (omega arith)) ∙ z))
  ]

  -- Without one it goes on for ever.
  next_free_full :
      ((j : ℕ) → j < n → bits j ≢ 0) → (fuel i : ℕ) → i < n → next_free bits n fuel i ≡ none
  unfolding next_free
  next_free_full h zero i p = refl
  next_free_full h (suc fuel) i p = ground (arith, h i, next_free_full h fuel ((i + 1) % n))

-- How far ahead of `i` the entry `j` lies.
abbrev pub ahead : ℕ → ℕ → ℕ → ℕ
ahead n i j = (j + n - i) % n

pub ahead_lem : (n i j : ℕ) → i < n → j < n → ((i + ahead n i j) % n ≡ j) × (ahead n i j < n)
ahead_lem n i j p q = (grind arith, omega arith)

-- With the start in range and some entry `j` free, `take_free` succeeds: it returns a free entry in
-- range and marks that entry and no other.
pub take_free_lem :
    (n : ℕ) (b : Bitmap) (j : ℕ)
    → b.at < n
    → j < n
    → b.bits j ≡ 0
    → (i : ℕ) × (take_free n b ≡ some (i, record { bits = update b.bits i 1; at = i }))
      × (i < n)
      × (b.bits i ≡ 0)
unfolding take_free
take_free_lem n b j p q z =
    let (there, near) = ahead_lem n b.at j p q in
    let f =
      next_free-Found b.bits n (n + 1) (ahead n b.at j) b.at p (omega arith)
        (ap b.bits there ∙ z) in
    (f.entry, ground (arith, f.result), f.in_range, f.free)

-- A full bitmap holds the search for ever, whatever the fuel.
pub take_free_full :
    (n : ℕ) (b : Bitmap) → b.at < n → ((j : ℕ) → j < n → b.bits j ≢ 0) → take_free n b ≡ none
unfolding take_free
take_free_full n b p h = rw (next_free_full b.bits n h (n + 1) b.at p, take_free)
