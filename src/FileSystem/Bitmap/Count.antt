-- ===== src/FileSystem/Bitmap/Count.antt =====
-- How many entries of a bitmap are free.
use njuos.Prelude.{
  ℕ, zero, suc, ◌+◌, ◌<◌, ◌≡◌, ◌==◌, if◌then◌else◌, update, arith, Bool-cases, inl, inr,
}

unfoldable pub free_below : (bits : ℕ → ℕ) (n : ℕ) → ℕ
free_below bits zero = 0
free_below bits (suc n) = if bits n == 0 then free_below bits n + 1 else free_below bits n

free_below_apart :
    (bits : ℕ → ℕ) (n i : ℕ) → n < i + 1 → free_below (update bits i 1) n ≡ free_below bits n
unfolding free_below
free_below_apart bits zero i h = omega arith
free_below_apart bits (suc n) i h = ground (arith, free_below_apart bits n i)

-- Marking a free entry leaves one less.
pub free_below-update :
    (bits : ℕ → ℕ) (n i : ℕ)
    → i < n
    → bits i ≡ 0
    → free_below (update bits i 1) n + 1 ≡ free_below bits n
unfolding free_below
free_below-update bits zero i h z = absurd (omega arith)
free_below-update bits (suc n) i h z =
    ground (arith, free_below-update bits n i, free_below_apart bits n i)

-- If some entry is free, here is one.
pub free_entry : (bits : ℕ → ℕ) (n : ℕ) → 0 < free_below bits n → (j : ℕ) × (j < n) × (bits j ≡ 0)
unfolding free_below
free_entry bits zero h = absurd (omega arith)
free_entry bits (suc n) h = elim (Bool-cases (bits n == 0)) [
  | inl e ↦ (n, omega arith, ground arith)
  | inr e ↦
      let rest : 0 < free_below bits n = ground arith in
      let (j, lt, z) = free_entry bits n rest in (j, omega arith, z)
]
