-- ===== src/FileSystem/Disks.antt =====
-- Laws of the byte-wise reads and writes of the disk.
use njuos.Prelude.{ℕ, zero, suc, ◌+◌, ◌-◌, ◌≤◌, ◌<◌, ◌≡◌, refl, ap, ◌⊎◌, arith, length}
use njuos.FileSystem.{Disk, dev_read, dev_write}

module _ (d : Disk) (addr len : ℕ) (src : ℕ → ℕ) where
  -- The byte `o` of what is written stands at its place ...
  pub dev_write_in : (o a : ℕ) → a ≡ addr + o → o < len → dev_write d addr len src a ≡ src o
  unfolding dev_write
  dev_write_in o a e h = ground (arith, ap src (same o a e))
    where
      same : (o a : ℕ) → a ≡ addr + o → a - addr ≡ o
      same o a e = omega arith

  -- ... and all else stays.
  pub dev_write_off : (a : ℕ) → (a < addr) ⊎ (addr + len ≤ a) → dev_write d addr len src a ≡ d a
  unfolding dev_write
  dev_write_off a h = ground arith

pub length-dev_read : (d : Disk) (addr n : ℕ) → length (dev_read d addr n) ≡ n
unfolding dev_read
length-dev_read d addr zero = refl
length-dev_read d addr (suc n) = ap suc (length-dev_read d (addr + 1) n)
