-- ===== src/FileSystem/Bitmap.antt =====
-- src/kernel/file_system/fm_backstage.c: the bitmaps that tell which disk inodes and blocks are taken.
pub mod Scan
pub mod Alloc
pub mod Count
use njuos.Prelude.{
  ltb, if◌then◌else◌, ℕ, zero, suc, ◌+◌, ◌-◌, ◌*◌, ◌/◌, ◌%◌, ◌^◌, Bool, Option, none, some, ◌==◌,
  if◌then◌else◌, update,
}
use njuos.FileSystem.{block_num, inode_num, block_size, block_base}

-- A bitmap (one byte an entry) with the index where the next search starts.
pub record Bitmap : Type 0 where
  pub bits : ℕ → ℕ
  pub at : ℕ

-- `while (bitmap[i]) i = (i + 1) % n`, on fuel; `none` is a search that has not ended.
pub next_free : (bits : ℕ → ℕ) (n fuel i : ℕ) → Option ℕ
next_free bits n zero i = none
next_free bits n (suc fuel) i =
    let rest = next_free bits n fuel ((i + 1) % n) in if bits i == 0 then some i else rest

-- The search and the mark behind it. A round over all `n` entries is fuel enough.
pub take_free : ℕ → Bitmap → Option (ℕ × Bitmap)
unfolding next_free
take_free n b = elim (next_free b.bits n (n + 1) b.at) [
  | none ↦ none
  | some i ↦ some (i, record { bits = update b.bits i 1; at = i })
]

-- `get_free_block`: the address of a block, which is marked.
pub get_free_block : Bitmap → Option (ℕ × Bitmap)
unfolding take_free
get_free_block b = elim (take_free block_num b) [
  | none ↦ none
  | some (i, b') ↦ some ((block_base + i * block_size) % 2 ^ 32, b')
]

-- `set_block_idle`: `none` is an index outside `block_bitmap`.
unfoldable pub set_block_idle : ℕ → Bitmap → Option Bitmap
set_block_idle addr b =
    let index = (addr + 2 ^ 32 - block_base) % 2 ^ 32 / block_size in
    if ltb index block_num then some (record b { bits = update b.bits index 0 }) else none

-- `get_free_disk_inode`
pub get_free_disk_inode : Bitmap → Option (ℕ × Bitmap)
unfolding take_free
get_free_disk_inode b = take_free inode_num b

-- `release_disk_inode`. An index outside `inode_bitmap` is an entry behind the last, which nothing reads.
pub release_disk_inode : ℕ → Bitmap → Bitmap
release_disk_inode i b = record b { bits = update b.bits i 0 }
