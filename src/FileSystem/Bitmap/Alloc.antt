-- ===== src/FileSystem/Bitmap/Alloc.antt =====
-- What the allocators of fm_backstage.c promise: a block or inode that was free, marked, and given back
-- by the release.
use njuos.Prelude.{
  ℕ, ◌+◌, ◌*◌, ◌<◌, ◌≡◌, ◌≢◌, none, some, arith, update, update_self, update_undo, ap,
}
use njuos.FileSystem.{block_base, block_size, block_num, inode_num}
use njuos.FileSystem.Bitmap.{Bitmap, get_free_block, get_free_disk_inode, release_disk_inode}
use njuos.FileSystem.Bitmap.Scan.{take_free_lem, take_free_full}

-- The address of block `i`.
abbrev pub block_addr : ℕ → ℕ
block_addr i = block_base + i * block_size

-- With some block free, `get_free_block` returns the address of a block that was free, inside the four
-- megabytes of the disk, marks it and no other, and keeps the search index in range.
pub get_free_block_lem :
    (b : Bitmap) (j : ℕ)
    → b.at < block_num
    → j < block_num
    → b.bits j ≡ 0
    → (i : ℕ) × (get_free_block b
        ≡ some (block_addr i, record { bits = update b.bits i 1; at = i }))
      × (i < block_num)
      × (b.bits i ≡ 0)
      × (block_addr i + block_size < 4 * 1024 * 1024)
unfolding get_free_block
get_free_block_lem b j p q z =
    let (i, e, lt, free) = take_free_lem block_num b j p q z in
    let b' : Bitmap = record { bits = update b.bits i 1; at = i } in
    (i, rw (e, get_free_block) (ap (λ (a : ℕ). some (a, b')) (omega arith)), lt, free, omega arith)

-- With every block taken, `get_free_block` never returns.
pub get_free_block_full :
    (b : Bitmap)
    → b.at < block_num
    → ((j : ℕ) → j < block_num → b.bits j ≢ 0)
    → get_free_block b ≡ none
unfolding get_free_block
get_free_block_full b p h = rw (take_free_full block_num b p h, get_free_block)

-- With some inode free, `get_free_disk_inode` returns one that was free and marks it, and
-- `release_disk_inode` gives every entry of the bitmap its old value.
pub release_disk_inode-get_free_disk_inode :
    (b : Bitmap) (j : ℕ)
    → b.at < inode_num
    → j < inode_num
    → b.bits j ≡ 0
    → (i : ℕ) × (b' : Bitmap) × (get_free_disk_inode b ≡ some (i, b'))
      × (i < inode_num)
      × (b.bits i ≡ 0)
      × (b'.bits i ≡ 1)
      × ((k : ℕ) → (release_disk_inode i b').bits k ≡ b.bits k)
unfolding get_free_disk_inode release_disk_inode
release_disk_inode-get_free_disk_inode b j p q z =
    let (i, e, lt, free) = take_free_lem inode_num b j p q z in
    (
      i,
      record { bits = update b.bits i 1; at = i },
      e,
      lt,
      free,
      update_self b.bits i 1,
      λ k. update_undo b.bits i 0 1 k free,
    )
