-- ===== src/FileSystem/Release/Small.antt =====
-- What `release_block` does to files that use the direct blocks only.
use njuos.Prelude.{
  ℕ, ◌+◌, ◌-◌, ◌/◌, ◌%◌, ◌^◌, ◌≤◌, ◌<◌, ◌≡◌, ◌⊎◌, inl, inr, Bool-cases, refl, none, some, arith,
  ltb, false, update,
}
use njuos.FileSystem.{Disk, INode, block_base, block_size, block_num, level_end0}
use njuos.FileSystem.Bitmap.{Bitmap, set_block_idle}
use njuos.FileSystem.Release.{
  Releasing, give_back, release_block, release_level0, release_level1, release_level2,
  release_level3,
}

-- The index in `block_bitmap` of the address in `index[12]`.
abbrev pub spare : INode → ℕ
spare n = (n.index 12 + 2 ^ 32 - block_base) % 2 ^ 32 / block_size

-- A file that ends inside the direct blocks gets none of them back. `release_block` at any offset before
-- its end takes `index[12]`, which such a file does not use, for the address of a block: it frees that
-- block and no other when the bitmap has it, and leaves the bitmap when it does not.
pub release_block_small :
    (d : Disk) (n : INode) (b : Bitmap) (file_offset : ℕ)
    → n.size ≤ level_end0
    → file_offset < n.size
    → ((spare n < block_num)
        × (s : Releasing) × (release_block d n file_offset b ≡ some s)
        × (s.bitmap ≡ record b { bits = update b.bits (spare n) 0 }))
      ⊎ ((block_num ≤ spare n) × (release_block d n file_offset b ≡ none))
unfolding release_block release_level0 release_level1 release_level2 release_level3 give_back
    set_block_idle
release_block_small d n b file_offset h lt = elim (Bool-cases (ltb (spare n) block_num)) [
  | inl t ↦
      let small : spare n < block_num = ground arith in
      inl (
        small,
        record {
          bitmap = record b { bits = update b.bits (spare n) 0 };
          file_offset = level_end0 + block_size;
          outside = false;
        },
        ground arith,
        refl,
      )
  | inr t ↦ let large : block_num ≤ spare n = ground arith in inr (large, ground arith)
]

-- At the end of the file, or behind it, `release_block` frees nothing.
pub release_block_end :
    (d : Disk) (n : INode) (b : Bitmap) (file_offset : ℕ)
    → n.size ≤ file_offset
    → release_block d n file_offset b
      ≡ some (record { bitmap = b; file_offset = file_offset; outside = false })
unfolding release_block release_level0 release_level1 release_level2 release_level3
release_block_end d n b file_offset h = ground arith
