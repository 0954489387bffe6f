-- ===== src/FileSystem/Release.antt =====
-- `release_block` of src/kernel/file_system/fm_syscall.c: the blocks of a file behind an offset go back
-- to the bitmap. Each loop is on fuel: a round ends a block at least, so that the size of the file
-- bounds its rounds.
pub mod Small
use njuos.Prelude.{
  Bool, true, false, Option, none, some, ℕ, zero, suc, ◌+◌, ◌-◌, ◌*◌, ◌/◌, ◌%◌, ◌&&◌, min, ltb,
  ◌==◌, if◌then◌else◌,
}
use njuos.FileSystem.{
  Disk, INode, entry, block_size, level_end0, level_end1, level_end2, index_one_size,
  index_two_size,
}
use njuos.FileSystem.Bitmap.{Bitmap, set_block_idle}

-- The bitmap and `file_offset`; `outside` says that an index has left `block_bitmap`.
pub record Releasing : Type 0 where
  pub bitmap : Bitmap
  pub file_offset : ℕ
  pub outside : Bool

-- `set_block_idle` on the way.
pub give_back : (addr : ℕ) → Releasing → Releasing
give_back addr s = elim (set_block_idle addr s.bitmap) [
  | none ↦ record s { outside = true }
  | some b ↦ record s { bitmap = b }
]

-- `if(file_offset == start) set_block_idle(addr)`
pub release_at : (start addr : ℕ) → Releasing → Releasing
unfolding give_back
release_at start addr s = if s.file_offset == start then give_back addr s else s

-- The body of the innermost loops.
pub release_leaf : ℕ → Releasing → Releasing
unfolding give_back
release_leaf addr s =
    if s.file_offset % block_size == 0
    then record (give_back addr s) { file_offset = s.file_offset + block_size }
    else record s { file_offset = s.file_offset - s.file_offset % block_size + block_size }

module _ (d : Disk) (n : INode) where
  pub release_leaves : (table end fuel i : ℕ) → Releasing → Releasing
  release_leaves table end zero i s = s
  release_leaves table end (suc fuel) i s =
      let next = release_leaves table end fuel (i + 1) (release_leaf (entry d table i) s) in
      if ltb s.file_offset end then next else s

  -- The first level of `release_block` frees no block but `index[12]`, and that of a larger file only:
  -- it first sets the offset to the end of the direct blocks.
  pub release_level0 : Releasing → Releasing
  release_level0 s =
      if ltb s.file_offset n.size && ltb s.file_offset level_end0
      then (let i = level_end0 / block_size in
          let s' = if level_end0 % block_size == 0 then give_back (n.index i) s else s in
          record s' { file_offset = level_end0 - level_end0 % block_size + block_size })
      else s

  pub release_level1 : Releasing → Releasing
  release_level1 s =
      if ltb s.file_offset n.size && ltb s.file_offset level_end1
      then release_leaves (n.index 12) (min n.size level_end1) n.size
          ((s.file_offset - level_end0) / block_size) (release_at level_end0 (n.index 12) s)
      else s

  pub release_tables : (table fuel i : ℕ) → Releasing → Releasing
  release_tables table zero i s = s
  release_tables table (suc fuel) i s =
      let temp_end = level_end1 + i * index_one_size in
      let index_offset2 = entry d table i in
      let s' =
        release_leaves index_offset2 (min n.size (level_end1 + (i + 1) * index_one_size)) n.size
          ((s.file_offset - temp_end) / block_size) (release_at temp_end index_offset2 s) in
      let next = release_tables table fuel (i + 1) s' in
      if ltb s.file_offset (min n.size level_end2) then next else s

  pub release_level2 : Releasing → Releasing
  release_level2 s =
      if ltb s.file_offset n.size && ltb s.file_offset level_end2
      then release_tables (n.index 13) n.size ((s.file_offset - level_end1) / index_one_size)
          (release_at level_end1 (n.index 13) s)
      else s

  -- The two outer loops of the third level; the index `k` of the innermost counts from the start of
  -- the table `i`, not of the table `j`.
  pub release_thirds : (table i fuel j : ℕ) → Releasing → Releasing
  release_thirds table i zero j s = s
  release_thirds table i (suc fuel) j s =
      let temp_end1 = level_end2 + i * index_two_size in
      let temp_end2 = temp_end1 + j * index_one_size in
      let index_offset3 = entry d table j in
      let s' =
        release_leaves index_offset3 (min n.size (temp_end1 + (j + 1) * index_one_size)) n.size
          ((s.file_offset - temp_end1) / block_size) (release_at temp_end2 index_offset3 s) in
      let next = release_thirds table i fuel (j + 1) s' in
      if ltb s.file_offset (min n.size (level_end2 + (i + 1) * index_two_size)) then next else s

  pub release_trees : (table fuel i : ℕ) → Releasing → Releasing
  release_trees table zero i s = s
  release_trees table (suc fuel) i s =
      let temp_end1 = level_end2 + i * index_two_size in
      let index_offset2 = entry d table i in
      let s' =
        release_thirds index_offset2 i n.size ((s.file_offset - temp_end1) / index_one_size)
          (release_at temp_end1 index_offset2 s) in
      let next = release_trees table fuel (i + 1) s' in if ltb s.file_offset n.size then next else s

  pub release_level3 : Releasing → Releasing
  release_level3 s =
      if ltb s.file_offset n.size
      then release_trees (n.index 14) n.size ((s.file_offset - level_end2) / index_two_size)
          (release_at level_end2 (n.index 14) s)
      else s

  -- `none` is an index outside `block_bitmap`.
  pub release_block : (file_offset : ℕ) → Bitmap → Option Releasing
  release_block file_offset b =
      let start : Releasing = record { bitmap = b; file_offset = file_offset; outside = false } in
      let s = release_level3 (release_level2 (release_level1 (release_level0 start))) in
      if s.outside then none else some s
