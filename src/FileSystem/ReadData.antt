-- ===== src/FileSystem/ReadData.antt =====
-- `read_data` of src/kernel/file_system/fm_syscall.c: the bytes of a file through the direct blocks and
-- the three levels of index blocks. Each loop is on fuel: every round of it reads a byte at least, so
-- the length that is still wanted bounds its rounds.
pub mod Content
pub mod Levels
use njuos.Prelude.{
  ℕ, zero, suc, ◌+◌, ◌-◌, ◌*◌, ◌/◌, ◌%◌, Bool, ◌&&◌, List, [], ◌++◌, min, ltb, leb, if◌then◌else◌,
}
use njuos.FileSystem.{
  Disk, INode, dev_read, entry, block_size, level_end0, level_end1, level_end2, level_end3,
  index_one_size, index_two_size,
}

-- The variables of the loops, and the bytes that have gone to `buf`. A negative `len` reads nothing, as
-- 0 does.
pub record Reading : Type 0 where
  pub file_offset : ℕ
  pub readed_len : ℕ
  pub len : ℕ
  pub buf : List ℕ

-- `cur_read_len`
pub cur_read_len : ℕ → ℕ → ℕ → ℕ
cur_read_len len file_offset size =
    let block_rest = block_size - file_offset % block_size in
    let cur_len = if ltb block_rest len then block_rest else len in
    if ltb cur_len (size - file_offset) then cur_len else size - file_offset

-- `while(file_offset < end && len > 0)`
abbrev pub more : ℕ → Reading → Bool
more end s = ltb s.file_offset end && ltb 0 s.len

module _ (d : Disk) (n : INode) where
  -- The common end of the loops' bodies: a piece of one block is read from `ramdisk_offset` on.
  pub read_chunk : ℕ → Reading → Reading
  read_chunk block s =
      let cur_len = cur_read_len s.len s.file_offset n.size in
      record {
        file_offset = s.file_offset + cur_len;
        readed_len = s.readed_len + cur_len;
        len = s.len - cur_len;
        buf = s.buf ++ dev_read d (block + s.file_offset % block_size) cur_len;
      }

  -- The loop over the direct blocks.
  pub read_direct : (end fuel : ℕ) → Reading → Reading
  read_direct end zero s = s
  read_direct end (suc fuel) s =
      let next = read_direct end fuel (read_chunk (n.index (s.file_offset / block_size)) s) in
      if more end s then next else s

  -- The loop over the blocks that an index block lists, the innermost of each level.
  pub read_table : (table end fuel i : ℕ) → Reading → Reading
  read_table table end zero i s = s
  read_table table end (suc fuel) i s =
      let next = read_table table end fuel (i + 1) (read_chunk (entry d table i) s) in
      if more end s then next else s

  -- The body of the outer loop of the second level: the blocks under entry `i` of the first table.
  pub read_second : (table i : ℕ) → Reading → Reading
  read_second table i s =
      let temp_end = level_end1 + i * index_one_size in
      read_table (entry d table i) (min n.size (level_end1 + (i + 1) * index_one_size)) (s.len + 1)
        ((s.file_offset - temp_end) / block_size) s

  pub read_tables : (table end fuel i : ℕ) → Reading → Reading
  read_tables table end zero i s = s
  read_tables table end (suc fuel) i s =
      let next = read_tables table end fuel (i + 1) (read_second table i s) in
      if more end s then next else s

  -- The third level. The code looks the entry `j` up in `index_block1`, the table of the first level,
  -- not in `index_block2`, which it has just read.
  pub read_third : (table i j : ℕ) → Reading → Reading
  read_third table i j s =
      let temp_end = level_end2 + i * index_two_size + j * index_one_size in
      read_table (entry d table j)
        (min n.size (level_end2 + i * index_two_size + (j + 1) * index_one_size)) (s.len + 1)
        ((s.file_offset - temp_end) / block_size) s

  pub read_thirds : (table end i fuel j : ℕ) → Reading → Reading
  read_thirds table end i zero j s = s
  read_thirds table end i (suc fuel) j s =
      let next = read_thirds table end i fuel (j + 1) (read_third table i j s) in
      if more end s then next else s

  pub read_trees : (table end fuel i : ℕ) → Reading → Reading
  read_trees table end zero i s = s
  read_trees table end (suc fuel) i s =
      let temp_end = level_end2 + i * index_two_size in
      let s' =
        read_thirds table (min n.size (level_end2 + (i + 1) * index_two_size)) i (s.len + 1)
          ((s.file_offset - temp_end) / index_one_size) s in
      let next = read_trees table end fuel (i + 1) s' in if more end s then next else s

  pub read_level0 : Reading → Reading
  read_level0 s = if more level_end0 s then read_direct (min n.size level_end0) (s.len + 1) s else s

  pub read_level1 : Reading → Reading
  read_level1 s =
      if more level_end1 s
      then read_table (n.index 12) (min n.size level_end1) (s.len + 1)
          ((s.file_offset - level_end0) / block_size) s
      else s

  pub read_level2 : Reading → Reading
  read_level2 s =
      if more level_end2 s
      then read_tables (n.index 13) (min n.size level_end2) (s.len + 1)
          ((s.file_offset - level_end1) / index_one_size) s
      else s

  pub read_level3 : Reading → Reading
  read_level3 s =
      if ltb 0 s.len
      then read_trees (n.index 14) (min n.size level_end3) (s.len + 1)
          ((s.file_offset - level_end2) / index_two_size) s
      else s

  -- `read_data`, with its early returns; the result holds the length and the bytes read.
  pub read_data : (file_offset len : ℕ) → Reading
  read_data file_offset len =
      let s0 =
        read_level0 (record { file_offset = file_offset; readed_len = 0; len = len; buf = [] }) in
      if leb n.size s0.file_offset
      then s0
      else (let s1 = read_level1 s0 in
          if leb n.size s1.file_offset
          then s1
          else (let s2 = read_level2 s1 in
              if ltb n.size s2.file_offset then s2 else read_level3 s2))
