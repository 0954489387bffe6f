-- ===== src/FileSystem/WriteData.antt =====
-- `write_data` of src/kernel/file_system/fm_syscall.c: the bytes of a file written through the direct
-- blocks and the three levels of index blocks, which grow with it. Each loop is on fuel: every round
-- writes a byte at least, so the length that is left bounds its rounds. `none` is a search for a free
-- block that does not end.
pub mod Owned
pub mod Direct
pub mod ReadBack
use njuos.Prelude.{
  ℕ, zero, suc, ◌+◌, ◌-◌, ◌*◌, ◌/◌, ◌%◌, Bool, true, false, ◌&&◌, List, Option, none, some, ltb,
  ◌==◌, if◌then◌else◌, update, get_or, drop,
}
use njuos.FileSystem.{
  Disk, INode, dev_write, entry, byte_of, block_size, level_end0, level_end1, level_end2,
  level_end3, index_one_size, index_two_size,
}
use njuos.FileSystem.Bitmap.{Bitmap, get_free_block}

-- The disk and its bitmap, the inode, the words of `index_block1` to `index_block3`, which keep what an
-- earlier call left there, and the variables of the loops; `buf` is what is still to be written.
pub record Writing : Type 0 where
  pub disk : Disk
  pub bitmap : Bitmap
  pub inode : INode
  pub blocks : ℕ → ℕ → ℕ
  pub file_offset : ℕ
  pub writed_len : ℕ
  pub len : ℕ
  pub buf : List ℕ

-- `while(file_offset < end && len > 0)`
abbrev pub going : ℕ → Writing → Bool
going end s = ltb s.file_offset end && ltb 0 s.len

-- The common end of the loops' bodies: a piece is written in the block at `block`.
pub write_chunk : ℕ → Writing → Writing
write_chunk block s =
    let at = s.file_offset % block_size in
    let rest = block_size - at in
    let cur_len = if ltb rest s.len then rest else s.len in
    record s {
      disk = dev_write s.disk (block + at) cur_len (λ k. get_or s.buf k 0);
      inode = record s.inode { size = s.inode.size + cur_len };
      file_offset = s.file_offset + cur_len;
      writed_len = s.writed_len + cur_len;
      len = s.len - cur_len;
      buf = drop cur_len s.buf;
    }

-- The body of the loop over the direct blocks: at the start of a block, a free one is taken.
pub write_round : Writing → Option Writing
write_round s =
    let i = s.file_offset / block_size in
    if s.file_offset % block_size == 0
    then (elim (get_free_block s.bitmap) [
      | none ↦ none
      | some (addr, bitmap) ↦ some (
          write_chunk addr (record s {
            bitmap = bitmap;
            inode = record s.inode { index = update s.inode.index i addr };
          }))
    ])
    else some (write_chunk (s.inode.index i) s)

pub write_direct : ℕ → Writing → Option Writing
write_direct zero s = some s
write_direct (suc fuel) s =
    if going level_end0 s
    then (elim (write_round s) [ none ↦ none | some s' ↦ write_direct fuel s' ])
    else some s

-- `dev_read` and `dev_write` of index block `b` as a whole.
pub load_block : (b addr : ℕ) → Writing → Writing
load_block b addr s = record s { blocks = update s.blocks b (entry s.disk addr) }

pub store_block : (b addr : ℕ) → Writing → Writing
store_block b addr s = record s {
  disk = dev_write s.disk addr block_size (λ k. byte_of (s.blocks b (k / 4)) (k % 4));
}

-- Entry `i` of index block `b`: a new block where the file reaches it now, which sets the flag, and
-- otherwise what stands there.
pub take_entry : (b i : ℕ) → (fresh flag : Bool) → Writing → Option (ℕ × Bool × Writing)
take_entry b i fresh flag s =
    if fresh
    then (elim (get_free_block s.bitmap) [
      | none ↦ none
      | some (addr, bitmap) ↦ some (
        addr,
        true,
        record s { bitmap = bitmap; blocks = update s.blocks b (update (s.blocks b) i addr) },
      )
    ])
    else some (s.blocks b i, flag, s)

-- The loop over the blocks that index block `b` lists, the innermost of each level.
pub write_leaves : (b end fuel i : ℕ) → Bool → Writing → Option (Bool × Writing)
write_leaves b end zero i flag s = some (flag, s)
write_leaves b end (suc fuel) i flag s =
    if going end s
    then (elim (take_entry b i (s.file_offset % block_size == 0) flag s) [
      | none ↦ none
      | some (block, flag', s') ↦ write_leaves b end fuel (i + 1) flag' (write_chunk block s')
    ])
    else some (flag, s)

-- A table under entry `i` of index block `b` goes through index block `b + 1`: it is read unless it is
-- new, and written back if `body` has set its flag.
pub within :
    (b i : ℕ)
    → (fresh flag : Bool) → (Writing → Option (Bool × Writing))
    → Writing
    → Option (Bool × Writing)
within b i fresh flag body s = elim (take_entry b i fresh flag s) [
  | none ↦ none
  | some (addr, flag1, s1) ↦ elim (body (if fresh then s1 else load_block (b + 1) addr s1)) [
    | none ↦ none
    | some (flag2, s2) ↦ some (flag1, if flag2 then store_block (b + 1) addr s2 else s2)
  ]
]

-- The loop over the tables that index block `b` lists, of a part of the file that starts at `start`.
pub write_tables : (b start end fuel i : ℕ) → Bool → Writing → Option (Bool × Writing)
write_tables b start end zero i flag s = some (flag, s)
write_tables b start end (suc fuel) i flag s =
    let pre_end = start + i * index_one_size in
    if going end s
    then (elim (within b i (s.file_offset == pre_end) flag
        (write_leaves (b + 1) (pre_end + index_one_size) s.len
          ((s.file_offset - pre_end) / block_size) false)
        s) [ none ↦ none | some (flag', s') ↦ write_tables b start end fuel (i + 1) flag' s' ])
    else some (flag, s)

-- The outer loop of the third level.
pub write_trees : (fuel i : ℕ) → Bool → Writing → Option (Bool × Writing)
write_trees zero i flag s = some (flag, s)
write_trees (suc fuel) i flag s =
    let pre_end = level_end2 + i * index_two_size in
    if going level_end3 s
    then (elim (within 1 i (s.file_offset == pre_end) flag
        (write_tables 2 pre_end (pre_end + index_two_size) s.len
          ((s.file_offset - pre_end) / index_one_size) false)
        s) [ none ↦ none | some (flag', s') ↦ write_trees fuel (i + 1) flag' s' ])
    else some (flag, s)

-- The start of a level: its first table is `inode->index[slot]`, made where the file enters the level.
-- An older one is read from `inode->index[old]`.
pub leave_level : ℕ → Option (Bool × Writing) → Option Writing
leave_level addr none = none
leave_level addr (some (flag, s)) = some (if flag then store_block 1 addr s else s)

pub enter_level :
    (start slot old : ℕ) → (Writing → Option (Bool × Writing)) → Writing → Option Writing
enter_level start slot old body s =
    if s.file_offset == start
    then (elim (get_free_block s.bitmap) [
      | none ↦ none
      | some (addr, bitmap) ↦ leave_level addr (
          body (record s {
            bitmap = bitmap;
            inode = record s.inode { index = update s.inode.index slot addr };
          }))
    ])
    else leave_level (s.inode.index old) (body (load_block 1 (s.inode.index old) s))

pub write_level1 : Writing → Option Writing
write_level1 s =
    if going level_end1 s
    then enter_level level_end0 12 12
        (write_leaves 1 level_end1 s.len ((s.file_offset - level_end0) / block_size) false) s
    else some s

pub write_level2 : Writing → Option Writing
write_level2 s =
    if going level_end2 s
    then enter_level level_end1 13 13
        (write_tables 1 level_end1 level_end2 s.len ((s.file_offset - level_end1) / index_one_size)
          false)
        s
    else some s

-- The third level keeps its table in `index[14]`, but reads an older one from `index[13]`.
pub write_level3 : Writing → Option Writing
write_level3 s =
    if going level_end3 s
    then enter_level level_end2 14 13
        (write_trees s.len ((s.file_offset - level_end2) / index_two_size) false) s
    else some s

-- `write_data`; the result holds `writed_len` and all that the call has changed.
pub write_data : Writing → Option Writing
write_data s = elim (write_direct s.len s) [
  | none ↦ none
  | some s1 ↦ elim (write_level1 s1) [
    | none ↦ none
    | some s2 ↦ elim (write_level2 s2) [ none ↦ none | some s3 ↦ write_level3 s3 ]
  ]
]
