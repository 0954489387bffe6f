-- ===== src/FileSystem/Directories/Deletions.antt =====
-- src/kernel/file_system/fm_syscall.c: what removes directory entries and deletes files and directories.
-- `none` is a loop that is still running when its fuel is gone, a block buffer that is not there, or an
-- index outside a bitmap.
pub mod Removal
use njuos.Prelude.{
  ℕ, zero, suc, ◌+◌, ◌-◌, ◌*◌, ◌/◌, ◌%◌, Bool, true, false, ◌||◌, not, List, [], ◌∷◌, Option, none,
  some, ltb, ◌==◌, if◌then◌else◌, length, drop,
}
use njuos.Strings.{equal_strings, strcpy}
use njuos.FileSystem.{
  Disk, INode, VNode, dev_read, dev_write, entry, byte_of, block_size, level_end0, level_end1,
  level_end2, index_one_size, index_two_size, dir, plain,
}
use njuos.FileSystem.Bitmap.{Bitmap, get_free_disk_inode, release_disk_inode}
use njuos.FileSystem.INodes.{read_inode, write_inode}
use njuos.FileSystem.ReadData.{read_data}
use njuos.FileSystem.WriteData.{Writing, write_data}
use njuos.FileSystem.Release.{Releasing, release_block}
use njuos.FileSystem.Directories.{
  DirEntry, entry_size, entries_len, string_at, entry_at, filled, read_dir_entry, cut_path,
  start_of,
}
use njuos.FileSystem.Directories.Changes.{Volume}

-- The words of `index_block2` behind a round of the loop of `_remove_inode_from_dir`; `old` is before.
-- On the third level the code looks its entry `i` up there, not in the block that it has just read.
pub second_table : Disk → INode → (old : ℕ → ℕ) → (offset : ℕ) → ℕ → ℕ
second_table d n old offset =
    if ltb offset level_end1
    then old
    else (if ltb offset level_end2
        then entry d (entry d (n.index 13) ((offset - level_end1) / index_one_size))
        else entry d (old ((offset - level_end2) / index_two_size)))

-- The address of a byte of the file in that round.
pub place_of : Disk → INode → (old : ℕ → ℕ) → (offset : ℕ) → ℕ
place_of d n old offset =
    let at = offset % block_size in
    let second = second_table d n old offset in
    if ltb offset level_end0
    then n.index (offset / block_size) + at
    else (if ltb offset level_end1
        then entry d (n.index 12) ((offset - level_end0) / block_size) + at
        else (if ltb offset level_end2
            then second ((offset - level_end1) % index_one_size / block_size) + at
            else (let third = second ((offset - level_end2) % index_two_size / index_one_size) in
                entry d third ((offset - level_end2) % index_two_size % index_one_size / block_size)
                + at)))

-- The loop: `src` is written from `offset` on, block by block.
pub overwrite : INode → (old : ℕ → ℕ) → (fuel offset len : ℕ) → (src : ℕ → ℕ) → Disk → Disk
unfolding second_table place_of
overwrite n old zero offset len src d = d
overwrite n old (suc fuel) offset len src d =
    let rest = block_size - offset % block_size in
    let cur_len = if ltb rest len then rest else len in
    let next =
      overwrite n (second_table d n old offset) fuel (offset + cur_len) (len - cur_len)
        (λ k. src (k + cur_len)) (dev_write d (place_of d n old offset) cur_len src) in
    if ltb 0 len then next else d

-- `_remove_inode_from_dir`: the last entry takes the place of the one at `position`.
pub remove_at : (old : ℕ → ℕ) → INode → (position : ℕ) → Volume → Option Volume
unfolding overwrite
remove_at old n position s =
    let last = read_data s.disk n (n.size - entry_size) entry_size in
    elim (release_block s.disk n (n.size - entry_size) s.block_map) [
      | none ↦ none
      | some r ↦ some (record s {
        disk =
            overwrite n old entry_size (position * entry_size) entry_size (filled (λ _. 0) last)
              s.disk;
        block_map = r.bitmap;
      })
    ]

-- What the inner loop of `remove_inode_from_dir` comes to: the position of the name, or the end of the
-- buffer, with the number of entries so far, where `readed_len` has gone `below` 0.
pub data Found : Type 0 where
  found : (position : ℕ) → Found
  ended : (position below : ℕ) → Found

-- The inner loop: `p` stands `at` bytes behind the start of the buffer, and `left` is `readed_len`.
pub find_position : (name : List ℕ) → (ℕ → ℕ) → (fuel at left position : ℕ) → Found
find_position name buf zero at left position = ended position 0
find_position name buf (suc fuel) at left position =
    let rest = find_position name buf fuel (at + entry_size) (left - entry_size) (position + 1) in
    if left == 0
    then ended position 0
    else (if equal_strings name (entry_at buf at).filename
        then found position
        else (if ltb left entry_size then ended (position + 1) (entry_size - left) else rest))

-- The outer loop, with `offset += readed_len` behind the inner one. `none` is a loop that has not ended,
-- or an offset below 0, which would read before the start of `index`; `old` is what `index_block2` holds.
pub remove_loop :
    (old : ℕ → ℕ)
    → (parent : ℕ) → (name : List ℕ) → INode
    → (fuel offset position : ℕ) → (ℕ → ℕ)
    → Volume
    → Option Volume
unfolding find_position
remove_loop old parent name n zero offset position buf s = none
remove_loop old parent name n (suc fuel) offset position buf s =
    let r = read_data s.disk n offset entries_len in
    let buf' = filled buf r in
    let next : ℕ → ℕ → Option Volume =
      λ position' below. remove_loop old parent name n fuel (offset - below) position' buf' s in
    if r.readed_len == 0
    then some s
    else (elim (find_position name buf' r.readed_len 0 r.readed_len position) [
      | found p ↦ elim (remove_at old n p s) [
        | none ↦ none
        | some s' ↦ some (record s' {
          disk = write_inode s'.disk parent (record n { size = n.size - entry_size });
        })
      ]
      | ended position' below ↦ if ltb offset below then none else next position' below
    ])

pub remove_inode_from_dir :
    (old : ℕ → ℕ)
    → (fuel : ℕ) → (buf : ℕ → ℕ) → (parent : ℕ) → (name : List ℕ) → Volume
    → Option Volume
unfolding remove_loop
remove_inode_from_dir old fuel buf parent name s =
    remove_loop old parent name (read_inode s.disk parent) fuel 0 0 buf s

-- `_delete_file_by_inode`
pub delete_file_by_inode : ℕ → INode → Volume → Option Volume
delete_file_by_inode index n s = elim (release_block s.disk n 0 s.block_map) [
  | none ↦ none
  | some r ↦
      some (record s { block_map = r.bitmap; inode_map = release_disk_inode index s.inode_map })
]

-- The inner loop of `_delete_dir_by_inode`: all entries but "." and ".." are deleted by `delete`.
pub delete_entries :
    (delete : ℕ → INode → Volume → Option Volume)
    → (buf : ℕ → ℕ) → (fuel at left : ℕ) → Volume
    → Option Volume
delete_entries delete buf zero at left s = some s
delete_entries delete buf (suc fuel) at left s =
    let e = entry_at buf at in
    let done =
      if equal_strings e.filename (46 ∷ []) || equal_strings e.filename (46 ∷ 46 ∷ [])
      then some s
      else delete e.index (read_inode s.disk e.index) s in
    if left == 0 then some s else (elim done [
      | none ↦ none
      | some s' ↦ delete_entries delete buf fuel (at + entry_size) (left - entry_size) s'
    ])

-- The outer loop.
pub delete_all :
    (delete : ℕ → INode → Volume → Option Volume)
    → INode
    → (buf : ℕ → ℕ) → (fuel offset : ℕ) → Volume
    → Option Volume
delete_all delete n buf zero offset s = some s
delete_all delete n buf (suc fuel) offset s =
    let r = read_data s.disk n offset entries_len in
    if r.readed_len == 0
    then some s
    else (elim (delete_entries delete (filled buf r) r.readed_len 0 r.readed_len s) [
      | none ↦ none
      | some s' ↦ delete_all delete n (filled buf r) fuel (offset + r.readed_len) s'
    ])

-- `_delete_dir_by_inode`. Each directory on the way down holds one of the block buffers; `none` is the
-- NULL of `get_free_block_buffer` when none is left.
pub delete_dir_by_inode : (buffers : ℕ) → (buf : ℕ → ℕ) → ℕ → INode → Volume → Option Volume
unfolding delete_entries delete_all
delete_dir_by_inode zero buf index n s =
    if n.type == plain then delete_file_by_inode index n s else none
delete_dir_by_inode (suc buffers) buf index n s =
    if n.type == plain
    then delete_file_by_inode index n s
    else (elim (delete_all (delete_dir_by_inode buffers buf) n buf (n.size + 1) 0 s) [
      | none ↦ none
      | some s' ↦ delete_file_by_inode index n s'
    ])

-- The bytes of the path buffer up to the first NUL or '/', whether it is a '/', and what lies behind.
pub cut_bytes : List ℕ → List ℕ × Bool × List ℕ
cut_bytes [] = ([], false, [])
cut_bytes (c ∷ cs) =
    let (name, slash, rest) = cut_bytes cs in
    if c == 0
    then ([], false, cs)
    else (if c == 47 then ([], true, cs) else (c ∷ name, slash, rest))

-- The loop of `_delete_file`, over the bytes of the buffer. With the last component deleted it does not
-- return, but goes on behind the NUL, with `flag` set.
pub delete_loop :
    (old : ℕ → ℕ)
    → (fuel : ℕ) → (buf : ℕ → ℕ) → (is_file flag : Bool) → (cur : ℕ) → List ℕ
    → Volume
    → Option Volume
delete_loop old zero buf is_file flag cur bytes s = none
delete_loop old (suc fuel) buf is_file flag cur bytes s =
    let (name, slash, rest) = cut_bytes bytes in
    elim (read_dir_entry s.disk buf cur name) [
      | none ↦ some s
      | some next ↦
          let n = read_inode s.disk next.index in
          if flag || not slash
          then (if n.type == (if is_file then dir else plain)
              then some s
              else (elim (delete_dir_by_inode 20 buf next.index n s) [
                | none ↦ none
                | some s1 ↦ elim (remove_inode_from_dir old fuel buf cur next.filename s1) [
                  | none ↦ none
                  | some s2 ↦ delete_loop old fuel buf is_file true next.index rest s2
                ]
              ]))
          else delete_loop old fuel buf is_file flag next.index rest s
    ]
