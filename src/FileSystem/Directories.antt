-- ===== src/FileSystem/Directories.antt =====
-- src/kernel/file_system/fm_syscall.c: directories, which are files of entries of 36 bytes, and the paths
-- through them. A path is the characters before its NUL. What the block buffer holds before it is read
-- into, and what lies on the stack where a structure is only partly filled in, are parameters.
pub mod Entries
pub mod Lookup
pub mod Changes
pub mod Deletions
pub mod Opening
pub mod Listing
use njuos.Prelude.{
  ℕ, zero, suc, ◌+◌, ◌-◌, ◌*◌, ◌/◌, ◌%◌, Bool, true, false, List, [], ◌∷◌, Option, none, some, ltb,
  ◌==◌, if◌then◌else◌, get_or, length, update, or_else,
}
use njuos.Strings.{equal_strings}
use njuos.FileSystem.{Disk, INode, VNode, load32, dir, plain}
use njuos.FileSystem.INodes.{read_inode}
use njuos.FileSystem.ReadData.{Reading, read_data}
use njuos.FileSystem.Files.{Files, get_free_vnode, search_vnode_by_index}

-- `dir_entry`
pub record DirEntry : Type 0 where
  pub filename : List ℕ
  pub index : ℕ

-- `sizeof(dir_entry)`, and as much as whole entries fill of a block.
abbrev pub entry_size : ℕ
entry_size = 36

abbrev pub entries_len : ℕ
entries_len = 252

-- The string at an address; `fuel` bounds it where there is no NUL.
unfoldable pub string_at : (ℕ → ℕ) → (fuel at : ℕ) → List ℕ
string_at mem zero at = []
string_at mem (suc fuel) at =
    let rest = mem at ∷ string_at mem fuel (at + 1) in if mem at == 0 then [] else rest

-- The entry at an address.
unfoldable pub entry_at : (ℕ → ℕ) → ℕ → DirEntry
entry_at mem at = record { filename = string_at mem 256 at; index = load32 mem (at + 32) }

-- A buffer with the bytes that `read_data` puts there.
pub filled : (ℕ → ℕ) → Reading → ℕ → ℕ
filled buf r k = if ltb k r.readed_len then get_or r.buf k 0 else buf k

-- The inner loop of `read_dir_entry`, from `at` on, with `left` bytes to go.
pub find_entry : (name : List ℕ) → (ℕ → ℕ) → (fuel at left : ℕ) → Option DirEntry
find_entry name buf zero at left = none
find_entry name buf (suc fuel) at left =
    let rest = find_entry name buf fuel (at + entry_size) (left - entry_size) in
    if left == 0
    then none
    else (if equal_strings (entry_at buf at).filename name then some (entry_at buf at) else rest)

-- The outer loop: each round reads one byte at least.
pub search_entries : Disk → INode → (ℕ → ℕ) → (name : List ℕ) → (fuel offset : ℕ) → Option DirEntry
search_entries d n buf name zero offset = none
search_entries d n buf name (suc fuel) offset =
    let r = read_data d n offset entries_len in
    let rest = search_entries d n (filled buf r) name fuel (offset + r.readed_len) in
    if r.readed_len == 0
    then none
    else or_else (find_entry name (filled buf r) r.readed_len 0 r.readed_len) rest

-- `read_dir_entry`; `none` is -1.
unfoldable pub read_dir_entry : Disk → (ℕ → ℕ) → (parent : ℕ) → (name : List ℕ) → Option DirEntry
unfolding search_entries find_entry filled entry_at string_at
read_dir_entry d buf parent name =
    let n = read_inode d parent in search_entries d n buf name (n.size + 1) 0

-- A path up to the first '/', and what follows; `none` where the path ends, which sets `flag`.
pub cut_path : List ℕ → List ℕ × Option (List ℕ)
cut_path [] = ([], none)
cut_path (c ∷ cs) =
    let (name, rest) = cut_path cs in if c == 47 then ([], some cs) else (c ∷ name, rest)

-- The loop of `read_inode`, up to the entry of the last component; `none` is NULL.
pub find_path : Disk → (ℕ → ℕ) → (fuel : ℕ) → DirEntry → List ℕ → Option DirEntry
find_path d buf zero cur path = none
find_path d buf (suc fuel) cur path =
    let (name, rest) = cut_path path in
    elim (read_dir_entry d buf cur.index name) [
      | none ↦ none
      | some next ↦ elim rest [ none ↦ some next | some p ↦ find_path d buf fuel next p ]
    ]

-- The end of `read_inode`: the vnode of an inode, one more user or a new one. `none` is a failed
-- assertion.
pub vnode_of : ℕ → Files → Option (ℕ × Files)
vnode_of index s = elim (search_vnode_by_index index s) [
  | none ↦ elim (get_free_vnode s) [
    | none ↦ none
    | some (v, s1) ↦ some (
      v,
      record s1 {
        vnodes =
            update s1.vnodes v
              (record (s1.vnodes v) { index = index; inode = read_inode s1.disk index });
      },
    )
  ]
  | some v ↦ some (
    v,
    record s {
      vnodes = update s.vnodes v (record (s.vnodes v) { count = (s.vnodes v).count + 1 });
    },
  )
]

-- `read_inode`; `some none` is NULL.
pub open_path : (ℕ → ℕ) → DirEntry → List ℕ → Files → Option (Option (ℕ × Files))
open_path buf cur [] s = some none
open_path buf cur (c ∷ cs) s = elim (find_path s.disk buf (length cs + 2) cur (c ∷ cs)) [
  | none ↦ some none
  | some e ↦ elim (vnode_of e.index s) [ none ↦ none | some r ↦ some (some r) ]
]

-- Where a path starts: `root_dir` for one with a '/' in front, which is taken off, and otherwise
-- `pcb->current_dir`.
pub start_of : (root cwd : DirEntry) → List ℕ → DirEntry × List ℕ
start_of root cwd [] = (cwd, [])
start_of root cwd (c ∷ cs) = if c == 47 then (root, cs) else (cwd, c ∷ cs)

-- The way of `fm_lsdir` and `fm_chdir`, whose empty path stays where it is.
pub directory_of : Disk → (ℕ → ℕ) → DirEntry → List ℕ → Option DirEntry
directory_of d buf cur [] = some cur
directory_of d buf cur (c ∷ cs) = find_path d buf (length cs + 2) cur (c ∷ cs)

-- `fm_chdir`: the new `current_dir` with the result; `false` is -1.
pub fm_chdir : Disk → (ℕ → ℕ) → (root cwd : DirEntry) → List ℕ → DirEntry × Bool
fm_chdir d buf root cwd [] = (cwd, true)
fm_chdir d buf root cwd (c ∷ cs) =
    let (cur, path) = start_of root cwd (c ∷ cs) in
    elim (directory_of d buf cur path) [
      | none ↦ (cwd, false)
      | some e ↦ if (read_inode d e.index).type == plain then (cwd, false) else (e, true)
    ]
