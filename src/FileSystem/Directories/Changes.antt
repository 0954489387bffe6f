-- ===== src/FileSystem/Directories/Changes.antt =====
-- src/kernel/file_system/fm_syscall.c: what creates directory entries. `none` is a search for a free block or
-- inode that does not end.
pub mod Added
use njuos.Prelude.{
  ℕ, zero, suc, ◌+◌, ◌-◌, ◌*◌, ◌/◌, ◌%◌, Bool, true, false, ◌||◌, not, List, [], ◌∷◌, Option, none,
  some, ltb, ◌==◌, if◌then◌else◌, length, drop,
}
use njuos.Strings.{equal_strings, strcpy}
use njuos.FileSystem.{
  Disk, INode, VNode, dev_read, dev_write, entry, byte_of, block_size, level_end0, level_end1,
  level_end2, index_one_size, index_two_size, dir, plain,
}
use njuos.FileSystem.Bitmap.{Bitmap, get_free_disk_inode, release_disk_inode}
use njuos.FileSystem.INodes.{read_inode, write_inode}
use njuos.FileSystem.ReadData.{read_data}
use njuos.FileSystem.WriteData.{Writing, write_data}
use njuos.FileSystem.Release.{Releasing, release_block}
use njuos.FileSystem.Directories.{
  DirEntry, entry_size, entries_len, string_at, entry_at, filled, read_dir_entry, cut_path,
  start_of,
}

-- What the operations change: the disk and the two bitmaps. What `index_block1` to `index_block3` hold
-- before a call is a parameter, `blocks`.
pub record Volume : Type 0 where
  pub disk : Disk
  pub block_map : Bitmap
  pub inode_map : Bitmap

-- `new_entry` as it lies in memory: the index, and then the name with its NUL over what was there.
pub entry_bytes : (junk : ℕ → ℕ) → (name : List ℕ) → (index : ℕ) → ℕ → ℕ
entry_bytes junk name index =
    strcpy 0 name (λ k. if ltb k 32 then junk k else byte_of index (k - 32))

-- The state in which `add_inode_into_dir` calls `write_data`.
unfoldable pub appending :
    (blocks : ℕ → ℕ → ℕ)
    → (junk : ℕ → ℕ) → (parent : ℕ) → (name : List ℕ) → (index : ℕ) → Volume
    → Writing
appending blocks junk parent name index s =
    let n = read_inode s.disk parent in
    record {
      disk = s.disk;
      bitmap = s.block_map;
      inode = n;
      blocks = blocks;
      file_offset = n.size;
      writed_len = 0;
      len = entry_size;
      buf = dev_read (entry_bytes junk name index) 0 entry_size;
    }

-- `add_inode_into_dir`
pub add_inode_into_dir :
    (blocks : ℕ → ℕ → ℕ)
    → (junk : ℕ → ℕ) → (parent : ℕ) → (name : List ℕ) → (index : ℕ) → Volume
    → Option Volume
unfolding appending entry_bytes
add_inode_into_dir blocks junk parent name index s =
    elim (write_data (appending blocks junk parent name index s)) [
      | none ↦ none
      | some w ↦ some (record s { disk = write_inode w.disk parent w.inode; block_map = w.bitmap })
    ]

module _ (blocks : ℕ → ℕ → ℕ) (buf junk : ℕ → ℕ) (stack : INode) where
  -- The branch of `_create_dir` for a name that is not there: a new directory with "." and "..". Its
  -- inode has the device number and the indices of what lies on the stack.
  pub new_dir : (parent : ℕ) → (name : List ℕ) → Volume → Option (ℕ × Volume)
  new_dir parent name s = elim (get_free_disk_inode s.inode_map) [
    | none ↦ none
    | some (index, inode_map) ↦
        let inode = record stack { size = 0; type = dir; link = 1 } in
        let s1 = record s { disk = write_inode s.disk index inode; inode_map = inode_map } in
        elim (add_inode_into_dir blocks junk parent name index s1) [
          | none ↦ none
          | some s2 ↦ elim (add_inode_into_dir blocks junk index (46 ∷ []) index s2) [
            | none ↦ none
            | some s3 ↦ elim (add_inode_into_dir blocks junk index (46 ∷ 46 ∷ []) parent s3) [
              | none ↦ none
              | some s4 ↦ some (index, s4)
            ]
          ]
        ]
  ]

  -- The start of a round of `_create_dir`: the directory of a name, made if it is not there.
  pub enter_dir : (cur : DirEntry) → (name : List ℕ) → Volume → Option (DirEntry × Volume)
  enter_dir cur name s = elim (read_dir_entry s.disk buf cur.index name) [
    | none ↦ elim (new_dir cur.index name s) [
      | none ↦ none
      | some (index, s') ↦ some (record { filename = name; index = index }, s')
    ]
    | some next ↦ some (next, s)
  ]

  -- `_create_dir`; the result holds the last directory, `new_dir`.
  pub create_dir : (fuel : ℕ) → (cur : DirEntry) → List ℕ → Volume → Option (DirEntry × Volume)
  create_dir zero cur path s = none
  create_dir (suc fuel) cur path s =
      let (name, rest) = cut_path path in
      elim (enter_dir cur name s) [
        | none ↦ none
        | some (next, s') ↦ elim rest [
          | none ↦ some (next, s')
          | some p ↦ create_dir fuel next p s'
        ]
      ]

  -- `fm_mkdir`
  pub fm_mkdir : (root cwd : DirEntry) → List ℕ → Volume → Option Volume
  fm_mkdir root cwd path s =
      let (cur, p) = start_of root cwd path in
      elim (create_dir (length p + 1) cur p s) [ none ↦ none | some (_, s') ↦ some s' ]

  -- The end of `_create`: a new file. `vnode` gets the index and the inode.
  pub new_file : (parent : ℕ) → (name : List ℕ) → Volume → Option ((ℕ × INode) × Volume)
  new_file parent name s = elim (get_free_disk_inode s.inode_map) [
    | none ↦ none
    | some (index, inode_map) ↦
        let inode = record stack { size = 0; type = plain; link = 1; dev_id = 0 } in
        let s1 = record s { disk = write_inode s.disk index inode; inode_map = inode_map } in
        elim (add_inode_into_dir blocks junk parent name index s1) [
          | none ↦ none
          | some s2 ↦ some ((index, inode), s2)
        ]
  ]

  -- A path before its last '/' and behind it.
  pub split_last : List ℕ → Option (List ℕ × List ℕ)
  split_last [] = none
  split_last (c ∷ cs) = elim (split_last cs) [
    | none ↦ if c == 47 then some ([], cs) else none
    | some (front, last) ↦ some (c ∷ front, last)
  ]

  -- The loop of `_create`; `some none` is -1, for a file that is there.
  pub create_from :
      (fuel : ℕ) → (cur : DirEntry) → List ℕ → Volume → Option (Option (ℕ × INode) × Volume)
  create_from zero cur path s = none
  create_from (suc fuel) cur path s =
      let (name, rest) = cut_path path in
      elim (read_dir_entry s.disk buf cur.index name) [
        | none ↦ elim (split_last path) [
          | none ↦ elim (new_file cur.index path s) [
            | none ↦ none
            | some (made, s') ↦ some (some made, s')
          ]
          | some (front, last) ↦ elim (create_dir (length front + 1) cur front s) [
            | none ↦ none
            | some (parent, s1) ↦ elim (new_file parent.index last s1) [
              | none ↦ none
              | some (made, s') ↦ some (some made, s')
            ]
          ]
        ]
        | some next ↦ elim rest [ none ↦ some (none, s) | some p ↦ create_from fuel next p s ]
      ]

  -- `_create`, which is `fm_create` with its answer of 0 in every case.
  pub create : (root cwd : DirEntry) → List ℕ → Volume → Option (Option (ℕ × INode) × Volume)
  create root cwd path s =
      let (cur, p) = start_of root cwd path in create_from (length p + 1) cur p s
