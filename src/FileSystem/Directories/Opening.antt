-- ===== src/FileSystem/Directories/Opening.antt =====
-- `fm_open` of src/kernel/file_system/fm_syscall.c, over the whole state of the file server.
use njuos.Prelude.{ℕ, List, Option, none, some, ◌==◌, if◌then◌else◌, update}
use njuos.FileSystem.{INode}
use njuos.FileSystem.Server.{FileServer}
use njuos.FileSystem.Files.{Files, get_free_vnode, open_vnode}
use njuos.FileSystem.Directories.{DirEntry, start_of, open_path}
use njuos.FileSystem.Directories.Changes.{Volume, create}

pub volume_of : FileServer → Volume
volume_of s = record { disk = s.files.disk; block_map = s.block_map; inode_map = s.inode_map }

pub with_volume : FileServer → Volume → FileServer
with_volume s v = record {
  files = record s.files { disk = v.disk };
  block_map = v.block_map;
  inode_map = v.inode_map;
}

-- What `_create` leaves in the vnode: nothing where the file is there.
pub fill_vnode : (v : ℕ) → Option (ℕ × INode) → Files → Files
fill_vnode v none s = s
fill_vnode v (some (index, inode)) s = record s {
  vnodes = update s.vnodes v (record { index = index; inode = inode; count = 1 });
}

module _ (blocks : ℕ → ℕ → ℕ) (buf junk : ℕ → ℕ) (stack : INode) (root cwd : DirEntry)
    (pid : ℕ) where
  -- The branch that makes the file: a vnode first, and the answer of `_create` is not looked at.
  pub open_new : List ℕ → FileServer → Option (ℕ × FileServer)
  open_new path s = elim (get_free_vnode s.files) [
    | none ↦ none
    | some (v, files) ↦
        let s1 = record s { files = files } in
        elim (create blocks buf junk stack root cwd path (volume_of s1)) [
          | none ↦ none
          | some (made, vol) ↦
              let s2 = with_volume s1 vol in
              some (v, record s2 { files = fill_vnode v made s2.files })
        ]
  ]

  pub open_found : ℕ → FileServer → Option (Option ℕ × FileServer)
  open_found v s = elim (open_vnode pid v s.files) [
    | none ↦ none
    | some (fd, files) ↦ some (some fd, record s { files = files })
  ]

  -- The answer is the descriptor, or `none` for -1.
  pub fm_open : List ℕ → (flag : ℕ) → FileServer → Option (Option ℕ × FileServer)
  unfolding volume_of with_volume fill_vnode open_new open_found
  fm_open path flag s =
      let (cur, p) = start_of root cwd path in
      elim (open_path buf cur p s.files) [
        | none ↦ none
        | some none ↦
            if flag == 1
            then (elim (open_new path s) [ none ↦ none | some (v, s1) ↦ open_found v s1 ])
            else some (none, s)
        | some (some (v, files)) ↦ open_found v (record s { files = files })
      ]
