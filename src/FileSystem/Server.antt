-- ===== src/FileSystem/Server.antt =====
-- The whole state of the file server, and `fm_read` and `fm_write` of src/kernel/file_system/fm_syscall.c.
-- What a terminal answers is a parameter. The outer `none` is an index outside the descriptors or the
-- bitmap, or a search for a free block that does not end.
pub mod Session
use njuos.Prelude.{
  ℕ, zero, suc, ◌+◌, ◌%◌, ◌^◌, List, [], Option, none, some, ltb, ◌==◌, if◌then◌else◌, update,
}
use njuos.FileSystem.{INode, OpenFile}
use njuos.FileSystem.Bitmap.{Bitmap}
use njuos.FileSystem.ReadData.{Reading, read_data}
use njuos.FileSystem.WriteData.{Writing, write_data}
use njuos.FileSystem.Release.{release_block}
use njuos.FileSystem.Files.{Files, fd_entry, set_file}

pub record FileServer : Type 0 where
  pub files : Files
  pub block_map : Bitmap
  pub inode_map : Bitmap

-- The inode of an open file.
abbrev pub inode_of : ℕ → Files → INode
inode_of f s = (s.vnodes (s.files f).vnode).inode

abbrev pub set_inode : ℕ → INode → Files → Files
set_inode f n s =
    let v = (s.files f).vnode in
    record s { vnodes = update s.vnodes v (record (s.vnodes v) { inode = n }) }

-- `fm_read` of the open file `f`: the bytes and the answer.
pub read_file : (tty : ℕ → ℕ → List ℕ × ℕ) → (f len : ℕ) → FileServer → (List ℕ × ℕ) × FileServer
unfolding set_file
read_file tty f len s =
    let file = s.files.files f in
    let n = inode_of f s.files in
    let r = read_data s.files.disk n file.offset len in
    if n.dev_id == 0
    then (
      (r.buf, r.readed_len),
      record s {
        files = set_file f (record file { offset = (file.offset + r.readed_len) % 2 ^ 32 }) s.files;
      },
    )
    else (tty n.dev_id len, s)

-- The inner `none` is the answer -1 for a descriptor that is not open.
pub fm_read :
    (tty : ℕ → ℕ → List ℕ × ℕ)
    → (pid fd len : ℕ) → FileServer
    → Option (Option (List ℕ × ℕ) × FileServer)
unfolding read_file
fm_read tty pid fd len s = elim (fd_entry pid fd s.files) [
  | none ↦ none
  | some none ↦ some (none, s)
  | some (some f) ↦ let (answer, s') = read_file tty f len s in some (some answer, s')
]

-- The start of `fm_write`: what lies behind the offset is cut off.
pub truncate : (f : ℕ) → FileServer → Option FileServer
truncate f s =
    let offset = (s.files.files f).offset in
    let n = inode_of f s.files in
    if ltb offset n.size
    then (elim (release_block s.files.disk n offset s.block_map) [
      | none ↦ none
      | some r ↦ some (record s {
        block_map = r.bitmap;
        files = set_inode f (record n { size = offset }) s.files;
      })
    ])
    else some s

module _ (blocks : ℕ → ℕ → ℕ) where
  -- The state in which it calls `write_data`.
  unfoldable pub writing : (f : ℕ) → (buf : List ℕ) → (len : ℕ) → FileServer → Writing
  writing f buf len s = record {
    disk = s.files.disk;
    bitmap = s.block_map;
    inode = inode_of f s.files;
    blocks = blocks;
    file_offset = (s.files.files f).offset;
    writed_len = 0;
    len = len;
    buf = buf;
  }

  -- What is kept of it.
  pub written : (f : ℕ) → Writing → FileServer → FileServer
  unfolding set_file
  written f w s =
      let files = set_inode f w.inode (record s.files { disk = w.disk }) in
      record s {
        block_map = w.bitmap;
        files = set_file f (record (s.files.files f) { offset = w.inode.size }) files;
      }

  pub write_file :
      (tty : ℕ → List ℕ → ℕ)
      → (f : ℕ) → (buf : List ℕ) → (len : ℕ) → FileServer
      → Option (ℕ × FileServer)
  unfolding truncate writing written
  write_file tty f buf len s = elim (truncate f s) [
    | none ↦ none
    | some s1 ↦
        if (inode_of f s1.files).dev_id == 0
        then (elim (write_data (writing f buf len s1)) [
          | none ↦ none
          | some w ↦ some (w.writed_len, written f w s1)
        ])
        else some (tty (inode_of f s1.files).dev_id buf, s1)
  ]

  -- `fm_write`
  pub fm_write :
      (tty : ℕ → List ℕ → ℕ)
      → (pid fd : ℕ) → (buf : List ℕ) → (len : ℕ) → FileServer
      → Option (Option ℕ × FileServer)
  unfolding write_file
  fm_write tty pid fd buf len s = elim (fd_entry pid fd s.files) [
    | none ↦ none
    | some none ↦ some (none, s)
    | some (some f) ↦ elim (write_file tty f buf len s) [
      | none ↦ none
      | some (answer, s') ↦ some (some answer, s')
    ]
  ]
