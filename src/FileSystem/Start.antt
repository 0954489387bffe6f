-- ===== src/FileSystem/Start.antt =====
-- The start of `file_thread` of src/kernel/file_system/fm_syscall.c, and the block buffers of its handlers.
use njuos.Prelude.{
  ℕ, zero, suc, ◌+◌, ◌*◌, ◌/◌, ◌<◌, ◌≤◌, ◌≡◌, Bool, true, false, [], ◌∷◌, Option, none, some,
  if◌then◌else◌, update, arith, update_undo, Bool-cases, inl, inr, refl,
}
use njuos.FileSystem.{INode, dir}
use njuos.FileSystem.Bitmap.{get_free_disk_inode}
use njuos.FileSystem.INodes.{write_inode}
use njuos.FileSystem.Files.{Files, get_free_vnode}
use njuos.FileSystem.Server.{FileServer}
use njuos.FileSystem.Directories.Changes.{Volume, add_inode_into_dir}
use njuos.FileSystem.Directories.Opening.{volume_of, with_volume}

-- A vnode for a terminal, which is the first one for all three.
pub tty_vnode : Files → Option (ℕ × Files)
tty_vnode s = elim (get_free_vnode s) [
  | none ↦ none
  | some (v, s1) ↦
      let inode = record (s1.vnodes v).inode { dev_id = 1 } in
      some (
        v,
        record s1 {
          vnodes = update s1.vnodes v (record (s1.vnodes v) { inode = inode; count = 1 });
        },
      )
]

-- `stdin_vnode`, `stdout_vnode` and `stderr_vnode`
pub tty_vnodes : Files → Option ((ℕ × ℕ × ℕ) × Files)
unfolding tty_vnode
tty_vnodes s = elim (tty_vnode s) [
  | none ↦ none
  | some (stdin, s1) ↦ elim (tty_vnode s1) [
    | none ↦ none
    | some (stdout, s2) ↦ elim (tty_vnode s2) [
      | none ↦ none
      | some (stderr, s3) ↦ some ((stdin, stdout, stderr), s3)
    ]
  ]
]

module _ (blocks : ℕ → ℕ → ℕ) (junk : ℕ → ℕ) (stack : INode) where
  -- The root directory with its two entries: the inode goes where the bitmap says, the entries go to the
  -- inode 0.
  pub format_root : Volume → Option Volume
  format_root s = elim (get_free_disk_inode s.inode_map) [
    | none ↦ none
    | some (index, inode_map) ↦
        let inode = record stack { size = 0; type = dir; link = 1 } in
        let s1 = record s { disk = write_inode s.disk index inode; inode_map = inode_map } in
        elim (add_inode_into_dir blocks junk 0 (46 ∷ []) 0 s1) [
          | none ↦ none
          | some s2 ↦ add_inode_into_dir blocks junk 0 (46 ∷ 46 ∷ []) 0 s2
        ]
  ]

  -- `init_file_format`
  pub init_file_format : FileServer → Option ((ℕ × ℕ × ℕ) × FileServer)
  unfolding tty_vnodes format_root
  init_file_format s = elim (format_root (volume_of s)) [
    | none ↦ none
    | some v ↦ elim (tty_vnodes (with_volume s v).files) [
      | none ↦ none
      | some (ttys, files) ↦ some (ttys, record (with_volume s v) { files = files })
    ]
  ]

-- `get_free_block_buffer`, by `block_buf_flag`: the offset of the buffer in `block_buf_array`.
pub find_buffer : (flag : ℕ → Bool) → (n i : ℕ) → Option ℕ
find_buffer flag zero i = none
find_buffer flag (suc n) i = if flag i then find_buffer flag n (i + 1) else some i

pub get_free_block_buffer : (ℕ → Bool) → Option (ℕ × (ℕ → Bool))
unfolding find_buffer
get_free_block_buffer flag = elim (find_buffer flag 20 0) [
  | none ↦ none
  | some i ↦ some (i * 256, update flag i true)
]

pub free_block_buffer : ℕ → (ℕ → Bool) → ℕ → Bool
free_block_buffer addr flag = update flag (addr / 256) false

lt_of_flags : (flag : ℕ → Bool) (i j : ℕ) → i ≤ j → flag j ≡ false → flag i ≡ true → i < j
lt_of_flags flag i j a e q = ground arith

find_buffer_lem :
    (flag : ℕ → Bool) (n i j : ℕ)
    → i ≤ j
    → j < i + n
    → flag j ≡ false
    → (k : ℕ) × (find_buffer flag n i ≡ some k) × (k < i + n) × (flag k ≡ false)
unfolding find_buffer
find_buffer_lem flag zero i j a b e = absurd (omega arith)
find_buffer_lem flag (suc n) i j a b e = elim (Bool-cases (flag i)) [
  | inl q ↦
      let other : i + 1 ≤ j = omega (arith, lt_of_flags flag i j a e q) in
      let (k, got, lt, free) = find_buffer_lem flag n (i + 1) j other (omega arith) e in
      (k, rw (find_buffer, q) got, omega arith, free)
  | inr q ↦ (i, rw (find_buffer, q) refl, omega arith, q)
]

-- With one of the twenty buffers free, `get_free_block_buffer` gives out one that was, inside the array,
-- and `free_block_buffer` of it gives every flag its old value.
free_block_buffer-get_free_block_buffer :
    (flag : ℕ → Bool) (j : ℕ)
    → j < 20
    → flag j ≡ false
    → (addr : ℕ) × (after : ℕ → Bool) × (get_free_block_buffer flag ≡ some (addr, after))
      × (addr < 20 * 256)
      × (flag (addr / 256) ≡ false)
      × ((k : ℕ) → free_block_buffer addr after k ≡ flag k)
unfolding get_free_block_buffer free_block_buffer
free_block_buffer-get_free_block_buffer flag j h e =
    let (i, got, lt, free) = find_buffer_lem flag 20 0 j (omega arith) (omega arith) e in
    let index : i * 256 / 256 ≡ i = omega arith in
    (
      i * 256,
      update flag i true,
      rw (get_free_block_buffer, got) refl,
      omega arith,
      rw index free,
      λ k. rw index (update_undo flag i false true k free),
    )
