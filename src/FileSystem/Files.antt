-- ===== src/FileSystem/Files.antt =====
-- The kernel's vnodes and open files (src/kernel/file_system/fm_backstage.c) and the descriptors of
-- processes (fm_syscall.c). The two free lists and the active list are lists of array indices, and the
-- tables `fd_table` of all processes are one list of slots, a hundred to a process. `none` is a failed
-- assertion, a NULL pointer followed, or an index outside its array.
pub mod Refs
pub mod Open
pub mod Faults
use njuos.Prelude.{
  ℕ, zero, suc, ◌+◌, ◌-◌, ◌*◌, ◌%◌, ◌^◌, Bool, true, false, List, [], ◌∷◌, ◌++◌, Option, none, some,
  ltb, ◌==◌, if◌then◌else◌, update, get_elem?, set,
}
use njuos.FileSystem.{Disk, VNode, OpenFile}
use njuos.FileSystem.INodes.{write_inode}

pub record Files : Type 0 where
  -- `vnode_array` with `free_vnode_list` and `active_vnode_list`
  pub vnodes : ℕ → VNode
  pub free_vnodes : List ℕ
  pub active_vnodes : List ℕ
  -- `open_file_table` with `free_open_file_list`
  pub files : ℕ → OpenFile
  pub free_files : List ℕ
  -- `fd_table` and `min_fd` of the processes
  pub slots : List (Option ℕ)
  pub min_fd : ℕ → ℕ
  pub disk : Disk

-- `count--` of an `int`: below 0 it stays away from 0 for four billion steps.
abbrev pub decrement : ℕ → ℕ
decrement c = if c == 0 then 2 ^ 32 - 1 else c - 1

-- `get_free_vnode`
pub get_free_vnode : Files → Option (ℕ × Files)
get_free_vnode s = elim s.free_vnodes [
  | [] ↦ none
  | v ∷ rest ↦ some (
    v,
    record s {
      vnodes = update s.vnodes v (record (s.vnodes v) { count = 1 });
      free_vnodes = rest;
      active_vnodes = s.active_vnodes ++ v ∷ [];
    },
  )
]

-- `list_del` on a list of indices
abbrev pub erase : ℕ → List ℕ → List ℕ
erase v [] = []
erase v (w ∷ ws) = if v == w then ws else w ∷ erase v ws

-- `release_kernel_vnode`: with its last user gone, the inode goes to the disk and the vnode to the
-- free list.
pub release_kernel_vnode : ℕ → Files → Files
release_kernel_vnode v s =
    let node = record (s.vnodes v) { count = decrement (s.vnodes v).count } in
    let s' = record s { vnodes = update s.vnodes v node } in
    if node.count == 0
    then record s' {
      disk = write_inode s.disk node.index node.inode;
      active_vnodes = erase v s.active_vnodes;
      free_vnodes = v ∷ s.free_vnodes;
    }
    else s'

-- `search_vnode_by_index`, over the active list
pub search_vnode : (ℕ → VNode) → List ℕ → ℕ → Option ℕ
search_vnode vnodes [] index = none
search_vnode vnodes (v ∷ vs) index =
    if (vnodes v).index == index then some v else search_vnode vnodes vs index

pub search_vnode_by_index : ℕ → Files → Option ℕ
search_vnode_by_index index s = search_vnode s.vnodes s.active_vnodes index

-- `get_free_file_entry`
pub get_free_file_entry : Files → Option (ℕ × Files)
get_free_file_entry s = elim s.free_files [
  | [] ↦ none
  | f ∷ rest ↦ some (
    f,
    record s { files = update s.files f (record (s.files f) { count = 1 }); free_files = rest },
  )
]

-- `release_file_entry`
pub release_file_entry : ℕ → Files → Files
release_file_entry f s =
    let file = record (s.files f) { count = decrement (s.files f).count } in
    let s1 = record s { files = update s.files f file } in
    if file.count == 0
    then (let s2 = release_kernel_vnode file.vnode s1 in
        record s2 { free_files = f ∷ s2.free_files })
    else s1

-- `pcb->fd_table[fd]`: no slot, an empty one (NULL) or one that holds an open file.
unfoldable pub slot : ℕ → ℕ → ℕ
slot pid fd = pid * 100 + fd

abbrev pub fd_entry : ℕ → ℕ → Files → Option (Option ℕ)
fd_entry pid fd s = if ltb fd 100 then get_elem? s.slots (slot pid fd) else none

unfoldable pub set_fd : ℕ → ℕ → Option ℕ → Files → Files
set_fd pid fd v s = record s { slots = set s.slots (slot pid fd) v }

unfoldable pub set_file : ℕ → OpenFile → Files → Files
set_file f file s = record s { files = update s.files f file }

-- `fm_close`; an empty slot is a NULL pointer followed.
pub fm_close : ℕ → ℕ → Files → Option Files
fm_close pid fd s = elim (fd_entry pid fd s) [
  | none ↦ none
  | some none ↦ none
  | some (some f) ↦
      let s' = set_fd pid fd none (release_file_entry f s) in
      some (if ltb fd (s'.min_fd pid) then record s' { min_fd = update s'.min_fd pid fd } else s')
]

-- `fm_lseek`: the offset wraps at 32 bits; an empty slot gets no answer, which `false` says.
unfoldable pub fm_lseek : ℕ → ℕ → ℕ → ℕ → Files → Option (Bool × Files)
unfolding set_file
fm_lseek pid fd offset whence s = elim (fd_entry pid fd s) [
  | none ↦ none
  | some none ↦ some (false, s)
  | some (some f) ↦
      let file = s.files f in
      let base =
        if whence == 0
        then 0
        else (if whence == 1 then file.offset else (s.vnodes file.vnode).inode.size) in
      some (true, set_file f (record file { offset = (base + offset) % 2 ^ 32 }) s)
]

-- `while(fd_table[min_fd] != NULL) min_fd = (min_fd + 1) % 100`, on fuel
pub next_fd : List (Option ℕ) → ℕ → ℕ → ℕ → Option ℕ
next_fd slots pid zero fd = none
next_fd slots pid (suc fuel) fd =
    let rest = next_fd slots pid fuel ((fd + 1) % 100) in
    elim (get_elem? slots (slot pid fd)) [
      | none ↦ none
      | some none ↦ some fd
      | some (some f) ↦ rest
    ]

-- The end of `fm_open`, with the vnode found or created: a file entry, and the first free descriptor
-- from `min_fd` on.
pub open_vnode : ℕ → ℕ → Files → Option (ℕ × Files)
open_vnode pid vnode s = elim (get_free_file_entry s) [
  | none ↦ none
  | some (f, s1) ↦ elim (next_fd s1.slots pid 101 (s1.min_fd pid)) [
    | none ↦ none
    | some fd ↦
        let s2 = record s1 {
          files = update s1.files f (record { offset = 0; count = 1; vnode = vnode });
        } in
        some (
          fd,
          set_fd pid fd (some f) (record s2 { min_fd = update s2.min_fd pid ((fd + 1) % 100) }),
        )
  ]
]

-- `fm_dup`; an empty slot gets no answer. The new descriptor is `min_fd` as it stands.
pub fm_dup : ℕ → ℕ → Files → Option (Option ℕ × Files)
fm_dup pid fd s = elim (fd_entry pid fd s) [
  | none ↦ none
  | some none ↦ some (none, s)
  | some (some f) ↦
      let new_fd = s.min_fd pid in
      let s1 = set_fd pid new_fd (some f) s in
      let s2 = record s1 {
        files = update s1.files f (record (s1.files f) { count = (s1.files f).count + 1 });
      } in
      elim (next_fd s2.slots pid 101 new_fd) [
        | none ↦ none
        | some min_fd ↦ some (some new_fd, record s2 { min_fd = update s2.min_fd pid min_fd })
      ]
]

-- The last two lines of `fm_dup2`, where `fd` may be empty by now.
pub share_fd : ℕ → ℕ → ℕ → Files → Option Files
share_fd pid fd new_fd s = elim (fd_entry pid fd s) [
  | none ↦ none
  | some none ↦ none
  | some (some f) ↦
      let s1 = set_fd pid new_fd (some f) s in
      some (record s1 {
        files = update s1.files f (record (s1.files f) { count = (s1.files f).count + 1 });
      })
]

-- `fm_dup2`: where `new_fd` is open, the code closes `fd`.
pub fm_dup2 : ℕ → ℕ → ℕ → Files → Option Files
fm_dup2 pid fd new_fd s = elim (fd_entry pid new_fd s) [
  | none ↦ none
  | some none ↦ share_fd pid fd new_fd s
  | some (some g) ↦ elim (fd_entry pid fd s) [
    | none ↦ none
    | some none ↦ none
    | some (some f) ↦ share_fd pid fd new_fd (set_fd pid fd none (release_file_entry f s))
  ]
]

-- The body of the loop of `fm_exit_file`, for what the slot holds.
pub release_held : Option (Option ℕ) → Files → Files
release_held none s = s
release_held (some none) s = s
release_held (some (some f)) s = release_file_entry f s

-- The loop, with `n` descriptors left; the table keeps its pointers.
pub exit_from : ℕ → ℕ → ℕ → Files → Files
exit_from pid zero fd s = s
exit_from pid (suc n) fd s =
    exit_from pid n (fd + 1) (release_held (get_elem? s.slots (slot pid fd)) s)

pub fm_exit_file : ℕ → Files → Files
fm_exit_file pid s = exit_from pid 100 0 s

-- One round of `copy_fd_table`.
pub copy_slot : ℕ → ℕ → ℕ → Files → Files
copy_slot cpid ppid fd s = elim (get_elem? s.slots (slot ppid fd)) [
  | none ↦ s
  | some none ↦ s
  | some (some f) ↦
      let s1 = record s {
        files = update s.files f (record (s.files f) { count = (s.files f).count + 1 });
      } in
      set_fd cpid fd (some f) s1
]

pub copy_from : ℕ → ℕ → ℕ → ℕ → Files → Files
copy_from cpid ppid zero fd s = s
copy_from cpid ppid (suc n) fd s = copy_from cpid ppid n (fd + 1) (copy_slot cpid ppid fd s)

pub copy_fd_table : ℕ → ℕ → Files → Files
copy_fd_table cpid ppid s = copy_from cpid ppid 100 0 s

-- One of the three descriptors of `init_fd_table`, on the vnode of its terminal. The offset of the entry
-- stays as its last user left it.
pub init_fd : ℕ → ℕ → ℕ → Files → Option Files
init_fd pid fd vnode s = elim (get_free_file_entry s) [
  | none ↦ none
  | some (f, s1) ↦
      let s2 = record s1 { files = update s1.files f (record (s1.files f) { vnode = vnode }) } in
      let s3 = record s2 {
        vnodes =
            update s2.vnodes vnode
              (record (s2.vnodes vnode) { count = (s2.vnodes vnode).count + 1 });
      } in
      some (set_fd pid fd (some f) s3)
]

-- `init_fd_table`; the code takes the three entries first and then the vnodes, which touch nothing of
-- each other.
pub init_fd_table : ℕ → ℕ → ℕ → ℕ → Files → Option Files
init_fd_table pid stdin stdout stderr s = elim (init_fd pid 0 stdin s) [
  | none ↦ none
  | some s1 ↦ elim (init_fd pid 1 stdout s1) [ none ↦ none | some s2 ↦ init_fd pid 2 stderr s2 ]
]
