-- ===== src/FileSystem/Handlers.antt =====
-- The handlers of src/kernel/file_system/fm_syscall.c as `file_thread` calls them: from what they read in
-- the message to the answer. A length below 0 counts as 0, which it is to the loops over a file.

pub mod Calls
use njuos.Prelude.{
  ℕ, zero, suc, ◌==◌, List, [], ◌∷◌, Bool, true, false, Option, none, some, ltb, if◌then◌else◌,
  update,
}
use njuos.Prelude.Int.{ℤ, pos, negsuc, pos_part}
use njuos.Message.{pool_num}
use njuos.FileSystem.{INode, VNode, dir}
use njuos.FileSystem.Bitmap.{get_free_disk_inode}
use njuos.FileSystem.INodes.{write_inode}
use njuos.FileSystem.Files.{
  Files, get_free_vnode, fm_close, fm_lseek, fm_dup, fm_dup2, fm_exit_file, copy_fd_table,
  init_fd_table,
}
use njuos.FileSystem.Server.{FileServer, fm_read, fm_write}
use njuos.FileSystem.Directories.{DirEntry, start_of, directory_of, fm_chdir}
use njuos.FileSystem.Directories.Changes.{Volume, add_inode_into_dir, fm_mkdir, create}
use njuos.FileSystem.Directories.Deletions.{delete_loop}
use njuos.FileSystem.Directories.Opening.{fm_open, volume_of, with_volume}
use njuos.FileSystem.Directories.Listing.{lsdir}
use njuos.SystemCalls.Library.{word_of}
use njuos.SystemCalls.Servers.{
  Handler, opens, reads, writes, creates, closes, deletes, seeks, dups, dups_to, makes_dir,
  removes_dir, lists_dir, changes_dir, ends_files, copies_fds, starts_fds, starts, forks, execs,
  exits, waits, sets_timer,
}

-- The file server with `current_dir` of the processes.
pub record System : Type 0 where
  pub server : FileServer
  pub dirs : ℕ → DirEntry

-- What the sender gets: `m->ret`, or with it bytes in the memory of a process, or no message at all.
pub data Answer : Type 0 where
  answers : ℤ → Answer
  fills : ℤ → List ℕ → Answer
  silent : Answer

-- `-1` for what is not there.
pub ret_of : Option ℕ → ℤ
ret_of none = negsuc 0
ret_of (some n) = pos n

-- `fetch_pcb` with its assertion, and a descriptor; one below 0 is outside the table.
pub fetch_pcb {ℓ} : {A : Type ℓ} → ℤ → (ℕ → Option A) → Option A
fetch_pcb (pos pid) next = if ltb pid pool_num then next pid else none
fetch_pcb (negsuc n) next = none

abbrev pub at_fd {ℓ} : {A : Type ℓ} → ℤ → (ℕ → Option A) → Option A
at_fd (pos fd) next = next fd
at_fd (negsuc n) next = none

-- The string that a buffer starts with.
pub string_of : List ℕ → List ℕ
string_of [] = []
string_of (c ∷ cs) = let rest = c ∷ string_of cs in if c == 0 then [] else rest

abbrev pub set_files : Files → System → System
set_files files s = record s { server = record s.server { files = files } }

abbrev pub set_volume : Volume → System → System
set_volume v s = record s { server = with_volume s.server v }

-- A handler that changes the open files and answers 0.
abbrev pub on_files : Option Files → System → Option (Answer × System)
on_files none s = none
on_files (some files) s = some (answers (pos 0), set_files files s)

abbrev pub on_volume : Option Volume → System → Option (Answer × System)
on_volume none s = none
on_volume (some v) s = some (answers (pos 0), set_volume v s)

-- `fm_read`, with -1 for a descriptor that is not open, and `fm_lseek`, which does not answer then.
unfoldable pub read_answer :
    Option (Option (List ℕ × ℕ) × FileServer) → System → Option (Answer × System)
read_answer none s = none
read_answer (some (none, server)) s = some (answers (negsuc 0), record s { server = server })
read_answer (some (some (bytes, ret), server)) s =
    some (fills (pos ret) bytes, record s { server = server })

unfoldable pub seek_answer : Option (Bool × Files) → System → Option (Answer × System)
seek_answer none s = none
seek_answer (some (false, files)) s = some (silent, s)
seek_answer (some (true, files)) s = some (answers (pos 0), set_files files s)

-- What the server finds outside its state: the old content of the index blocks, of a block buffer, of the
-- bytes behind a name and of the words of `index_block2`, and of an inode on the stack; `root_dir` and the
-- vnodes of the terminals; what terminals read and write, and the memory of processes.
pub record Context : Type 0 where
  pub blocks : ℕ → ℕ → ℕ
  pub buf : ℕ → ℕ
  pub junk : ℕ → ℕ
  pub old : ℕ → ℕ
  pub stack : INode
  pub root : DirEntry
  pub stdin : ℕ
  pub stdout : ℕ
  pub stderr : ℕ
  pub tty_read : ℕ → ℕ → List ℕ × ℕ
  pub tty_write : ℕ → List ℕ → ℕ
  pub bytes_at : (pid at len : ℕ) → List ℕ
  -- for the deletions
  pub fuel : ℕ

module _ (c : Context) where
  -- The 256 bytes of the path buffer.
  abbrev path_of : (pid path : ℕ) → List ℕ
  path_of pid path = string_of (c.bytes_at pid path 256)

  -- `fm_delete_file` and `fm_rmdir`
  pub fm_delete : (is_file : Bool) → (pid path : ℕ) → System → Option (Answer × System)
  fm_delete is_file pid path s =
      let (cur, bytes) = start_of c.root (s.dirs pid) (c.bytes_at pid path 256) in
      on_volume (delete_loop c.old c.fuel c.buf is_file false cur.index bytes (volume_of s.server))
        s

  pub fm_lsdir : (pid path : ℕ) → System → Option (Answer × System)
  fm_lsdir pid path s =
      let (cur, p) = start_of c.root (s.dirs pid) (path_of pid path) in
      elim (directory_of s.server.files.disk c.buf cur p) [
        | none ↦ some (answers (negsuc 0), s)
        | some e ↦ some (fills (pos 0) (lsdir s.server.files.disk c.buf e.index), s)
      ]

  -- `fm_create` answers 0 for a file that is there, too.
  pub fm_create : (pid path : ℕ) → System → Option (Answer × System)
  fm_create pid path s =
      elim (create c.blocks c.buf c.junk c.stack c.root (s.dirs pid) (path_of pid path)
        (volume_of s.server)) [
          | none ↦ none
          | some (made, v) ↦ some (answers (pos 0), set_volume v s)
        ]

  -- A round of `file_thread` on the handler that the message is for. The handlers behind `copies_fds` are
  -- other servers'.
  pub handle : Handler → System → Option (Answer × System)
  handle (opens p path flag) s = fetch_pcb p (λ pid.
      elim (fm_open c.blocks c.buf c.junk c.stack c.root (s.dirs pid) pid (path_of pid path)
        (word_of flag) s.server) [
          | none ↦ none
          | some (fd, server) ↦ some (answers (ret_of fd), record s { server = server })
        ])
  handle (reads p req_pid fd at len) s =
      fetch_pcb p
        (λ pid. at_fd fd (λ n. read_answer (fm_read c.tty_read pid n (pos_part len) s.server) s))
  handle (writes p req_pid fd at len) s = fetch_pcb p (λ pid. at_fd fd (λ n.
      fetch_pcb req_pid (λ req.
        elim (fm_write c.blocks c.tty_write pid n (c.bytes_at req at (pos_part len)) (pos_part len)
          s.server) [
            | none ↦ none
            | some (ret, server) ↦ some (answers (ret_of ret), record s { server = server })
          ])))
  handle (creates p path) s = fetch_pcb p (λ pid. fm_create pid path s)
  handle (closes p fd) s =
      fetch_pcb p (λ pid. at_fd fd (λ n. on_files (fm_close pid n s.server.files) s))
  handle (deletes p path) s = fetch_pcb p (λ pid. fm_delete true pid path s)
  handle (seeks p fd offset whence) s = fetch_pcb p (λ pid.
      at_fd fd
        (λ n. seek_answer (fm_lseek pid n (word_of offset) (word_of whence) s.server.files) s))
  handle (dups p fd) s = fetch_pcb p (λ pid. at_fd fd (λ n. elim (fm_dup pid n s.server.files) [
    | none ↦ none
    | some (none, files) ↦ some (silent, s)
    | some (some new_fd, files) ↦ some (answers (pos new_fd), set_files files s)
  ]))
  handle (dups_to p fd new_fd) s =
      fetch_pcb p
        (λ pid. at_fd fd (λ n. at_fd new_fd (λ k. on_files (fm_dup2 pid n k s.server.files) s)))
  handle (makes_dir p path) s = fetch_pcb p (λ pid.
      on_volume
        (fm_mkdir c.blocks c.buf c.junk c.stack c.root (s.dirs pid) (path_of pid path)
          (volume_of s.server))
        s)
  handle (removes_dir p path) s = fetch_pcb p (λ pid. fm_delete false pid path s)
  handle (lists_dir p path at) s = fetch_pcb p (λ pid. fm_lsdir pid path s)
  handle (changes_dir p path) s = fetch_pcb p (λ pid.
      let (cwd, done) = fm_chdir s.server.files.disk c.buf c.root (s.dirs pid) (path_of pid path) in
      some (answers (if done then pos 0 else negsuc 0), record s { dirs = update s.dirs pid cwd }))
  handle (ends_files p) s = fetch_pcb p (λ pid. on_files (some (fm_exit_file pid s.server.files)) s)
  handle (starts_fds p) s =
      fetch_pcb p (λ pid. on_files (init_fd_table pid c.stdin c.stdout c.stderr s.server.files) s)
  handle (copies_fds child p) s =
      fetch_pcb child
        (λ cpid. fetch_pcb p (λ ppid. on_files (some (copy_fd_table cpid ppid s.server.files)) s))
  handle (starts file_name) s = none
  handle (forks p tf) s = none
  handle (execs p file_name args) s = none
  handle (exits p status) s = none
  handle (waits p child) s = none
  handle (sets_timer p sec) s = none
