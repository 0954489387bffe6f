-- ===== src/SystemCalls/Servers.antt =====
-- The loops of the servers that system calls go to: `file_thread` of
-- src/kernel/file_system/fm_syscall.c, `pcb_manager_thread` of src/kernel/manager_server/pcb_manager.c
-- and `timer_driver_thread` of src/kernel/drivers/timer/timer.c, as the handler that a message leads to.
use njuos.Prelude.{ℕ, List, [], ◌∷◌, Option, none, some, ◌==◌, if◌then◌else◌}
use njuos.Prelude.Int.{ℤ, pos, negsuc}
use njuos.Message.{Msg}
use njuos.SystemCalls.{Server, file, pcb_manager, timer}
use njuos.SystemCalls.Library.{word_of}

-- A handler with what it reads from its message; `pid` is `m->src`.
pub data Handler : Type 0 where
  opens : (pid : ℤ) → (path : ℕ) → (flag : ℤ) → Handler
  reads : (pid req_pid fd : ℤ) → (buf : ℕ) → (len : ℤ) → Handler
  writes : (pid req_pid fd : ℤ) → (buf : ℕ) → (len : ℤ) → Handler
  creates : (pid : ℤ) → (path : ℕ) → Handler
  closes : (pid fd : ℤ) → Handler
  deletes : (pid : ℤ) → (path : ℕ) → Handler
  seeks : (pid fd offset whence : ℤ) → Handler
  dups : (pid fd : ℤ) → Handler
  dups_to : (pid fd new_fd : ℤ) → Handler
  makes_dir : (pid : ℤ) → (path : ℕ) → Handler
  removes_dir : (pid : ℤ) → (path : ℕ) → Handler
  lists_dir : (pid : ℤ) → (path buf : ℕ) → Handler
  changes_dir : (pid : ℤ) → (path : ℕ) → Handler
  ends_files : (of : ℤ) → Handler
  copies_fds : (cpid ppid : ℤ) → Handler
  starts_fds : (of : ℤ) → Handler
  starts : (file_name : ℕ) → Handler
  forks : (pid : ℤ) → (tf : ℕ) → Handler
  execs : (pid : ℤ) → (file_name args : ℕ) → Handler
  exits : (pid status : ℤ) → Handler
  waits : (pid child : ℤ) → Handler
  sets_timer : (pid sec : ℤ) → Handler

-- The case of a `switch` for a type; `none` is `assert(0)`.
pub case_for : ℕ → List (ℕ × Handler) → Option Handler
case_for type [] = none
case_for type ((k, h) ∷ rest) = if type == k then some h else case_for type rest

unfoldable pub file_thread : Msg → List (ℕ × Handler)
file_thread m =
    (0, opens m.src (word_of m.i0) m.i1)
    ∷ (1, reads m.src m.i0 m.i1 (word_of m.i2) m.i3)
    ∷ (2, writes m.src m.i0 m.i1 (word_of m.i2) m.i3)
    ∷ (4, creates m.src (word_of m.i0))
    ∷ (3, closes m.src m.i0)
    ∷ (5, deletes m.src (word_of m.i0))
    ∷ (6, seeks m.src m.i0 m.i1 m.i2)
    ∷ (7, dups m.src m.i0)
    ∷ (8, dups_to m.src m.i0 m.i1)
    ∷ (9, makes_dir m.src (word_of m.i0))
    ∷ (10, removes_dir m.src (word_of m.i0))
    ∷ (11, lists_dir m.src (word_of m.i0) (word_of m.i1))
    ∷ (12, changes_dir m.src (word_of m.i0))
    ∷ (13, ends_files m.i0)
    ∷ (15, starts_fds m.i0)
    ∷ (14, copies_fds m.i0 m.i1)
    ∷ []

unfoldable pub pcb_manager_thread : Msg → List (ℕ × Handler)
pcb_manager_thread m =
    (1, starts (word_of m.i2))
    ∷ (2, forks m.src (word_of m.i2))
    ∷ (3, execs m.src (word_of m.i0) (word_of m.i1))
    ∷ (4, exits m.src m.i0)
    ∷ (5, waits m.src m.i0)
    ∷ []

-- The round of each thread; `NEW_TIMER` is the one type below 0.
unfoldable pub serve_message : Server → Msg → Option Handler
unfolding case_for file_thread pcb_manager_thread
serve_message file m = elim m.type [ pos type ↦ case_for type (file_thread m) | negsuc n ↦ none ]
serve_message pcb_manager m = elim m.type [
  | pos type ↦ case_for type (pcb_manager_thread m)
  | negsuc n ↦ none
]
serve_message timer m = elim m.type [
  | pos type ↦ none
  | negsuc n ↦ if n == 0 then some (sets_timer m.src m.i0) else none
]
