-- ===== src/SystemCalls/Routes.antt =====
-- Where the system calls arrive: from the library through `do_syscall` to the handlers of the servers.
use njuos.Prelude.{
  ℕ, ◌^◌, ◌<◌, ◌≤◌, ◌≡◌, refl, Bool, true, false, ◌&&◌, ◌∷◌, List, [], none, some, arith, ◌==◌,
}
use njuos.Prelude.Int.{ℤ, pos, negsuc, pos_part, neg_part}
use njuos.Message.{Msg}
use njuos.SystemCalls.{
  Registers, int_of, Reply, returns, wakes, ends_line, ignored, Outcome, asks, gives, prints,
  nothing, do_syscall, case_of, cases,
}
use njuos.SystemCalls.Library.{
  Call, puts, puts1, fork, exec, exit, getpid, waitpid, read_line, sys_sleep, open_file, read,
  write, create, close, delete_file, lseek, dup, dup2, mkdir, rmdir, lsdir, chdir, word_of,
  registers_of,
}
use njuos.SystemCalls.Servers.{
  Handler, opens, reads, writes, creates, closes, deletes, seeks, dups, dups_to, makes_dir,
  removes_dir, lists_dir, changes_dir, ends_files, copies_fds, starts_fds, starts, forks, execs,
  exits, waits, sets_timer, serve_message,
}

-- An `int`, and an address.
abbrev pub IsInt : ℤ → Type 0
IsInt z = (pos_part z < 2 ^ 31) × (neg_part z ≤ 2 ^ 31)

abbrev pub IsWord : ℕ → Type 0
IsWord w = w < 2 ^ 32

int_of-word_of : (z : ℤ) → IsInt z → int_of (word_of z) ≡ z
unfolding int_of word_of
int_of-word_of z h = ground arith

word_of-int_of : (w : ℕ) → IsWord w → word_of (int_of w) ≡ w
unfolding int_of word_of
word_of-int_of w h = ground arith

-- What becomes of a call: a handler is reached, a server meets `assert(0)`, or none is asked.
pub data Route : Type 0 where
  reaches : Handler → Reply → Route
  asserts : Route
  stays : Outcome → Route

pub route : Outcome → Route
route (asks server m reply) = elim (serve_message server m) [
  | none ↦ asserts
  | some h ↦ reaches h reply
]
route (gives v) = stays (gives v)
route (prints s) = stays (prints s)
route nothing = stays nothing

-- The arguments of a call are `int`s and addresses.
unfoldable pub Fits : Call → Type 0
Fits (puts s) = IsWord s
Fits (puts1 s) = IsWord s
Fits fork = Unit
Fits (exec file_name args) = IsWord file_name × IsWord args
Fits (exit exit_no) = IsInt exit_no
Fits getpid = Unit
Fits (waitpid child) = IsInt child
Fits (read_line cmd) = IsWord cmd
Fits (sys_sleep time) = IsInt time
Fits (open_file pathname oflag mode) = IsWord pathname × IsInt oflag × IsInt mode
Fits (read fd buf len) = IsInt fd × IsWord buf × IsInt len
Fits (write fd buf len) = IsInt fd × IsWord buf × IsInt len
Fits (create pathname mode) = IsWord pathname × IsInt mode
Fits (close fd) = IsInt fd
Fits (delete_file pathname) = IsWord pathname
Fits (lseek fd offset whence) = IsInt fd × IsInt offset × IsInt whence
Fits (dup fd) = IsInt fd
Fits (dup2 fd1 fd2) = IsInt fd1 × IsInt fd2
Fits (mkdir dir) = IsWord dir
Fits (rmdir dir) = IsWord dir
Fits (lsdir dir buf) = IsWord dir × IsWord buf
Fits (chdir dir) = IsWord dir

-- Which handler each call of the library is for, with which arguments, and what its answer is for.
unfoldable pub meant : (text_len : ℕ → ℕ) → (tf_addr pid : ℕ) → Call → Route
meant text_len tf_addr pid (puts s) =
    reaches (writes (pos pid) (pos pid) (pos 1) s (pos (text_len s))) returns
meant text_len tf_addr pid (puts1 s) = stays (prints s)
meant text_len tf_addr pid fork = reaches (forks (pos pid) tf_addr) wakes
meant text_len tf_addr pid (exec file_name args) = reaches (execs (pos pid) file_name args) returns
meant text_len tf_addr pid (exit exit_no) = reaches (exits (pos pid) exit_no) ignored
meant text_len tf_addr pid getpid = stays (gives pid)
meant text_len tf_addr pid (waitpid child) = reaches (waits (pos pid) child) returns
meant text_len tf_addr pid (read_line cmd) =
    reaches (reads (pos pid) (pos pid) (pos 0) cmd (pos 256)) ends_line
meant text_len tf_addr pid (sys_sleep time) = reaches (sets_timer (pos pid) time) ignored
meant text_len tf_addr pid (open_file pathname oflag mode) =
    reaches (opens (pos pid) pathname oflag) returns
meant text_len tf_addr pid (read fd buf len) =
    reaches (reads (pos pid) (pos pid) fd buf len) returns
meant text_len tf_addr pid (write fd buf len) =
    reaches (writes (pos pid) (pos pid) fd buf len) returns
meant text_len tf_addr pid (create pathname mode) = reaches (creates (pos pid) pathname) returns
meant text_len tf_addr pid (close fd) = reaches (closes (pos pid) fd) returns
meant text_len tf_addr pid (delete_file pathname) = reaches (deletes (pos pid) pathname) returns
meant text_len tf_addr pid (lseek fd offset whence) =
    reaches (seeks (pos pid) fd offset whence) returns
meant text_len tf_addr pid (dup fd) = reaches (dups (pos pid) fd) returns
meant text_len tf_addr pid (dup2 fd1 fd2) = reaches (dups_to (pos pid) fd1 fd2) returns
meant text_len tf_addr pid (mkdir dir) = reaches (makes_dir (pos pid) dir) returns
meant text_len tf_addr pid (rmdir dir) = reaches (removes_dir (pos pid) dir) returns
meant text_len tf_addr pid (lsdir dir buf) = reaches (lists_dir (pos pid) dir buf) returns
meant text_len tf_addr pid (chdir dir) = reaches (changes_dir (pos pid) dir) returns

-- A call of the library by a process, with arguments that are ints and addresses, reaches the handler that
-- it is for, with the arguments that it was given, whatever lies behind them on the stack and whatever
-- the message held before, and the answer goes where it should.
pub route-do_syscall :
    (m : Msg) (text_len : ℕ → ℕ) (tf_addr pid : ℕ) (beyond : ℕ → ℕ) (c : Call)
    → IsWord tf_addr
    → Fits c
    → route (do_syscall m text_len tf_addr pid (registers_of beyond c))
      ≡ meant text_len tf_addr pid c
unfolding route do_syscall registers_of serve_message meant Fits
route-do_syscall m text_len tf_addr pid beyond (puts s) w h = rw (word_of-int_of s h) refl
route-do_syscall m text_len tf_addr pid beyond (puts1 s) w h = refl
route-do_syscall m text_len tf_addr pid beyond fork w h = rw (word_of-int_of tf_addr w) refl
route-do_syscall m text_len tf_addr pid beyond (exec file_name args) w h =
    let (q0, q1) = h in rw (word_of-int_of file_name q0, word_of-int_of args q1) refl
route-do_syscall m text_len tf_addr pid beyond (exit exit_no) w h =
    rw (int_of-word_of exit_no h) refl
route-do_syscall m text_len tf_addr pid beyond getpid w h = refl
route-do_syscall m text_len tf_addr pid beyond (waitpid child) w h =
    rw (int_of-word_of child h) refl
route-do_syscall m text_len tf_addr pid beyond (read_line cmd) w h = rw (word_of-int_of cmd h) refl
route-do_syscall m text_len tf_addr pid beyond (sys_sleep time) w h =
    rw (int_of-word_of time h) refl
route-do_syscall m text_len tf_addr pid beyond (open_file pathname oflag mode) w h =
    let (q0, q1, _) = h in rw (word_of-int_of pathname q0, int_of-word_of oflag q1) refl
route-do_syscall m text_len tf_addr pid beyond (read fd buf len) w h =
    let (q0, q1, q2) = h in
    rw (int_of-word_of fd q0, word_of-int_of buf q1, int_of-word_of len q2) refl
route-do_syscall m text_len tf_addr pid beyond (write fd buf len) w h =
    let (q0, q1, q2) = h in
    rw (int_of-word_of fd q0, word_of-int_of buf q1, int_of-word_of len q2) refl
route-do_syscall m text_len tf_addr pid beyond (create pathname mode) w h =
    let (q0, _) = h in rw (word_of-int_of pathname q0) refl
route-do_syscall m text_len tf_addr pid beyond (close fd) w h = rw (int_of-word_of fd h) refl
route-do_syscall m text_len tf_addr pid beyond (delete_file pathname) w h =
    rw (word_of-int_of pathname h) refl
route-do_syscall m text_len tf_addr pid beyond (lseek fd offset whence) w h =
    let (q0, q1, q2) = h in
    rw (int_of-word_of fd q0, int_of-word_of offset q1, int_of-word_of whence q2) refl
route-do_syscall m text_len tf_addr pid beyond (dup fd) w h = rw (int_of-word_of fd h) refl
route-do_syscall m text_len tf_addr pid beyond (dup2 fd1 fd2) w h =
    let (q0, q1) = h in rw (int_of-word_of fd1 q0, int_of-word_of fd2 q1) refl
route-do_syscall m text_len tf_addr pid beyond (mkdir dir) w h = rw (word_of-int_of dir h) refl
route-do_syscall m text_len tf_addr pid beyond (rmdir dir) w h = rw (word_of-int_of dir h) refl
route-do_syscall m text_len tf_addr pid beyond (lsdir dir buf) w h =
    let (q0, q1) = h in rw (word_of-int_of dir q0, word_of-int_of buf q1) refl
route-do_syscall m text_len tf_addr pid beyond (chdir dir) w h = rw (word_of-int_of dir h) refl

-- The handlers that only the other servers ask for, and who sent the message.
abbrev is_pid : ℕ → ℤ → Bool
is_pid pid (pos p) = p == pid
is_pid pid (negsuc n) = false

pub from_process : (pid : ℕ) → Handler → Bool
from_process pid (opens p path flag) = is_pid pid p
from_process pid (reads p r fd buf len) = is_pid pid p && is_pid pid r
from_process pid (writes p r fd buf len) = is_pid pid p && is_pid pid r
from_process pid (creates p path) = is_pid pid p
from_process pid (closes p fd) = is_pid pid p
from_process pid (deletes p path) = is_pid pid p
from_process pid (seeks p fd offset whence) = is_pid pid p
from_process pid (dups p fd) = is_pid pid p
from_process pid (dups_to p fd new_fd) = is_pid pid p
from_process pid (makes_dir p path) = is_pid pid p
from_process pid (removes_dir p path) = is_pid pid p
from_process pid (lists_dir p path buf) = is_pid pid p
from_process pid (changes_dir p path) = is_pid pid p
from_process pid (ends_files p) = false
from_process pid (copies_fds c p) = false
from_process pid (starts_fds p) = false
from_process pid (starts file_name) = false
from_process pid (forks p tf) = is_pid pid p
from_process pid (execs p file_name args) = is_pid pid p
from_process pid (exits p status) = is_pid pid p
from_process pid (waits p child) = is_pid pid p
from_process pid (sets_timer p sec) = is_pid pid p

pub allowed : (pid : ℕ) → Route → Bool
allowed pid (reaches h reply) = from_process pid h
allowed pid asserts = false
allowed pid (stays o) = true

all_allowed : (pid : ℕ) → List (ℕ × Outcome) → Bool
all_allowed pid [] = true
all_allowed pid ((k, o) ∷ rest) = allowed pid (route o) && all_allowed pid rest

case_of-allowed :
    (pid id : ℕ) (os : List (ℕ × Outcome))
    → all_allowed pid os ≡ true
    → allowed pid (route (case_of id os)) ≡ true
unfolding case_of all_allowed allowed route
case_of-allowed pid id [] h = refl
case_of-allowed pid id ((k, o) ∷ rest) h = ground (arith, case_of-allowed pid id rest)

every :
    (m : Msg) (text_len : ℕ → ℕ) (tf_addr pid : ℕ) (tf : Registers)
    → all_allowed pid (cases m text_len tf_addr pid tf) ≡ true
unfolding all_allowed allowed route cases serve_message from_process
every m text_len tf_addr pid tf = let self : (pid == pid) ≡ true = ground arith in rw self refl

-- Whatever a process has in its registers at a system call, no server meets `assert(0)` for it: the
-- message leads to a handler, which has the process as its sender and, for a read or a write, as the
-- process whose buffer is meant, and is none of those that only the servers ask for.
pub do_syscall-allowed :
    (m : Msg) (text_len : ℕ → ℕ) (tf_addr pid : ℕ) (tf : Registers)
    → allowed pid (route (do_syscall m text_len tf_addr pid tf)) ≡ true
unfolding do_syscall allowed route
do_syscall-allowed m text_len tf_addr pid tf =
    case_of-allowed pid tf.eax (cases m text_len tf_addr pid tf) (every m text_len tf_addr pid tf)
