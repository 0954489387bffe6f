-- ===== src/SystemCalls/Library.antt =====
-- src/kernel/system_call/syscall.c: the calls as a program makes them.
use njuos.Prelude.{ℕ, ◌-◌, ◌%◌, ◌^◌, List, [], ◌∷◌, get_or}
use njuos.Prelude.Int.{ℤ, pos, negsuc}
use njuos.SystemCalls.{Registers}

-- A call with its arguments, addresses as numbers.
pub data Call : Type 0 where
  puts : (s : ℕ) → Call
  puts1 : (s : ℕ) → Call
  fork : Call
  exec : (file_name args : ℕ) → Call
  exit : (exit_no : ℤ) → Call
  getpid : Call
  waitpid : (pid : ℤ) → Call
  read_line : (cmd : ℕ) → Call
  sys_sleep : (time : ℤ) → Call
  open_file : (pathname : ℕ) → (oflag mode : ℤ) → Call
  read : (fd : ℤ) → (buf : ℕ) → (len : ℤ) → Call
  write : (fd : ℤ) → (buf : ℕ) → (len : ℤ) → Call
  create : (pathname : ℕ) → (mode : ℤ) → Call
  close : (fd : ℤ) → Call
  delete_file : (pathname : ℕ) → Call
  lseek : (fd offset whence : ℤ) → Call
  dup : (fd : ℤ) → Call
  dup2 : (fd1 fd2 : ℤ) → Call
  mkdir : (dir : ℕ) → Call
  rmdir : (dir : ℕ) → Call
  lsdir : (dir buf : ℕ) → Call
  chdir : (dir : ℕ) → Call

-- An `int` as the word that is pushed.
unfoldable pub word_of : ℤ → ℕ
word_of (pos n) = n % 2 ^ 32
word_of (negsuc n) = 2 ^ 32 - 1 - n % 2 ^ 32

-- `syscall(id, ...)`: it loads three arguments, and where there are fewer, what lies behind them on the
-- stack.
pub syscall : (beyond : ℕ → ℕ) → (id : ℕ) → List ℕ → Registers
syscall beyond id args = record {
  eax = id;
  ebx = get_or args 0 (beyond 0);
  ecx = get_or args 1 (beyond 1);
  edx = get_or args 2 (beyond 2);
}

-- The functions of the library.
unfoldable pub registers_of : (beyond : ℕ → ℕ) → Call → Registers
unfolding syscall
registers_of beyond (puts s) = syscall beyond 6 (s ∷ [])
registers_of beyond (puts1 s) = syscall beyond 30 (s ∷ [])
registers_of beyond fork = syscall beyond 1 []
registers_of beyond (exec file_name args) = syscall beyond 2 (file_name ∷ args ∷ [])
registers_of beyond (exit exit_no) = syscall beyond 3 (word_of exit_no ∷ [])
registers_of beyond getpid = syscall beyond 4 []
registers_of beyond (waitpid pid) = syscall beyond 5 (word_of pid ∷ [])
registers_of beyond (read_line cmd) = syscall beyond 9 (cmd ∷ [])
registers_of beyond (sys_sleep time) = syscall beyond 10 (word_of time ∷ [])
registers_of beyond (open_file pathname oflag mode) =
    syscall beyond 11 (pathname ∷ word_of oflag ∷ word_of mode ∷ [])
registers_of beyond (read fd buf len) = syscall beyond 12 (word_of fd ∷ buf ∷ word_of len ∷ [])
registers_of beyond (write fd buf len) = syscall beyond 13 (word_of fd ∷ buf ∷ word_of len ∷ [])
registers_of beyond (create pathname mode) = syscall beyond 14 (pathname ∷ word_of mode ∷ [])
registers_of beyond (close fd) = syscall beyond 15 (word_of fd ∷ [])
registers_of beyond (delete_file pathname) = syscall beyond 16 (pathname ∷ [])
registers_of beyond (lseek fd offset whence) =
    syscall beyond 17 (word_of fd ∷ word_of offset ∷ word_of whence ∷ [])
registers_of beyond (dup fd) = syscall beyond 18 (word_of fd ∷ [])
registers_of beyond (dup2 fd1 fd2) = syscall beyond 19 (word_of fd1 ∷ word_of fd2 ∷ [])
registers_of beyond (mkdir dir) = syscall beyond 20 (dir ∷ [])
registers_of beyond (rmdir dir) = syscall beyond 21 (dir ∷ [])
registers_of beyond (lsdir dir buf) = syscall beyond 22 (dir ∷ buf ∷ [])
registers_of beyond (chdir dir) = syscall beyond 23 (dir ∷ [])
