-- ===== src/SystemCalls.antt =====
-- src/kernel/system_call/sys_call_intr.c: what the kernel does for a system call, in the thread of the
-- process that calls. A function gives the message that it sends and to whom, and what it does with the
-- answer; fields that it does not set keep what `m` had on the stack.
pub mod Library
pub mod Servers
pub mod Routes
use njuos.Prelude.{ℕ, ◌-◌, ◌^◌, List, [], ◌∷◌, ltb, ◌==◌, if◌then◌else◌}
use njuos.Prelude.Int.{ℤ, pos, negsuc}
use njuos.Message.{Msg}

-- The registers of `TrapFrame` that carry a call.
pub record Registers : Type 0 where
  pub eax : ℕ
  pub ebx : ℕ
  pub ecx : ℕ
  pub edx : ℕ

-- A register as an `int`.
unfoldable pub int_of : ℕ → ℤ
int_of w = if ltb w (2 ^ 31) then pos w else negsuc (2 ^ 32 - 1 - w)

-- `FILE`, `PCB_MANAGER` and `TIMER`
pub data Server : Type 0 where
  file : Server
  pcb_manager : Server
  timer : Server

-- What is done with the answer: put into `eax`; put there once the process that it names is woken; a NUL
-- behind that many bytes of the buffer; or nothing.
pub data Reply : Type 0 where
  returns : Reply
  wakes : Reply
  ends_line : Reply
  ignored : Reply

pub data Outcome : Type 0 where
  asks : Server → Msg → Reply → Outcome
  -- `eax` without a message
  gives : ℕ → Outcome
  -- `printk` of the string at an address
  prints : ℕ → Outcome
  nothing : Outcome

-- The case of a `switch` for a number; one that it does not know has no effect.
unfoldable pub case_of : ℕ → List (ℕ × Outcome) → Outcome
case_of id [] = nothing
case_of id ((k, o) ∷ rest) = if id == k then o else case_of id rest

-- `text_len` is `strlen` of a string of the process, `tf_addr` the address of its `TrapFrame`.
module _ (m : Msg) (text_len : ℕ → ℕ) (tf_addr pid : ℕ) (tf : Registers) where
  pub syscall_puts : Outcome
  syscall_puts =
      asks file
        (record m {
          src = pos pid;
          type = pos 2;
          i0 = pos pid;
          i1 = pos 1;
          i2 = int_of tf.ebx;
          i3 = pos (text_len tf.ebx);
        })
        returns

  pub syscall_fork : Outcome
  syscall_fork =
      asks pcb_manager (record m { src = pos pid; type = pos 2; i2 = int_of tf_addr }) wakes

  pub syscall_exec : Outcome
  syscall_exec =
      asks pcb_manager
        (record m { src = pos pid; type = pos 3; i0 = int_of tf.ebx; i1 = int_of tf.ecx }) returns

  pub syscall_exit : Outcome
  syscall_exit =
      asks pcb_manager (record m { src = pos pid; type = pos 4; i0 = int_of tf.ebx }) ignored

  pub syscall_getpid : Outcome
  syscall_getpid = gives pid

  pub syscall_waitpid : Outcome
  syscall_waitpid =
      asks pcb_manager (record m { src = pos pid; type = pos 5; i0 = int_of tf.ebx }) returns

  pub syscall_read_line : Outcome
  syscall_read_line =
      asks file
        (record m {
          src = pos pid;
          type = pos 1;
          i0 = pos pid;
          i1 = pos 0;
          i2 = int_of tf.ebx;
          i3 = pos 256;
        })
        ends_line

  pub syscall_sleep : Outcome
  syscall_sleep =
      asks timer (record m { src = pos pid; type = negsuc 0; i0 = int_of tf.ebx }) ignored

  pub syscall_open : Outcome
  syscall_open =
      asks file
        (record m {
          src = pos pid;
          type = pos 0;
          i0 = int_of tf.ebx;
          i1 = int_of tf.ecx;
          i2 = int_of tf.edx;
        })
        returns

  pub syscall_read : Outcome
  syscall_read =
      asks file
        (record m {
          src = pos pid;
          type = pos 1;
          i0 = pos pid;
          i1 = int_of tf.ebx;
          i2 = int_of tf.ecx;
          i3 = int_of tf.edx;
        })
        returns

  pub syscall_write : Outcome
  syscall_write =
      asks file
        (record m {
          src = pos pid;
          type = pos 2;
          i0 = pos pid;
          i1 = int_of tf.ebx;
          i2 = int_of tf.ecx;
          i3 = int_of tf.edx;
        })
        returns

  pub syscall_create : Outcome
  syscall_create =
      asks file (record m { src = pos pid; type = pos 4; i0 = int_of tf.ebx; i1 = int_of tf.ecx })
        returns

  pub syscall_close : Outcome
  syscall_close = asks file (record m { src = pos pid; type = pos 3; i0 = int_of tf.ebx }) returns

  pub syscall_delete : Outcome
  syscall_delete = asks file (record m { src = pos pid; type = pos 5; i0 = int_of tf.ebx }) returns

  pub syscall_lseek : Outcome
  syscall_lseek =
      asks file
        (record m {
          src = pos pid;
          type = pos 6;
          i0 = int_of tf.ebx;
          i1 = int_of tf.ecx;
          i2 = int_of tf.edx;
        })
        returns

  pub syscall_dup : Outcome
  syscall_dup = asks file (record m { src = pos pid; type = pos 7; i0 = int_of tf.ebx }) returns

  pub syscall_dup2 : Outcome
  syscall_dup2 =
      asks file (record m { src = pos pid; type = pos 8; i0 = int_of tf.ebx; i1 = int_of tf.ecx })
        returns

  pub syscall_mkdir : Outcome
  syscall_mkdir = asks file (record m { src = pos pid; type = pos 9; i0 = int_of tf.ebx }) returns

  pub syscall_rmdir : Outcome
  syscall_rmdir = asks file (record m { src = pos pid; type = pos 10; i0 = int_of tf.ebx }) returns

  pub syscall_lsdir : Outcome
  syscall_lsdir =
      asks file (record m { src = pos pid; type = pos 11; i0 = int_of tf.ebx; i1 = int_of tf.ecx })
        returns

  pub syscall_chdir : Outcome
  syscall_chdir = asks file (record m { src = pos pid; type = pos 12; i0 = int_of tf.ebx }) returns

  -- The `switch` of `do_syscall` as its cases, in their order.
  unfoldable pub cases : List (ℕ × Outcome)
  unfolding syscall_fork syscall_exec syscall_exit syscall_getpid syscall_waitpid syscall_puts
      syscall_read_line syscall_sleep syscall_open syscall_read syscall_write syscall_create
      syscall_close syscall_delete syscall_lseek syscall_dup syscall_dup2 syscall_mkdir
      syscall_rmdir syscall_lsdir syscall_chdir
  cases =
      (1, syscall_fork)
      ∷ (2, syscall_exec)
      ∷ (3, syscall_exit)
      ∷ (4, syscall_getpid)
      ∷ (5, syscall_waitpid)
      ∷ (30, prints tf.ebx)
      ∷ (6, syscall_puts)
      ∷ (9, syscall_read_line)
      ∷ (10, syscall_sleep)
      ∷ (11, syscall_open)
      ∷ (12, syscall_read)
      ∷ (13, syscall_write)
      ∷ (14, syscall_create)
      ∷ (15, syscall_close)
      ∷ (16, syscall_delete)
      ∷ (17, syscall_lseek)
      ∷ (18, syscall_dup)
      ∷ (19, syscall_dup2)
      ∷ (20, syscall_mkdir)
      ∷ (21, syscall_rmdir)
      ∷ (22, syscall_lsdir)
      ∷ (23, syscall_chdir)
      ∷ []

  -- `do_syscall`
  pub do_syscall : Outcome
  unfolding cases case_of
  do_syscall = case_of tf.eax cases
