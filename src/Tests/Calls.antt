-- ===== src/Tests/Calls.antt =====
-- Inputs for the theorems on system calls.
use njuos.Prelude.{◌≡◌, true, arith}
use njuos.Prelude.Int.{pos, negsuc}
use njuos.Message.{blank}
use njuos.SystemCalls.{Registers, do_syscall, returns}
use njuos.SystemCalls.Library.{lseek, registers_of}
use njuos.SystemCalls.Servers.{seeks}
use njuos.SystemCalls.Routes.{
  route, reaches, Fits, allowed, meant, route-do_syscall, do_syscall-allowed,
}

-- `lseek(3, -2, 1)` by the process 20.
route-do_syscall_example :
    route (
      do_syscall blank (λ s. 5) 4096 20 (registers_of (λ k. 99) (lseek (pos 3) (negsuc 1) (pos 1))))
    ≡ reaches (seeks (pos 20) (pos 3) (negsuc 1) (pos 1)) returns
unfolding meant Fits
route-do_syscall_example =
    route-do_syscall blank (λ s. 5) 4096 20 (λ k. 99) (lseek (pos 3) (negsuc 1) (pos 1))
      (omega arith)
      ((omega arith, omega arith), (omega arith, omega arith), (omega arith, omega arith))

-- `SYS_read` with the greatest word as the descriptor.
abbrev registers : Registers
registers = record { eax = 12; ebx = 4294967295; ecx = 0; edx = 7 }

do_syscall-allowed_example : allowed 20 (route (do_syscall blank (λ s. 5) 4096 20 registers)) ≡ true
do_syscall-allowed_example = do_syscall-allowed blank (λ s. 5) 4096 20 registers
