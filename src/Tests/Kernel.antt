-- ===== src/Tests/Kernel.antt =====
-- Inputs for the theorems on the processes and their messages.
use njuos.Prelude.{◌≡◌, refl, none, some, [], ◌∷◌, ◌++◌, true, arith, length, map}
use njuos.Prelude.Int.{pos, negsuc, ◌+ℤ◌, ◌-ℤ◌}
use njuos.ListHead.Ring.{AllDistinct}
use njuos.Message.{Msg, blank}
use njuos.Process.Locks.{Locks}
use njuos.Process.Scheduler.{Processes, Sem, p_sem, v_sem}
use njuos.Process.Scheduler.Semaphores.{IsSem, Waits, Passed, Signalled, p_sem-IsSem, v_sem-IsSem}
use njuos.Process.Scheduler.Fairness.{turns, turns_ready}
use njuos.Process.Mailbox.{Mailbox, send, receive_from, received, real_src, same_src}
use njuos.Process.Mailbox.Delivery.{
  IsMailbox, NoneFrom, count_src, send-IsMailbox, receive_from_lem,
}

abbrev unlocked : Locks
unlocked = record { lock_count = 0; interrupts = true }

-- Processes 4, 5 and 6 are ready, 7 waits.
abbrev processes : Processes
processes = record {
  ready = 4 ∷ 5 ∷ 6 ∷ [];
  waiting = 7 ∷ [];
  current = some 5;
  pre_current = some 5;
}

abbrev at_idle : Processes
at_idle = record processes { current = none; pre_current = none }

turns_ready_example : turns (length at_idle.ready) at_idle ≡ map some at_idle.ready
turns_ready_example = turns_ready at_idle refl distinct
  where
    distinct : AllDistinct at_idle.ready
    distinct = (((omega arith, (omega arith, tt))), ((omega arith, tt), (tt, tt)))

-- A semaphore on which process 7 blocks.
abbrev blocked : Sem
blocked = record { token = negsuc 0; block = 7 ∷ [] }

blocked-IsSem : IsSem blocked
unfolding IsSem
blocked-IsSem = refl

blocked-Waits : Waits blocked processes
unfolding Waits
blocked-Waits = λ p. omega arith

p_sem-IsSem_example :
    (sem' : Sem) × (s' : Processes) × (p_sem blocked processes ≡ some (sem', s'))
    × (sem'.token ≡ blocked.token -ℤ pos 1)
    × IsSem sem'
    × Passed blocked processes 5 sem' s'
p_sem-IsSem_example = p_sem-IsSem blocked processes 5 blocked-IsSem refl

v_sem-IsSem_example :
    (sem' : Sem) × (s' : Processes) × (v_sem blocked processes ≡ some (sem', s'))
    × (sem'.token ≡ blocked.token +ℤ pos 1)
    × IsSem sem'
    × Waits sem' s'
    × Signalled blocked processes sem' s'
v_sem-IsSem_example = v_sem-IsSem blocked processes blocked-IsSem blocked-Waits

-- A message from process 3 and one from an interrupt.
abbrev from_three : Msg
from_three = record blank { src = pos 3 }

abbrev from_interrupt : Msg
from_interrupt = record blank { src = negsuc 1 }

three_valid : real_src (pos 3) ≡ some 3
unfolding real_src
three_valid = refl

interrupt_valid : real_src (negsuc 1) ≡ some 50
unfolding real_src
interrupt_valid = refl

other_sender : NoneFrom (negsuc 1) (from_three ∷ [])
unfolding same_src
other_sender = (refl, tt)

abbrev two_messages : Mailbox
two_messages = record {
  free_queue = 98;
  msg_queue = from_three ∷ from_interrupt ∷ [];
  any_sem = pos 2;
  pid_sem = λ i. pos (count_src i (from_three ∷ from_interrupt ∷ []));
}

two_messages-IsMailbox : IsMailbox two_messages
two_messages-IsMailbox = record { slots = refl; all = refl; each = λ i. refl }

send-IsMailbox_example :
    (b' : Mailbox) × (send (pos 9) from_three two_messages ≡ some b')
    × (b'.msg_queue ≡ two_messages.msg_queue ++ record from_three { dest = pos 9 } ∷ [])
    × IsMailbox b'
send-IsMailbox_example =
    send-IsMailbox (pos 9) from_three two_messages 3 two_messages-IsMailbox three_valid
      (omega arith)

receive_from_lem_example :
    (b' : Mailbox) × (receive_from (negsuc 1) two_messages ≡ some (received from_interrupt b'))
    × (b'.msg_queue ≡ from_three ∷ [])
    × IsMailbox b'
receive_from_lem_example =
    receive_from_lem (negsuc 1) two_messages (from_three ∷ []) from_interrupt [] 50
      two_messages-IsMailbox refl other_sender refl interrupt_valid interrupt_valid
