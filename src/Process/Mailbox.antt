-- ===== src/Process/Mailbox.antt =====
-- src/kernel/process/message.c: the messages of a process. `P` on the two semaphores of the owner is
-- its token alone here: it goes down by one, and the owner sleeps if it becomes negative, until a `V`.
pub mod Delivery
use njuos.Prelude.{
  ℕ, zero, suc, ◌+◌, ◌-◌, List, [], ◌∷◌, ◌++◌, Option, none, some, Bool, true, false, ◌==◌,
  if◌then◌else◌, ltb, update, ◌&&◌,
}
use njuos.Prelude.Int.{ℤ, pos, negsuc, ◌+ℤ◌, ◌-ℤ◌, ltb_ℤ}
use njuos.Message.{Msg, pool_num}

-- `MSG_NUM`
abbrev pub msg_num : ℕ
msg_num = 100

pub record Mailbox : Type 0 where
  -- how many slots `free_queue` has
  pub free_queue : ℕ
  pub msg_queue : List Msg
  -- the tokens of `any_sem` and `pid_sem[i]`
  pub any_sem : ℤ
  pub pid_sem : ℕ → ℤ

-- `init_msg`
pub init_msg : Mailbox
init_msg = record { free_queue = msg_num; msg_queue = []; any_sem = pos 0; pid_sem = λ i. pos 0 }

-- `(src == -2) ? POOL_NUM : src` as an index of `pid_sem`; `none` is an index out of bounds.
unfoldable pub real_src : ℤ → Option ℕ
real_src (pos n) = if ltb n (pool_num + 1) then some n else none
real_src (negsuc n) = if n == 1 then some pool_num else none

-- `msg->src == src`
abbrev pub same_src : ℤ → ℤ → Bool
same_src (pos a) (pos b) = a == b
same_src (pos a) (negsuc b) = false
same_src (negsuc a) (pos b) = false
same_src (negsuc a) (negsuc b) = a == b

-- `send`; `none` is a queue with no free slot, whose head the code would take for a message, or a
-- sender out of bounds.
pub send : (dest : ℤ) → Msg → Mailbox → Option Mailbox
send dest m b = elim (real_src m.src) [
  | none ↦ none
  | some i ↦
      if b.free_queue == 0
      then none
      else some (record {
        free_queue = b.free_queue - 1;
        msg_queue = b.msg_queue ++ record m { dest = dest } ∷ [];
        any_sem = b.any_sem +ℤ pos 1;
        pid_sem = update b.pid_sem i (b.pid_sem i +ℤ pos 1);
      })
]

-- `P` on the one semaphore and on the other: whether the owner sleeps, and what is left.
pub p_any : Mailbox → Bool × Mailbox
p_any b = let token = b.any_sem -ℤ pos 1 in (ltb_ℤ token (pos 0), record b { any_sem = token })

pub p_pid : ℕ → Mailbox → Bool × Mailbox
p_pid i b =
    let token = b.pid_sem i -ℤ pos 1 in
    (ltb_ℤ token (pos 0), record b { pid_sem = update b.pid_sem i token })

-- Where a call of `receive` is: it sleeps in its first or in its second `P`, or it has its message.
pub data Receiving : Type 0 where
  in_first : Mailbox → Receiving
  in_second : Mailbox → Receiving
  received : Msg → Mailbox → Receiving

-- The end of `receive` for any sender, behind its `P`s: the first message.
pub take_first : Mailbox → Option Receiving
take_first b = elim b.msg_queue [
  | [] ↦ none
  | m ∷ q ↦ some (received m (record b { free_queue = b.free_queue + 1; msg_queue = q }))
]

-- The loop of `receive` for one sender: the first message from there, or else the last one of all;
-- with no message at all an assertion fails.
pub pick : ℤ → List Msg → Option (Msg × List Msg)
pick src [] = none
pick src (m ∷ []) = some (m, [])
pick src (m ∷ n ∷ q) =
    let rest = pick src (n ∷ q) in
    if same_src m.src src
    then some (m, n ∷ q)
    else (elim rest [ none ↦ none | some (r, q') ↦ some (r, m ∷ q') ])

pub take_from : ℤ → Mailbox → Option Receiving
take_from src b = elim (pick src b.msg_queue) [
  | none ↦ none
  | some (m, q) ↦ some (received m (record b { free_queue = b.free_queue + 1; msg_queue = q }))
]

-- Behind the first `P` of `receive(ANY)`: the head of the queue tells the second one. An empty queue
-- is read as a message there.
pub any_second : Mailbox → Option Receiving
any_second b = elim b.msg_queue [
  | [] ↦ none
  | m ∷ q ↦ elim (real_src m.src) [
    | none ↦ none
    | some i ↦ let (sleeps, b') = p_pid i b in if sleeps then some (in_second b') else take_first b'
  ]
]

pub receive_any : Mailbox → Option Receiving
receive_any b = let (sleeps, b') = p_any b in if sleeps then some (in_first b') else any_second b'

-- `receive` from one sender, with the two `P`s the other way round.
pub from_second : ℤ → Mailbox → Option Receiving
from_second src b =
    let (sleeps, b') = p_any b in if sleeps then some (in_second b') else take_from src b'

pub receive_from : ℤ → Mailbox → Option Receiving
receive_from src b = elim (real_src src) [
  | none ↦ none
  | some i ↦
      let (sleeps, b') = p_pid i b in if sleeps then some (in_first b') else from_second src b'
]
