-- ===== src/Process/Scheduler.antt =====
-- src/kernel/process: `schedule` of schedule.c, `sleep` and `wakeup` of sleep.c, and the semaphores of
-- semaphore.c. The ring of ready processes, which the `idle` process heads, is the list of the others
-- in ring order; a process is its pid, and `none` is `idle`.
pub mod Fairness
pub mod Semaphores
use njuos.Prelude.{
  ℕ, zero, suc, ◌+◌, ◌-◌, List, [], ◌∷◌, ◌++◌, Option, none, some, Bool, true, false, ◌==◌,
  if◌then◌else◌, ◌||◌,
}
use njuos.Prelude.Int.{ℤ, pos, negsuc, ◌+ℤ◌, ◌-ℤ◌, ltb_ℤ}

pub record Processes : Type 0 where
  -- `idle.list`, `wait_head.list`
  pub ready : List ℕ
  pub waiting : List ℕ
  pub current : Option ℕ
  pub pre_current : Option ℕ

-- `next` and `prev` of an element of the ring.
abbrev pub head_of : List ℕ → Option ℕ
head_of [] = none
head_of (q ∷ qs) = some q

pub next_of : List ℕ → ℕ → Option ℕ
next_of [] p = none
next_of (q ∷ qs) p = if q == p then head_of qs else next_of qs p

pub prev_of : (before : Option ℕ) → List ℕ → ℕ → Option ℕ
prev_of before [] p = before
prev_of before (q ∷ qs) p = if q == p then before else prev_of (some q) qs p

pub ring_next : List ℕ → Option ℕ → Option ℕ
ring_next ready none = head_of ready
ring_next ready (some p) = next_of ready p

-- `schedule`: the next of `pre_current`, the head of the ring skipped once.
unfoldable pub schedule : Processes → Processes
schedule s =
    let next = ring_next s.ready s.pre_current in
    let chosen : Option ℕ = elim next [ none ↦ ring_next s.ready none | some p ↦ some p ] in
    record s { current = chosen; pre_current = chosen }

-- `list_del` and the test of `list_foreach`
abbrev pub is_in : ℕ → List ℕ → Bool
is_in p [] = false
is_in p (q ∷ qs) = (p == q) || is_in p qs

abbrev pub without : ℕ → List ℕ → List ℕ
without p [] = []
without p (q ∷ qs) = if p == q then qs else q ∷ without p qs

-- `list_add_before(&current->list, p)`; before the head is at the end.
unfoldable pub insert_before : Option ℕ → ℕ → List ℕ → List ℕ
insert_before none p qs = qs ++ p ∷ []
insert_before (some c) p [] = p ∷ []
insert_before (some c) p (q ∷ qs) = if q == c then p ∷ q ∷ qs else q ∷ insert_before (some c) p qs

-- `sleep`, up to the switch to the next process (the interrupt 0x80 ends in `schedule`). `idle`
-- never sleeps: it would take the head out of its ring.
unfoldable pub sleep : Processes → Option Processes
sleep s = elim s.current [
  | none ↦ none
  | some c ↦ some (
      schedule (record s {
        ready = without c s.ready;
        waiting = s.waiting ++ c ∷ [];
        pre_current = prev_of none s.ready c;
      }))
]

-- `wakeup`: a process that waits becomes ready, just before the current one; another stays as it is.
unfoldable pub wakeup : ℕ → Processes → Processes
wakeup p s =
    if is_in p s.waiting
    then record s { waiting = without p s.waiting; ready = insert_before s.current p s.ready }
    else s

-- `Sem`: the token and the processes that block on it.
pub record Sem : Type 0 where
  pub token : ℤ
  pub block : List ℕ

-- `create_sem`
pub create_sem : ℤ → Sem
create_sem token = record { token = token; block = [] }

-- `P` by the current process, which sleeps when the token becomes negative.
pub p_sem : Sem → Processes → Option (Sem × Processes)
p_sem sem s =
    let token = sem.token -ℤ pos 1 in
    if ltb_ℤ token (pos 0)
    then (elim s.current [
      | none ↦ none
      | some c ↦ elim (sleep s) [
        | none ↦ none
        | some s' ↦ some (record { token = token; block = sem.block ++ c ∷ [] }, s')
      ]
    ])
    else some (record sem { token = token }, s)

-- `V`; `none` is the failed assertion that somebody blocks.
pub v_sem : Sem → Processes → Option (Sem × Processes)
v_sem sem s =
    let token = sem.token +ℤ pos 1 in
    if ltb_ℤ (pos 0) token then some (record sem { token = token }, s) else (elim sem.block [
      | [] ↦ none
      | p ∷ block ↦ some (record { token = token; block = block }, wakeup p s)
    ])
