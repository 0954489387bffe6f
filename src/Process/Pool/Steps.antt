-- ===== src/Process/Pool/Steps.antt =====
-- All that the servers and the scheduler do to the pool, as a step relation. The pcb manager sleeps between
-- its two changes of the lists when it makes a process; the steps of the others may come there.
use njuos.Prelude.{
  ℕ, zero, suc, ◌+◌, ◌<◌, ◌≡◌, refl, sym, List, [], ◌∷◌, some, arith, ltb, if◌then◌else◌, true,
  subst,
}
use njuos.Message.{pool_num}
use njuos.FileSystem.Directories.{DirEntry}
use njuos.Process.Scheduler.{Processes, is_in, sleep, wakeup, schedule}
use njuos.Process.Pool.{
  Pool, end_thread, take_pcb, create_kthread, init_pcb, finish_process, start_fork, child_pcb,
  finish_fork, exit, handle_waitpid, start_program, numbers, init_proc,
}
use njuos.Process.Counts.{count}
use njuos.Process.Pool.Taking.{take_pcb-IsHeld, create_kthread-IsHeld, start_fork-IsHeld}
use njuos.Process.Pool.Held.{
  IsHeld, wakeup-busy, sleep-busy, enlisted, exit-IsHeld, end_thread-IsHeld,
}

-- What the pcb manager is at: it waits for a message, or for the other servers' answers on a process.
pub data Making : Type 0 where
  idle : Making
  process : (p : ℕ) → Making
  child : (parent p : ℕ) → Making

abbrev pub held : Making → List ℕ
held idle = []
held (process p) = p ∷ []
held (child parent p) = p ∷ []

pub record Scene : Type 0 where
  pub pool : Pool
  pub making : Making

-- What the pcb manager does to the pool: the whole of a handler, or one of the two halves between which it
-- waits for the other servers.
pub data ManagerStep (s t : Scene) : Type 0 where
  starts_process :
      (p : ℕ)
      → s.making ≡ idle
      → take_pcb s.pool ≡ some (p, t.pool)
      → t.making ≡ process p
      → ManagerStep s t
  finishes_process :
      (root : DirEntry) (entry p : ℕ)
      → s.making ≡ process p
      → t ≡ record { pool = finish_process root entry p s.pool; making = idle }
      → ManagerStep s t
  starts_fork :
      (parent p : ℕ)
      → s.making ≡ idle
      → start_fork parent s.pool ≡ some (p, t.pool)
      → t.making ≡ child parent p
      → ManagerStep s t
  finishes_fork :
      (parent p : ℕ)
      → s.making ≡ child parent p
      → t ≡ record { pool = finish_fork parent p s.pool; making = idle }
      → ManagerStep s t
  exited :
      (p status : ℕ)
      → s.making ≡ idle
      → p < pool_num
      → (s.pool.pcb p).is_used ≡ true
      → t ≡ record s { pool = (exit p status s.pool).1 }
      → ManagerStep s t
  waits :
      (parent p : ℕ)
      → s.making ≡ idle
      → t ≡ record s { pool = (handle_waitpid parent p s.pool).1 }
      → ManagerStep s t
  executes :
      (p args_len : ℕ)
      → s.making ≡ idle
      → t ≡ record s { pool = start_program p args_len s.pool }
      → ManagerStep s t

-- What the others do to the pool, at any time.
pub data PoolStep (s t : Pool) : Type 0 where
  thread : (wrap tf p : ℕ) → create_kthread wrap tf s ≡ some (p, t) → PoolStep s t
  ends :
      (c : ℕ)
      → s.procs.current ≡ some c
      → c < pool_num
      → (s.pcb c).is_used ≡ true
      → end_thread s ≡ some t
      → PoolStep s t
  sleeps :
      (c : ℕ) (procs : Processes)
      → s.procs.current ≡ some c
      → is_in c s.procs.ready ≡ true
      → sleep s.procs ≡ some procs
      → t ≡ record s { procs = procs }
      → PoolStep s t
  wakes : (p : ℕ) → t ≡ record s { procs = wakeup p s.procs } → PoolStep s t
  schedules : t ≡ record s { procs = schedule s.procs } → PoolStep s t

pub data Step (s t : Scene) : Type 0 where
  manages : ManagerStep s t → Step s t
  goes_on : PoolStep s.pool t.pool → t.making ≡ s.making → Step s t

pub data Reach (s : Scene) : Scene → Type 0 where
  here : Reach s s
  next : {t u : Scene} → Reach s t → Step t u → Reach s u

Manager-keeps :
    (s t : Scene) → ManagerStep s t → IsHeld (held s.making) s.pool → IsHeld (held t.making) t.pool
unfolding finish_process init_pcb finish_fork child_pcb handle_waitpid start_program
Manager-keeps s t (starts_process p e got m) v =
    let u : IsHeld [] s.pool = subst (λ k. IsHeld (held k) s.pool) e v in
    subst (λ k. IsHeld (held k) t.pool) (sym m) (take_pcb-IsHeld [] s.pool t.pool p u got)
Manager-keeps s t (finishes_process root entry p e there) v =
    let u : IsHeld (p ∷ []) s.pool = subst (λ k. IsHeld (held k) s.pool) e v in
    subst (λ (x : Scene). IsHeld (held x.making) x.pool) (sym there)
      (enlisted [] s.pool p (init_pcb root entry (s.pool.pcb p)) refl u)
Manager-keeps s t (starts_fork parent p e got m) v =
    let u : IsHeld [] s.pool = subst (λ k. IsHeld (held k) s.pool) e v in
    subst (λ k. IsHeld (held k) t.pool) (sym m) (start_fork-IsHeld [] parent p s.pool t.pool u got)
Manager-keeps s t (finishes_fork parent p e there) v =
    let u : IsHeld (p ∷ []) s.pool = subst (λ k. IsHeld (held k) s.pool) e v in
    subst (λ (x : Scene). IsHeld (held x.making) x.pool) (sym there)
      (enlisted [] s.pool p (child_pcb parent (s.pool.pcb parent) (s.pool.pcb p)) refl u)
Manager-keeps s t (exited p status e lt used there) v =
    subst (λ (x : Scene). IsHeld (held x.making) x.pool) (sym there)
      (exit-IsHeld (held s.making) p status s.pool v lt used)
Manager-keeps s t (waits parent p e there) v =
    subst (λ (x : Scene). IsHeld (held x.making) x.pool) (sym there)
      (record {
        placed = λ q. ground (arith, v.placed q);
        used = λ q h. ground (arith, v.used q h);
      })
Manager-keeps s t (executes p args_len e there) v =
    subst (λ (x : Scene). IsHeld (held x.making) x.pool) (sym there)
      (record {
        placed = λ q. omega (arith, v.placed q, wakeup-busy q p s.pool.procs);
        used = λ q h. ground (arith, v.used q h);
      })

Pool-keeps : (h : List ℕ) (s t : Pool) → PoolStep s t → IsHeld h s → IsHeld h t
unfolding schedule
Pool-keeps h s t (thread wrap tf p e) v = create_kthread-IsHeld h wrap tf p s t v e
Pool-keeps h s t (ends c e lt u got) v = end_thread-IsHeld h c s t v e lt u got
Pool-keeps h s t (sleeps c procs e r got there) v = subst (IsHeld h) (sym there) (record {
  placed = λ p. omega (arith, v.placed p, sleep-busy p c s.procs procs e r got);
  used = v.used;
})
Pool-keeps h s t (wakes p there) v =
    subst (IsHeld h) (sym there)
      (record { placed = λ q. omega (arith, v.placed q, wakeup-busy q p s.procs); used = v.used })
Pool-keeps h s t (schedules there) v =
    subst (IsHeld h) (sym there) (record { placed = v.placed; used = v.used })

Step-keeps :
    (s t : Scene) → Step s t → IsHeld (held s.making) s.pool → IsHeld (held t.making) t.pool
Step-keeps s t (manages st) v = Manager-keeps s t st v
Step-keeps s t (goes_on st same) v =
    subst (λ k. IsHeld (held k) t.pool) (sym same) (Pool-keeps (held s.making) s.pool t.pool st v)

Reach-keeps :
    {s t : Scene} → IsHeld (held s.making) s.pool → Reach s t → IsHeld (held t.making) t.pool
Reach-keeps v here = v
Reach-keeps v (next {t} {u} r st) = Step-keeps t u st (Reach-keeps v r)

count-numbers :
    (p from n : ℕ)
    → count p (numbers from n) ≡ (if ltb p from then 0 else (if ltb p (from + n) then 1 else 0))
unfolding numbers
count-numbers p from zero = ground arith
count-numbers p from (suc n) = ground (arith, count-numbers p (from + 1) n)

pub init_proc-IsHeld : IsHeld [] init_proc
unfolding init_proc
init_proc-IsHeld = record {
  placed = λ p. ground (arith, count-numbers p 0 pool_num);
  used = λ p h. ground (arith, count-numbers p 0 pool_num);
}

abbrev pub at_start : Scene
at_start = record { pool = init_proc; making = idle }

-- Whatever the pcb manager does from `init_proc` on with its messages, and however threads are made and end
-- and processes sleep, are woken and are scheduled between its steps, also while it waits for the other
-- servers in the middle of a fork or of the creation of a process: each of the fifty processes is in
-- exactly one of the lists `free_pcb`, `wait_head` and the ready ring, once, or is the one that the
-- manager is making, and then in none; no other number is in one; and those that are not used are the
-- ones in `free_pcb` and the one that the manager is making.
pub Reach-IsHeld : {s : Scene} → Reach at_start s → IsHeld (held s.making) s.pool
Reach-IsHeld r = Reach-keeps init_proc-IsHeld r
