-- ===== src/Tests/Pools.antt =====
-- Inputs for the theorems on the pool of processes, the interrupts, the keyboard and the IDE driver.
use njuos.Prelude.{
  ℕ, ◌+◌, ◌-◌, ◌%◌, ◌≤◌, ◌<◌, ◌≡◌, ◌↔◌, refl, List, [], ◌∷◌, none, some, true, false, arith, ◌==◌,
  if◌then◌else◌, update, get_or,
}
use njuos.Prelude.Int.{pos}
use njuos.Process.Pool.{
  Pool, zero_pcb, numbers, init_proc, thread_pcb, create_kthread, start_fork, finish_fork, fork,
  args_place,
}
use njuos.Process.Pool.Partition.{IsPool, IsHeld-IsPool, IsChild, fork-IsPool}
use njuos.Process.Pool.Held.{IsHeld}
use njuos.Process.Pool.Steps.{
  Scene, idle, child, held, starts_fork, finishes_fork, thread, manages, goes_on, here, next,
  init_proc-IsHeld, Reach-IsHeld,
}
use njuos.Process.Pool.Arguments.{args_place_bounds}
use njuos.Interrupts.{Irqs, done, calls, irq_handle}
use njuos.Interrupts.Handlers.{registered, add_all, irq_handle-add_irq_handle}
use njuos.Console.Keyboard.{Keys, accept, low_bit, readkey, plain_row}
use njuos.Console.Keyboard.Letters.{readkey_letter}
use njuos.Ide.{Ide}
use njuos.Ide.Coherence.{view}
use njuos.Ide.Driver.{Request, read, write, writeback, serve_all}
use njuos.Ide.Driver.Serving.{
  Shows, array_all, array_serve, array_read, array_write, serve_all-array_all,
}

init_proc-IsPool : IsPool init_proc
init_proc-IsPool = IsHeld-IsPool init_proc (init_proc-IsHeld)

fork-IsPool_example :
    (child : ℕ) × (t : Pool) × (fork 7 init_proc ≡ some (child, t))
    × IsPool t
    × IsChild init_proc 7 child t
unfolding init_proc numbers
fork-IsPool_example = fork-IsPool 7 init_proc init_proc-IsPool (λ e. cc (e))

-- The process 7 forks, and the first thread is made while the manager waits for the memory of the child.
abbrev forking : Scene
forking = record {
  pool = record init_proc {
    pcb = update (λ p. zero_pcb) 0 (record zero_pcb { frame = record zero_pcb.frame { eax = 0 } });
    free = numbers 1 49;
  };
  making = child 7 0;
}

abbrev with_thread : Scene
with_thread = record forking {
  pool = record forking.pool {
    pcb = update forking.pool.pcb 1 (thread_pcb 100 200 zero_pcb);
    free = numbers 2 48;
    procs = record { ready = []; waiting = 1 ∷ []; current = none; pre_current = none };
  };
}

abbrev forked : Scene
forked = record { pool = finish_fork 7 0 with_thread.pool; making = idle }

forking_lem : start_fork 7 init_proc ≡ some (0, forking.pool)
unfolding start_fork init_proc numbers
forking_lem = refl

with_thread_lem : create_kthread 100 200 forking.pool ≡ some (1, with_thread.pool)
unfolding create_kthread init_proc numbers
with_thread_lem = refl

Reach-IsHeld_example : IsHeld (held forked.making) forked.pool
Reach-IsHeld_example = Reach-IsHeld (
    next
      (next (next here (manages (starts_fork 7 0 refl forking_lem refl)))
        (goes_on (thread 100 200 1 with_thread_lem) refl))
      (manages (finishes_fork 7 0 refl refl)))

both_wait : forked.pool.procs.waiting ≡ 1 ∷ 0 ∷ []
unfolding finish_fork
both_wait = refl

abbrev two_pcbs : Pool
two_pcbs = record {
  pcb = λ p. record zero_pcb { is_used = true; ppid = 3 };
  free = [];
  procs = record { ready = []; waiting = 3 ∷ 4 ∷ []; current = none; pre_current = none };
}

args_place_bounds_example :
    ((args_place 7 % 4 ≡ 0) ↔ (7 % 4 ≡ 0)) × ((0xbfffffff < args_place 7 + 7) ↔ (2 ≤ 7 % 4))
args_place_bounds_example = args_place_bounds 7 (omega arith)

abbrev no_irqs : Irqs
no_irqs = record {
  handle_pool = λ i. record { routine = 0; next = none };
  handles = λ i. none;
  handle_count = 0;
}

irq_handle-add_irq_handle_example :
    (s' : Irqs) × (add_all ((0, 11) ∷ (14, 12) ∷ (0, 13) ∷ []) no_irqs ≡ done s')
    × (irq_handle (pos (1000 + 0)) 5 0 0 s'
        ≡ calls (registered ((0, 11) ∷ (14, 12) ∷ (0, 13) ∷ []) (λ i. []) 0))
irq_handle-add_irq_handle_example =
    irq_handle-add_irq_handle ((0, 11) ∷ (14, 12) ∷ (0, 13) ∷ []) no_irqs (λ i. []) 0 5 0 0
      (record { chain = λ i. tt }) (omega arith, (omega arith, (omega arith, tt))) (omega arith)
      (omega arith)

newest_first : registered ((0, 11) ∷ (14, 12) ∷ (0, 13) ∷ []) (λ i. []) 0 ≡ 13 ∷ 11 ∷ []
unfolding registered
newest_first = refl

-- The key A with a Shift key down, and Caps Lock never pressed.
abbrev shifted : Keys
shifted = record { caps = pos 0; ctrl = pos 0; alt = pos 0; shft = pos 1 }

readkey_letter_example : readkey 30 shifted ≡ (
  accept (
        if low_bit shifted.shft == low_bit shifted.caps
        then get_or plain_row 30 0
        else get_or plain_row 30 0 - 32)
      ∷ [],
  shifted,
)
unfolding plain_row
readkey_letter_example = readkey_letter 30 shifted (omega arith) refl

capital_a : readkey 30 shifted ≡ (accept 65 ∷ [], shifted)
unfolding plain_row low_bit
capital_a = readkey_letter 30 shifted (omega arith) refl

abbrev cold : Ide
cold = record {
  cache = λ i. record { sector = 0; used = false; dirty = false; content = λ b. 0 };
  disk = λ n b. n + b;
}

cold-Shows : Shows cold (view cold)
cold-Shows = record {
  same = refl;
  coherent = λ i h. record {
    home = λ p. ground arith;
    owned = λ p. ground arith;
    clean = λ p q b. ground arith;
  };
}

abbrev requests : List Request
requests = write 510 (1 ∷ 2 ∷ 3 ∷ []) ∷ writeback ∷ read 511 2 ∷ []

serve_all-array_all_example :
    (s' : Ide) × (serve_all requests cold ≡ some ((([], 3) ∷ ([], 0) ∷ (2 ∷ 3 ∷ [], 2) ∷ []), s'))
    × Shows s' (update (update (update (view cold) 510 1) 511 2) 512 3)
unfolding array_all array_serve array_read array_write
serve_all-array_all_example =
    serve_all-array_all requests cold (view cold)
      (update (update (update (view cold) 510 1) 511 2) 512 3)
      (([], 3) ∷ ([], 0) ∷ (2 ∷ 3 ∷ [], 2) ∷ []) cold-Shows refl
