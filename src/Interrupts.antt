-- ===== src/Interrupts.antt =====
-- src/kernel/irq/irq_handle.c: the handlers of the hardware interrupts, and what an interrupt leads to. A
-- routine is a number.
pub mod Handlers
use njuos.Prelude.{
  ℕ, zero, suc, ◌+◌, ◌-◌, List, [], ◌∷◌, Option, none, some, ltb, ◌==◌, if◌then◌else◌, update,
}
use njuos.Prelude.Int.{ℤ, pos, negsuc}

-- `NR_IRQ_HANDLE` and `NR_HARD_INTR`
abbrev pub nr_irq_handle : ℕ
nr_irq_handle = 32

abbrev pub nr_hard_intr : ℕ
nr_hard_intr = 16

-- `struct IRQ_t`; `next` is an index of `handle_pool`, or NULL.
pub record Irq : Type 0 where
  pub routine : ℕ
  pub next : Option ℕ

pub record Irqs : Type 0 where
  pub handle_pool : ℕ → Irq
  pub handles : ℕ → Option ℕ
  pub handle_count : ℕ

-- What a call comes to; `beyond` is a write behind the end of `handle_pool`.
pub data Registration : Type 0 where
  done : Irqs → Registration
  panics : Registration
  beyond : Registration

-- `add_irq_handle`
pub add_irq_handle : (irq func : ℕ) → Irqs → Registration
add_irq_handle irq func s =
    let i = s.handle_count in
    if ltb irq nr_hard_intr
    then (if ltb nr_irq_handle i
        then panics
        else (if i == nr_irq_handle
            then beyond
            else done (record {
              handle_pool =
                  update s.handle_pool i (record { routine = func; next = s.handles irq });
              handles = update s.handles irq (some i);
              handle_count = i + 1;
            })))
    else panics

-- The loop over the handlers of an interrupt, the routines in the order of their calls.
pub routines_from : (pool : ℕ → Irq) → (fuel : ℕ) → Option ℕ → List ℕ
routines_from pool fuel none = []
routines_from pool zero (some i) = []
routines_from pool (suc fuel) (some i) = (pool i).routine ∷ routines_from pool fuel (pool i).next

-- Every node leads to an older one, so that there are no more rounds than nodes.
pub routines : (irq : ℕ) → Irqs → List ℕ
unfolding routines_from
routines irq s = routines_from s.handle_pool s.handle_count (s.handles irq)

-- What `irq_handle` does before it calls `schedule`.
pub data Action : Type 0 where
  syscall : (eax ebx : ℕ) → Action
  calls : List ℕ → Action
  stops : Action

-- `irq_handle`: a fault of a user process, which are those above 11, is an `exit` with 8.
pub irq_handle : (irq : ℤ) → (pid eax ebx : ℕ) → Irqs → Action
unfolding routines
irq_handle (negsuc n) pid eax ebx s = stops
irq_handle (pos irq) pid eax ebx s =
    if irq == 0x80
    then syscall eax ebx
    else (if ltb irq 1000
        then (if ltb 11 pid then syscall 3 8 else stops)
        else (if ltb (irq - 1000) nr_hard_intr then calls (routines (irq - 1000) s) else stops))
