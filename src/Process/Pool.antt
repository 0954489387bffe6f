-- ===== src/Process/Pool.antt =====
-- The pool of processes: src/kernel/process/util.c, and the handlers of
-- src/kernel/manager_server/pcb_manager.c. The answers of the other servers are arguments; `fork` and
-- `create_process` are cut where the manager waits for them. `none` is an empty `free_pcb` list, whose head
-- the code would take for a process, or asserts.
pub mod Held
pub mod Taking
pub mod Partition
pub mod Steps
pub mod Waiting
pub mod Arguments
use njuos.Prelude.{
  ℕ, zero, suc, ◌+◌, ◌-◌, ◌*◌, ◌/◌, ◌%◌, Bool, true, false, ◌&&◌, List, [], ◌∷◌, ◌++◌, Option, none,
  some, ltb, ◌==◌, if◌then◌else◌, update,
}
use njuos.Prelude.Int.{ℤ, pos, negsuc}
use njuos.Message.{pool_num}
use njuos.FileSystem.Directories.{DirEntry}
use njuos.Process.Scheduler.{Processes, without, prev_of, wakeup, schedule}

-- The registers of `TrapFrame` that the handlers set; `user` says that its selectors are those of user
-- code and data.
pub record Frame : Type 0 where
  pub eax : ℕ
  pub ebp : ℕ
  pub esp : ℕ
  pub eip : ℕ
  pub eflags : ℕ
  pub user : Bool

-- `PCB`, without its stack, its mailbox, its descriptors and its memory, which other modules have.
pub record Pcb : Type 0 where
  pub is_used : Bool
  pub is_kernel : Bool
  pub parent_wait : Bool
  pub lock_count : ℕ
  pub ppid : ℕ
  pub current_dir : DirEntry
  pub entry : ℕ
  pub frame : Frame

pub record Pool : Type 0 where
  pub pcb : ℕ → Pcb
  -- `free_pcb.list`
  pub free : List ℕ
  pub procs : Processes

-- `init_proc`, before it makes the first threads: the pool is zero, and all are free, in order.
unfoldable pub numbers : (from count : ℕ) → List ℕ
numbers from zero = []
numbers from (suc count) = from ∷ numbers (from + 1) count

abbrev pub zero_pcb : Pcb
zero_pcb = record {
  is_used = false;
  is_kernel = false;
  parent_wait = false;
  lock_count = 0;
  ppid = 0;
  current_dir = record { filename = []; index = 0 };
  entry = 0;
  frame = record { eax = 0; ebp = 0; esp = 0; eip = 0; eflags = 0; user = false };
}

unfoldable pub init_proc : Pool
init_proc = record {
  pcb = λ p. zero_pcb;
  free = numbers 0 pool_num;
  procs = record { ready = []; waiting = []; current = none; pre_current = none };
}

-- `list_entry(free_pcb.list.next, …)` and `list_del`
pub take_pcb : Pool → Option (ℕ × Pool)
take_pcb s = elim s.free [ [] ↦ none | p ∷ rest ↦ some (p, record s { free = rest }) ]

-- `list_add_before(&wait_head.list, …)`
pub enlist : ℕ → Pool → Pool
enlist p s = record s { procs = record s.procs { waiting = s.procs.waiting ++ p ∷ [] } }

abbrev pub set_pcb : ℕ → Pcb → Pool → Pool
set_pcb p pcb s = record s { pcb = update s.pcb p pcb }

-- The first free process, set up by `set` and enlisted.
pub enroll : (set : Pcb → Pcb) → Pool → Option (ℕ × Pool)
unfolding take_pcb enlist
enroll set s = elim (take_pcb s) [
  | none ↦ none
  | some (p, s') ↦ some (p, enlist p (set_pcb p (set (s'.pcb p)) s'))
]

-- `create_kthread_1`: `wrap` is where the thread starts, `tf` where its frame lies.
unfoldable pub thread_pcb : (wrap tf : ℕ) → Pcb → Pcb
thread_pcb wrap tf pcb = record pcb {
  is_used = true;
  is_kernel = true;
  lock_count = 0;
  frame = record pcb.frame { ebp = 0; esp = tf; eip = wrap; eflags = 0x206; user = false };
}

unfoldable pub create_kthread : (wrap tf : ℕ) → Pool → Option (ℕ × Pool)
unfolding enroll thread_pcb
create_kthread wrap tf = enroll (thread_pcb wrap tf)

-- `init_pcb`, with the entry that the memory manager puts there for the program.
pub init_pcb : (root : DirEntry) → (entry : ℕ) → Pcb → Pcb
init_pcb root entry pcb = record pcb {
  is_used = true;
  is_kernel = false;
  parent_wait = false;
  lock_count = 0;
  current_dir = root;
  entry = entry;
  frame = record pcb.frame { ebp = 0; esp = 0xbfffffff; eip = entry; eflags = 0x206; user = true };
}

-- `create_process` behind the answers of the memory and file servers, for which it sleeps while the
-- process that it has taken is in no list.
pub finish_process : (root : DirEntry) → (entry p : ℕ) → Pool → Pool
unfolding enlist init_pcb
finish_process root entry p s = enlist p (set_pcb p (init_pcb root entry (s.pcb p)) s)

pub create_process : (root : DirEntry) → (entry : ℕ) → Pool → Option (ℕ × Pool)
unfolding take_pcb finish_process
create_process root entry s = elim (take_pcb s) [
  | none ↦ none
  | some (p, s') ↦
      let s2 = finish_process root entry p s' in some (p, record s2 { procs = wakeup p s2.procs })
]

-- `fork` by the process `parent`, up to the request to the memory manager: the first free process gets the
-- frame with the stack. The links of saved frame pointers inside the kernel stack are not modelled.
unfoldable pub start_fork : (parent : ℕ) → Pool → Option (ℕ × Pool)
unfolding take_pcb
start_fork parent s = elim (take_pcb s) [
  | none ↦ none
  | some (p, s') ↦
      some
        (p, set_pcb p (record (s'.pcb p) { frame = record (s'.pcb parent).frame { eax = 0 } }) s')
]

pub child_pcb : (parent : ℕ) → (from : Pcb) → Pcb → Pcb
child_pcb parent from pcb = record pcb {
  is_used = true;
  is_kernel = false;
  parent_wait = false;
  lock_count = from.lock_count;
  ppid = parent;
  current_dir = from.current_dir;
}

-- ... and behind the answer, for which it sleeps while the child is in no list.
unfoldable pub finish_fork : (parent p : ℕ) → Pool → Pool
unfolding enlist child_pcb
finish_fork parent p s = enlist p (set_pcb p (child_pcb parent (s.pcb parent) (s.pcb p)) s)

pub fork : (parent : ℕ) → Pool → Option (ℕ × Pool)
unfolding start_fork finish_fork
fork parent s = elim (start_fork parent s) [
  | none ↦ none
  | some (p, s') ↦ some (p, finish_fork parent p s')
]

-- `list_del(&pcb->list)`, from whichever list it is in, and the way to the free list.
pub retire : ℕ → Pool → Pool
retire p s = record s {
  pcb = update s.pcb p (record (s.pcb p) { is_used = false });
  procs = record s.procs { ready = without p s.procs.ready; waiting = without p s.procs.waiting };
  free = s.free ++ p ∷ [];
}

-- The end of `wrap`, behind the function of a kernel thread; `idle` is none.
pub end_thread : Pool → Option Pool
unfolding retire
end_thread s = elim s.procs.current [
  | none ↦ none
  | some c ↦
      let t = retire c s in
      some (record t {
        procs = schedule (record t.procs { pre_current = prev_of none s.procs.ready c });
      })
]

-- `exit` by the process `p` with a status: who is sent it, if a parent waits.
pub exit : (p : ℕ) → (status : ℕ) → Pool → Option (ℕ × ℕ) × Pool
unfolding retire
exit p status s =
    (if (s.pcb p).parent_wait then some ((s.pcb p).ppid, status) else none, retire p s)

-- `handle_waitpid` by `parent` for `child`: `true` says that the parent waits, and is not answered, with
-- the lock still taken; `false` is the answer -1.
pub handle_waitpid : (parent child : ℕ) → Pool → Bool × Pool
handle_waitpid parent child s =
    let c = s.pcb child in
    if ltb child pool_num && ((parent == c.ppid) && c.is_used)
    then (true, set_pcb child (record c { parent_wait = true }) s)
    else (false, s)

-- Where `exec` puts the text of the arguments: `(stack_base - args_len) ^ 0x3`, which turns the low two
-- bits round.
pub args_place : (args_len : ℕ) → ℕ
args_place args_len = let at = 0xbfffffff - args_len in at / 4 * 4 + (3 - at % 4)

-- The end of `exec` by `p`, with the program loaded: `stack_head` is below the text.
pub start_program : (p args_len : ℕ) → Pool → Pool
unfolding args_place
start_program p args_len s =
    let stack_head = args_place args_len - 4 in
    let s' =
      set_pcb p
        (record (s.pcb p) {
          lock_count = 0;
          is_kernel = false;
          frame = record (s.pcb p).frame {
            ebp = 0;
            esp = stack_head - 4;
            eip = (s.pcb p).entry;
            eflags = 0x206;
            user = true;
          };
        })
        s in
    record s' { procs = wakeup p s'.procs }
