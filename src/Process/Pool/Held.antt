-- ===== src/Process/Pool/Held.antt =====
-- Where the processes of the pool are while the pcb manager may hold some that it is making.
use njuos.Prelude.{
  ℕ, ◌+◌, ◌≤◌, ◌<◌, ◌≡◌, refl, sym, ap, ◌∙◌, List, [], ◌∷◌, ◌++◌, none, some, arith, ltb, ◌==◌,
  if◌then◌else◌, true, false, Bool-cases, inl, inr, update, subst,
}
use njuos.Message.{pool_num}
use njuos.Process.Scheduler.{Processes, without, is_in, sleep, schedule, prev_of, wakeup}
use njuos.Process.Counts.{
  count, is_at, count-append, count-without, count-insert_before, is_in-count,
}
use njuos.Process.Pool.{Pool, Pcb, enlist, retire, exit, end_thread}

-- How often a process stands in the lists of those that are used.
abbrev pub busy : ℕ → Processes → ℕ
busy p s = count p s.waiting + count p s.ready

pub record IsHeld (held : List ℕ) (s : Pool) : Type 0 where
  pub placed :
      (p : ℕ) → count p held + count p s.free + busy p s.procs ≡ (if ltb p pool_num then 1 else 0)
  pub used : (p : ℕ) → p < pool_num → (s.pcb p).is_used ≡ (count p held + count p s.free == 0)

-- A process that waits changes its list when it is woken.
pub wakeup-busy : (p q : ℕ) (s : Processes) → busy p (wakeup q s) ≡ busy p s
unfolding wakeup
wakeup-busy p q s = ground (
  arith,
  count-without p q s.waiting,
  count-insert_before p q s.current s.ready,
  is_in-count q s.waiting,
)

-- The current process, which is ready, falls asleep.
pub sleep-busy :
    (p c : ℕ) (s s' : Processes)
    → s.current ≡ some c
    → is_in c s.ready ≡ true
    → sleep s ≡ some s'
    → busy p s' ≡ busy p s
unfolding sleep schedule
sleep-busy p c s s' e r h =
    let slept : Processes = schedule (record s {
      ready = without c s.ready;
      waiting = s.waiting ++ c ∷ [];
      pre_current = prev_of none s.ready c;
    }) in
    let result : sleep s ≡ some slept = rw (sleep, e) refl in
    let same : slept ≡ s' = cc (result, h) in
    let there : is_at p c ≤ count p s.ready = elim (Bool-cases (p == c)) [
      | inl t ↦ let q : p ≡ c = ground arith in rw q (ground (arith, is_in-count c s.ready r))
      | inr t ↦ rw t (omega arith)
    ] in
    sym (ap (busy p) same)
    ∙ omega (arith, count-append p s.waiting (c ∷ []), count-without p c s.ready, there)

-- The first free process is taken off its list.
pub taken :
    (held : List ℕ) (s : Pool) (p : ℕ) (rest : List ℕ)
    → s.free ≡ p ∷ rest
    → IsHeld held s
    → IsHeld (p ∷ held) (record s { free = rest }) × (p < pool_num) × ((s.pcb p).is_used ≡ false)
taken held s p rest e v =
    let first : (q : ℕ) → count q s.free ≡ is_at q p + count q rest = λ q. ap (count q) e in
    let at_self : is_at p p ≡ 1 = ground arith in
    let in_range : p < pool_num = ground (arith, v.placed p, first p, at_self) in
    (
      record {
        placed = λ q. omega (arith, v.placed q, first q);
        used = λ q h. ground (arith, v.used q h, first q);
      },
      in_range,
      ground (arith, v.used p in_range, first p, at_self),
    )

-- A process is changed, but not whether it is used.
pub kept :
    (held : List ℕ) (s : Pool) (p : ℕ) (pcb : Pcb)
    → pcb.is_used ≡ (s.pcb p).is_used
    → IsHeld held s
    → IsHeld held (record s { pcb = update s.pcb p pcb })
kept held s p pcb u v = record { placed = v.placed; used = λ q h. ground (arith, v.used q h, u) }

-- A process that is held is used and waits.
pub enlisted :
    (held : List ℕ) (s : Pool) (p : ℕ) (pcb : Pcb)
    → pcb.is_used ≡ true
    → IsHeld (p ∷ held) s
    → IsHeld held (enlist p (record s { pcb = update s.pcb p pcb }))
unfolding enlist
enlisted held s p pcb u v = record {
  placed = λ q. ground (arith, v.placed q, count-append q s.procs.waiting (p ∷ []));
  used = λ q h. ground (arith, v.used q h, v.placed p, u);
}

-- A process that is used goes back to the free list.
pub exit-IsHeld :
    (held : List ℕ) (p status : ℕ) (s : Pool)
    → IsHeld held s
    → p < pool_num
    → (s.pcb p).is_used ≡ true
    → IsHeld held (exit p status s).1
unfolding exit retire
exit-IsHeld held p status s v lt u = record {
  placed = λ q. ground (
    arith,
    v.placed q,
    v.placed p,
    v.used p,
    count-append q s.free (p ∷ []),
    count-without q p s.procs.ready,
    count-without q p s.procs.waiting,
  );
  used = λ q h. ground (arith, v.used q h, v.used p lt, count-append q s.free (p ∷ []));
}

-- ... as does a thread that ends.
pub end_thread-IsHeld :
    (held : List ℕ) (c : ℕ) (s t : Pool)
    → IsHeld held s
    → s.procs.current ≡ some c
    → c < pool_num
    → (s.pcb c).is_used ≡ true
    → end_thread s ≡ some t
    → IsHeld held t
unfolding end_thread exit schedule
end_thread-IsHeld held c s t v e lt u got =
    let w = exit-IsHeld held c 0 s v lt u in
    let r = retire c s in
    let t' : Pool = record r {
      procs = schedule (record r.procs { pre_current = prev_of none s.procs.ready c });
    } in
    let ended : end_thread s ≡ some t' = rw (end_thread, e) refl in
    let there : t' ≡ t = cc (ended, got) in
    let kept_all : IsHeld held t' = record { placed = w.placed; used = w.used } in
    subst (IsHeld held) there kept_all
