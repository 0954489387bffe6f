-- ===== src/Process/Locks.antt =====
-- `lock` and `unlock` of src/kernel/process/sleep.c.
use njuos.Prelude.{
  ℕ, zero, suc, ◌+◌, ◌-◌, ◌≡◌, refl, ◌∙◌, Bool, true, false, List, [], ◌∷◌, ◌==◌, ltb,
  if◌then◌else◌, arith, replicate, ◌++◌,
}

-- `lock_count` of the current process, and the interrupt flag of `eflags`.
pub record Locks : Type 0 where
  pub lock_count : ℕ
  pub interrupts : Bool

-- `lock`: `cli()` and one more.
pub lock : Locks → Locks
lock s = record { lock_count = s.lock_count + 1; interrupts = false }

-- `unlock`: `sti()` where the flag is set already.
pub unlock : Locks → Locks
unlock s =
    let count = if ltb 0 s.lock_count then s.lock_count - 1 else s.lock_count in
    record {
      lock_count = count;
      interrupts =
          if count == 0 then (if s.interrupts then true else s.interrupts) else s.interrupts;
    }

-- Calls of the two, `true` for `lock`.
abbrev pub run : List Bool → Locks → Locks
run [] s = s
run (true ∷ calls) s = run calls (lock s)
run (false ∷ calls) s = run calls (unlock s)

stays_off :
    (calls : List Bool) (s : Locks) → s.interrupts ≡ false → (run calls s).interrupts ≡ false
unfolding lock unlock
stays_off [] s h = h
stays_off (true ∷ calls) s h = stays_off calls (lock s) refl
stays_off (false ∷ calls) s h = stays_off calls (unlock s) (ground (arith, h))

-- Once a process has called `lock`, no further calls of `lock` and `unlock` switch the interrupts on
-- again, even where each `lock` has its `unlock`: `unlock` tests the flag that `lock` has cleared.
pub interrupts_off : (calls : List Bool) (s : Locks) → (run (true ∷ calls) s).interrupts ≡ false
unfolding lock
interrupts_off calls s = stays_off calls (lock s) refl

run-unlocks : (n : ℕ) (s : Locks) → (run (replicate n false) s).lock_count ≡ s.lock_count - n
unfolding unlock
run-unlocks zero s = omega arith
run-unlocks (suc n) s = ground (arith, run-unlocks n (unlock s))

run-locks :
    (k n : ℕ) (s : Locks)
    → (run (replicate k true ++ replicate n false) s).lock_count ≡ s.lock_count + k - n
unfolding lock
run-locks zero n s = run-unlocks n s ∙ omega arith
run-locks (suc k) n s = run-locks k n (lock s) ∙ omega arith

-- `n` nested locks are undone by `n` unlocks, which leave the count as it was.
pub run-nested :
    (n : ℕ) (s : Locks) → (run (replicate n true ++ replicate n false) s).lock_count ≡ s.lock_count
run-nested n s = run-locks n n s ∙ omega arith
