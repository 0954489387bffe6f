-- ===== src/Process/Scheduler/Semaphores.antt =====
-- What the semaphores promise.
use njuos.Prelude.{
  ℕ, ◌≡◌, refl, ◌∙◌, ◌⊎◌, inl, inr, List, [], ◌∷◌, ◌++◌, none, some, arith, length, length-append,
  Bool-cases, ◌<◌, ◌≤◌, true, false, ltb,
}
use njuos.Prelude.Int.{ℤ, pos, negsuc, ◌+ℤ◌, ◌-ℤ◌, ltb_ℤ, pos_part, neg_part}
use njuos.Process.Counts.{count, is_at, count-without, count-is_in, insert_before_lem}
use njuos.Process.Scheduler.{
  Processes, Sem, p_sem, v_sem, sleep, wakeup, schedule, prev_of, without, is_in,
}

-- A token below zero counts the processes that block; above, nobody blocks.
unfoldable pub IsSem : Sem → Type 0
IsSem sem = length sem.block ≡ neg_part sem.token

-- What `P` comes to: the token was there, or the process sleeps behind the others.
abbrev pub Passed : Sem → Processes → ℕ → Sem → Processes → Type 0
Passed sem s c sem' s' =
    ((0 < pos_part sem.token) × (sem'.block ≡ sem.block) × (s' ≡ s))
    ⊎ ((pos_part sem.token ≡ 0) × (sem'.block ≡ sem.block ++ c ∷ []) × (sleep s ≡ some s'))

-- Those that block on the semaphore wait, as often as they block.
unfoldable pub Waits : Sem → Processes → Type 0
Waits sem s = (p : ℕ) → count p sem.block ≤ count p s.waiting

-- A process leaves those that wait, and stands among the ready ones, whose order stays.
pub record IsWoken (p : ℕ) (s s' : Processes) : Type 0 where
  pub waited : is_in p s.waiting ≡ true
  pub waiting : s'.waiting ≡ without p s.waiting
  pub front : List ℕ
  pub back : List ℕ
  pub before : s.ready ≡ front ++ back
  pub ready : s'.ready ≡ front ++ p ∷ back
  pub current : s'.current ≡ s.current

-- What `V` comes to: nobody blocks, or the first who does is woken.
abbrev pub Signalled : Sem → Processes → Sem → Processes → Type 0
Signalled sem s sem' s' =
    ((sem.block ≡ []) × (sem'.block ≡ []) × (s' ≡ s))
    ⊎ ((p : ℕ) × (sem.block ≡ p ∷ sem'.block) × IsWoken p s s')

wakeup-IsWoken : (p : ℕ) (s : Processes) → is_in p s.waiting ≡ true → IsWoken p s (wakeup p s)
unfolding wakeup
wakeup-IsWoken p s h =
    let (front, back, whole, put) = insert_before_lem s.current p s.ready in
    record {
      waited = h;
      waiting = rw h refl;
      front = front;
      back = back;
      before = whole;
      ready = rw h put;
      current = rw h refl;
    }

awake : (s : Processes) (c : ℕ) → s.current ≡ some c → (s' : Processes) × (sleep s ≡ some s')
unfolding sleep
awake s c e = (
  schedule (record s {
    ready = without c s.ready;
    waiting = s.waiting ++ c ∷ [];
    pre_current = prev_of none s.ready c;
  }),
  rw e refl,
)

-- The case of `P` without a token.
blocks :
    (token : ℤ) (block : List ℕ) (s : Processes) (c : ℕ)
    → length block ≡ neg_part token
    → pos_part token ≡ 0
    → s.current ≡ some c
    → let sem : Sem = record { token = token; block = block } in
      (sem' : Sem) × (s' : Processes) × (p_sem sem s ≡ some (sem', s'))
      × (sem'.token ≡ sem.token -ℤ pos 1)
      × IsSem sem'
      × Passed sem s c sem' s'
unfolding p_sem IsSem
blocks token block s c v z e =
    let (s', r) = awake s c e in
    let less : ltb_ℤ (token -ℤ pos 1) (pos 0) ≡ true = unfold ◌-ℤ◌ in ground (arith, z) in
    let longer : length (block ++ c ∷ []) ≡ neg_part (token -ℤ pos 1) =
      length-append block (c ∷ []) ∙ (unfold ◌-ℤ◌ in ground (arith, v, z)) in
    (
      record { token = token -ℤ pos 1; block = block ++ c ∷ [] },
      s',
      rw (less, e, r) refl,
      refl,
      longer,
      inr (z, refl, r),
    )

-- From a well-formed semaphore, `P` by a process other than `idle` succeeds, takes one token, and puts
-- the process to sleep at the end of those that block exactly if there was no token left.
pub p_sem-IsSem :
    (sem : Sem) (s : Processes) (c : ℕ)
    → IsSem sem
    → s.current ≡ some c
    → (sem' : Sem) × (s' : Processes) × (p_sem sem s ≡ some (sem', s'))
      × (sem'.token ≡ sem.token -ℤ pos 1)
      × IsSem sem'
      × Passed sem s c sem' s'
unfolding p_sem IsSem
p_sem-IsSem sem s c v e = elim (Bool-cases (ltb 0 (pos_part sem.token))) [
  | inl q ↦
      let less : ltb_ℤ (sem.token -ℤ pos 1) (pos 0) ≡ false = unfold ◌-ℤ◌ in ground arith in
      (
        record sem { token = sem.token -ℤ pos 1 },
        s,
        rw less refl,
        refl,
        unfold ◌-ℤ◌ in ground (arith, v),
        inl (ground arith, refl, refl),
      )
  | inr q ↦ blocks sem.token sem.block s c v (ground arith) e
]

-- From a well-formed semaphore whose blocked processes wait, `V` never fails its assertion and gives one
-- token, and the semaphore is well formed behind it, with its blocked processes waiting. If none blocked,
-- the processes are as before; otherwise the first who did leaves the queue and the waiting processes and
-- stands among the ready ones, whose order stays, as the current process does.
pub v_sem-IsSem :
    (sem : Sem) (s : Processes)
    → IsSem sem
    → Waits sem s
    → (sem' : Sem) × (s' : Processes) × (v_sem sem s ≡ some (sem', s'))
      × (sem'.token ≡ sem.token +ℤ pos 1)
      × IsSem sem'
      × Waits sem' s'
      × Signalled sem s sem' s'
unfolding v_sem IsSem Waits
v_sem-IsSem sem s v w = go sem.token sem.block v w
  where
    go :
        (token : ℤ) (block : List ℕ)
        → length block ≡ neg_part token
        → ((p : ℕ) → count p block ≤ count p s.waiting)
        → let sem : Sem = record { token = token; block = block } in
          (sem' : Sem) × (s' : Processes) × (v_sem sem s ≡ some (sem', s'))
          × (sem'.token ≡ token +ℤ pos 1)
          × IsSem sem'
          × Waits sem' s'
          × Signalled sem s sem' s'
    go (pos n) [] v w =
        unfold ◌+ℤ◌ in
        (
          record { token = pos n +ℤ pos 1; block = [] },
          s,
          ground arith,
          refl,
          ground arith,
          λ p. omega arith,
          inl (refl, refl, refl),
        )
    go (pos n) (p ∷ block) v w = absurd (omega arith)
    go (negsuc n) [] v w = absurd (omega arith)
    go (negsuc n) (p ∷ block) v w =
        let at_self : is_at p p ≡ 1 = ground arith in
        let there : is_in p s.waiting ≡ true =
          count-is_in p s.waiting (omega (arith, w p, at_self)) in
        let woken = wakeup-IsWoken p s there in
        unfold ◌+ℤ◌ in
        (
          record { token = negsuc n +ℤ pos 1; block = block },
          wakeup p s,
          ground arith,
          refl,
          ground (arith, v),
          λ q. rw (woken.waiting) (omega (arith, w q, count-without q p s.waiting)),
          inr (p, refl, woken),
        )
