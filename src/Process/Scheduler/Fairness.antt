-- ===== src/Process/Scheduler/Fairness.antt =====
-- The turns of the ready processes.
use njuos.Prelude.{
  ℕ, zero, suc, ◌≡◌, ◌≢◌, refl, sym, ap, ◌∙◌, List, [], ◌∷◌, ◌++◌, Option, none, some, arith,
  length, map, append_assoc,
}
use njuos.ListHead.Ring.{NotIn, AllDistinct}
use njuos.Process.Scheduler.{Processes, schedule, next_of, ring_next, head_of}

-- Who runs after each of `n` switches.
pub turns : ℕ → Processes → List (Option ℕ)
turns zero s = []
turns (suc n) s = let s' = schedule s in s'.current ∷ turns n s'

next_of-middle :
    (xs : List ℕ) (p : ℕ) (ys : List ℕ) → NotIn p xs → next_of (xs ++ p ∷ ys) p ≡ head_of ys
unfolding next_of
next_of-middle [] p ys h = ground arith
next_of-middle (x ∷ xs) p ys h = ground (arith, next_of-middle xs p ys h.1, h.0)

distinct_middle : (xs : List ℕ) (p : ℕ) (ys : List ℕ) → AllDistinct (xs ++ p ∷ ys) → NotIn p xs
distinct_middle [] p ys h = tt
distinct_middle (x ∷ xs) p ys h = (λ e. apart xs p ys x h.0 (sym e), distinct_middle xs p ys h.1)
  where
    apart : (xs : List ℕ) (p : ℕ) (ys : List ℕ) (x : ℕ) → NotIn x (xs ++ p ∷ ys) → x ≢ p
    apart [] p ys x n = n.0
    apart (z ∷ xs) p ys x n = apart xs p ys x n.1

scheduled :
    (s : Processes) (y : ℕ)
    → ring_next s.ready s.pre_current ≡ some y
    → schedule s ≡ record s { current = some y; pre_current = some y }
unfolding schedule
scheduled s y h = rw h refl

turns_from :
    (ys xs : List ℕ) (p : ℕ) (s : Processes)
    → s.ready ≡ xs ++ p ∷ ys
    → s.pre_current ≡ some p
    → AllDistinct (xs ++ p ∷ ys)
    → turns (length ys) s ≡ map some ys
unfolding turns ring_next
turns_from [] xs p s e q d = refl
turns_from (y ∷ ys) xs p s e q d =
    let step : ring_next s.ready s.pre_current ≡ some y =
      rw (e, q) (next_of-middle xs p (y ∷ ys) (distinct_middle xs p (y ∷ ys) d)) in
    let assoc : (xs ++ p ∷ []) ++ y ∷ ys ≡ xs ++ p ∷ y ∷ ys = append_assoc xs (p ∷ []) (y ∷ ys) in
    rw (scheduled s y step) (
      ap (◌∷◌ (some y)) (
        turns_from ys (xs ++ p ∷ []) y (record s { current = some y; pre_current = some y })
          (e ∙ sym assoc) refl (rw assoc d)))

-- Where the ring holds each process once and `idle` was the last to run, each ready process gets one
-- turn, in the order of the ring.
pub turns_ready :
    (s : Processes)
    → s.pre_current ≡ none
    → AllDistinct s.ready
    → turns (length s.ready) s ≡ map some s.ready
unfolding turns ring_next
turns_ready s q d = go s.ready refl d
  where
    go :
        (ready : List ℕ)
        → s.ready ≡ ready
        → AllDistinct ready
        → turns (length ready) s ≡ map some ready
    go [] e d = refl
    go (y ∷ ys) e d =
        let step : ring_next s.ready s.pre_current ≡ some y = rw (e, q) refl in
        rw (scheduled s y step) (
          ap (◌∷◌ (some y))
            (turns_from ys [] y (record s { current = some y; pre_current = some y }) e refl d))
