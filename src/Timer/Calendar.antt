-- ===== src/Timer/Calendar.antt =====
-- The calendar clock of timer.c, whose `update_jiffy` compares the day with the length of the month by
-- `>=`.
use njuos.Prelude.{ℕ, zero, suc, ◌+◌, ◌≤◌, ◌<◌, List, [], ◌∷◌, get_or, length, arith}
use njuos.Timer.{Time, md, tick_time}

-- A time of a day of the calendar.
pub record IsTime (t : Time) : Type 0 where
  pub second_in : t.second < 60
  pub minute_in : t.minute < 60
  pub hour_in : t.hour < 24
  pub month_in : (1 ≤ t.month) × (t.month ≤ 12)
  pub day_in : (1 ≤ t.day) × (t.day ≤ md t.year t.month)

-- Every entry of a table lies between two bounds.
abbrev Between : ℕ → ℕ → List ℕ → Type 0
Between lo hi [] = Unit {0}
Between lo hi (x ∷ xs) = ((lo ≤ x) × (x ≤ hi)) × Between lo hi xs

get_or-Between :
    (lo hi : ℕ) (xs : List ℕ) (i : ℕ)
    → Between lo hi xs
    → i < length xs
    → (lo ≤ get_or xs i 0) × (get_or xs i 0 ≤ hi)
get_or-Between lo hi [] i b h = absurd (omega arith)
get_or-Between lo hi (x ∷ xs) zero b h = b.0
get_or-Between lo hi (x ∷ xs) (suc i) b h = get_or-Between lo hi xs i b.1 (omega arith)

md_bounds : (year month : ℕ) → 1 ≤ month → month ≤ 12 → (28 ≤ md year month) × (md year month ≤ 31)
unfolding md
md_bounds year zero p q = absurd (omega arith)
md_bounds year (suc zero) p q = ground arith
md_bounds year (suc (suc zero)) p q = ground arith
md_bounds year (suc (suc (suc month))) p q = ground (
  arith,
  get_or-Between 28 31 (31 ∷ 30 ∷ 31 ∷ 30 ∷ 31 ∷ 31 ∷ 30 ∷ 31 ∷ 30 ∷ 31 ∷ []) month (omega arith)
      (omega arith),
)

-- A second leads from any time to one that is not on the last day of its month.
tick_time-IsTime :
    (t : Time)
    → IsTime t
    → IsTime (tick_time t) × ((tick_time t).day < md (tick_time t).year (tick_time t).month)
unfolding tick_time
tick_time-IsTime t v =
    let here = md_bounds t.year t.month v.month_in.0 v.month_in.1 in
    let there = md_bounds t.year (t.month + 1) in
    let january = md_bounds (t.year + 1) 1 in
    (ground (arith, here, there, january), ground (arith, here, there, january))

abbrev pub run_clock : ℕ → Time → Time
run_clock zero t = t
run_clock (suc n) t = run_clock n (tick_time t)

-- From any time of a day of the calendar, the last of a month included, the clock shows a time of a day
-- of the calendar however many seconds it runs, and after at least one of them that day is never the last
-- of its month.
pub run_clock-IsTime :
    (n : ℕ) (t : Time)
    → IsTime t
    → let t' = run_clock (suc n) t in IsTime t' × (t'.day < md t'.year t'.month)
run_clock-IsTime zero t v = tick_time-IsTime t v
run_clock-IsTime (suc n) t v = run_clock-IsTime n (tick_time t) (tick_time-IsTime t v).0
