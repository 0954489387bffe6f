-- ===== src/Tests/Timers.antt =====
-- Inputs for the theorems on the timer.
use njuos.Prelude.{◌<◌, ◌+◌, ◌≡◌, refl, [], ◌∷◌, some, arith, length}
use njuos.Prelude.Int.{ℤ, pos}
use njuos.Message.{Msg, blank}
use njuos.Timer.{Timer, Time, add_time_event, time_event_proc, tick_time, md}
use njuos.Timer.Expiry.{
  IsQueue, expiries, add_due, due, later, add_time_event-expiries, time_event_proc-expiries,
}
use njuos.Timer.Calendar.{IsTime, run_clock, run_clock-IsTime}

-- Process 3 is due in one second, processes 4 and 5 in three.
abbrev waiting : Timer
waiting = record {
  self = pos 7;
  wait_queue =
      record { pid = pos 3; sec = pos 1 }
      ∷ record { pid = pos 4; sec = pos 2 }
      ∷ record { pid = pos 5; sec = pos 0 }
      ∷ [];
  free = 97;
}

waiting-IsQueue : IsQueue waiting.wait_queue
waiting-IsQueue = record { none_negative = omega arith; first_waits = omega arith }

abbrev request : ℤ → Msg
request sec = record blank { src = pos 9; i0 = sec }

add_time_event-expiries_example :
    (t' : Timer) × (add_time_event (request (pos 2)) waiting ≡ some (t', []))
    × (expiries 0 t'.wait_queue ≡ add_due (pos 9) 2 (expiries 0 waiting.wait_queue))
    × (t'.free + 1 ≡ waiting.free)
    × IsQueue t'.wait_queue
add_time_event-expiries_example =
    add_time_event-expiries (request (pos 2)) waiting 1 refl (omega arith) waiting-IsQueue

time_event_proc-expiries_example :
    let (t', woken) = time_event_proc waiting in
    (woken ≡ due (expiries 0 waiting.wait_queue))
    × (expiries 0 t'.wait_queue ≡ later (expiries 0 waiting.wait_queue))
    × IsQueue t'.wait_queue
    × (t'.free + length t'.wait_queue ≡ waiting.free + length waiting.wait_queue)
time_event_proc-expiries_example = time_event_proc-expiries waiting waiting-IsQueue

-- The last second of the 31st of January.
abbrev late : Time
late = record { year = 12; month = 1; day = 31; hour = 23; minute = 59; second = 59 }

late-IsTime : IsTime late
unfolding md
late-IsTime = record {
  second_in = omega arith;
  minute_in = omega arith;
  hour_in = omega arith;
  month_in = omega arith;
  day_in = omega arith;
}

run_clock-IsTime_example : let t = run_clock 3 late in IsTime t × (t.day < md t.year t.month)
run_clock-IsTime_example = run_clock-IsTime 2 late late-IsTime

-- The 30th of January is followed by the first of February.
skipped_day : (run_clock 1 (record late { day = 30 })).month ≡ 2
unfolding tick_time md
skipped_day = refl
