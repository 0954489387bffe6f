-- ===== src/Timer.antt =====
-- src/kernel/drivers/timer/timer.c: the queue of sleeping processes, ordered by the seconds between
-- one wake-up and the next, and the calendar clock. The lists of `Time_node` are lists of their
-- contents; of the free list only its number of nodes matters, since a node is filled before use.
pub mod Expiry
pub mod Calendar
use njuos.Prelude.{
  ℕ, zero, suc, ◌+◌, ◌-◌, ◌%◌, List, [], ◌∷◌, ◌++◌, Option, none, some, Bool, true, false, ◌&&◌,
  ◌||◌, not, leb, ◌==◌, if◌then◌else◌, get_or,
}
use njuos.Prelude.Int.{ℤ, pos, negsuc, is_zero, ◌-ℤ◌, ltb_ℤ}
use njuos.Message.{Msg}

-- `Time_node`
pub record TimeNode : Type 0 where
  pub pid : ℤ
  pub sec : ℤ

pub record Timer : Type 0 where
  -- `TIMER`
  pub self : ℤ
  pub wait_queue : List TimeNode
  pub free : ℕ

-- `init_wait_list`: all hundred nodes are free.
pub init_wait_list : ℤ → Timer
init_wait_list self = record { self = self; wait_queue = []; free = 100 }

-- The loop of `add_time_event` and the insertion behind it: before the first node that is due later,
-- whose own delay is cut, or at the end.
pub insert_node : TimeNode → List TimeNode → List TimeNode
unfolding ◌-ℤ◌
insert_node new [] = new ∷ []
insert_node new (node ∷ q) =
    let rest = insert_node (record new { sec = new.sec -ℤ node.sec }) q in
    if ltb_ℤ new.sec node.sec
    then new ∷ record node { sec = node.sec -ℤ new.sec } ∷ q
    else node ∷ rest

-- `add_time_event`: the new state and the messages sent, each with its receiver. `none` stands for the
-- use of the list head as a node when no node is free.
pub add_time_event : Msg → Timer → Option (Timer × List (ℤ × Msg))
unfolding insert_node
add_time_event m t =
    if t.free == 0
    then none
    else (let new : TimeNode = record { pid = m.src; sec = m.i0 } in
        let t' : Timer = record t { free = t.free - 1 } in
        if not (ltb_ℤ (pos 0) new.sec)
        then some (t', (new.pid, record m { src = t.self }) ∷ [])
        else some (record t' { wait_queue = insert_node new t.wait_queue }, []))

-- The loop of `time_event_proc`: the processes woken, and the queue that is left.
pub wake_due : List TimeNode → List ℤ × List TimeNode
wake_due [] = ([], [])
wake_due (node ∷ q) =
    let (woken, rest) = wake_due q in
    if is_zero node.sec then (node.pid ∷ woken, rest) else ([], node ∷ q)

-- `first -> sec--`
pub count_down : List TimeNode → List TimeNode
unfolding ◌-ℤ◌
count_down [] = []
count_down (first ∷ q) = record first { sec = first.sec -ℤ pos 1 } ∷ q

abbrev count : List ℤ → ℕ
count [] = 0
count (p ∷ ps) = suc (count ps)

-- `time_event_proc`: the state after it and the receivers of its messages, in order.
pub time_event_proc : Timer → Timer × List ℤ
unfolding wake_due count_down
time_event_proc t =
    let (woken, rest) = wake_due (count_down t.wait_queue) in
    (record t { wait_queue = rest; free = t.free + count woken }, woken)

-- `Time`
pub record Time : Type 0 where
  pub year : ℕ
  pub month : ℕ
  pub day : ℕ
  pub hour : ℕ
  pub minute : ℕ
  pub second : ℕ

-- `md`; the month is an index of the table, which has thirteen entries.
unfoldable pub md : ℕ → ℕ → ℕ
md year month =
    get_or (0 ∷ 31 ∷ 28 ∷ 31 ∷ 30 ∷ 31 ∷ 30 ∷ 31 ∷ 31 ∷ 30 ∷ 31 ∷ 30 ∷ 31 ∷ []) month 0
    + (if leap && (month == 2) then 1 else 0)
  where
    leap : Bool
    leap = (year % 400 == 0) || ((year % 4 == 0) && not (year % 100 == 0))

-- The carries of `update_jiffy`, in the order of the code.
abbrev carry_minute : Time → Time
carry_minute t = if leb 60 t.second then record t { second = 0; minute = t.minute + 1 } else t

abbrev carry_hour : Time → Time
carry_hour t = if leb 60 t.minute then record t { minute = 0; hour = t.hour + 1 } else t

abbrev carry_day : Time → Time
carry_day t = if leb 24 t.hour then record t { hour = 0; day = t.day + 1 } else t

abbrev carry_year : Time → Time
carry_year t = if leb 13 t.month then record t { month = 1; year = t.year + 1 } else t

carry_month : Time → Time
carry_month t =
    if leb (md t.year t.month) t.day then record t { day = 1; month = t.month + 1 } else t

-- One second of the calendar clock.
unfoldable pub tick_time : Time → Time
unfolding carry_month
tick_time t =
    carry_year
      (carry_month (carry_day (carry_hour (carry_minute (record t { second = t.second + 1 })))))

pub record Clock : Type 0 where
  pub jiffy : ℕ
  pub rt : Time
  pub timer : Timer

-- `update_jiffy`, with the receivers of the messages that it sends; `HZ` is 100.
pub update_jiffy : Clock → Clock × List ℤ
update_jiffy c =
    let jiffy = c.jiffy + 1 in
    if jiffy % 100 == 0
    then (let (timer, woken) = time_event_proc c.timer in
        (record { jiffy = jiffy; rt = tick_time c.rt; timer = timer }, woken))
    else (record c { jiffy = jiffy }, [])
