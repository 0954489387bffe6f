-- ===== src/Timer/Expiry.antt =====
-- The wait queue of timer.c against the times at which its processes are due.
use njuos.Prelude.{
  ℕ, suc, ◌+◌, ◌-◌, ◌<◌, ◌≡◌, refl, ap, ◌∙◌, List, [], ◌∷◌, some, ltb, ◌==◌, if◌then◌else◌, arith,
  length,
}
use njuos.Prelude.Int.{ℤ, pos, pos_part, neg_part, ◌≤ℤ◌}
use njuos.Message.{Msg}
use njuos.Timer.{
  TimeNode, Timer, insert_node, add_time_event, wake_due, count_down, count, time_event_proc,
}

abbrev pub Schedule : Type 0
Schedule = List (ℤ × ℕ)

-- Who is due when: the seconds of a node count from the node before it, those of the first from now.
pub expiries : ℕ → List TimeNode → Schedule
expiries now [] = []
expiries now (node ∷ q) = (node.pid, now + pos_part node.sec) ∷ expiries (now + pos_part node.sec) q

-- A new entry goes behind those that are due no later.
pub add_due : ℤ → ℕ → Schedule → Schedule
add_due p at [] = (p, at) ∷ []
add_due p at ((r, due) ∷ s) =
    if ltb at due then (p, at) ∷ (r, due) ∷ s else (r, due) ∷ add_due p at s

-- No delay in the queue is negative.
abbrev pub NoneNegative : List TimeNode → Type 0
NoneNegative [] = Unit {0}
NoneNegative (node ∷ q) = (neg_part node.sec ≡ 0) × NoneNegative q

-- ... and the first is at least a second.
abbrev pub FirstWaits : List TimeNode → Type 0
FirstWaits [] = Unit {0}
FirstWaits (node ∷ q) = 0 < pos_part node.sec

pub record IsQueue (q : List TimeNode) : Type 0 where
  pub none_negative : NoneNegative q
  pub first_waits : FirstWaits q

insert_node-expiries :
    (q : List TimeNode) (now n : ℕ) (new : TimeNode)
    → new.sec ≡ pos n
    → NoneNegative q
    → (expiries now (insert_node new q) ≡ add_due new.pid (now + n) (expiries now q))
      × NoneNegative (insert_node new q)
unfolding expiries insert_node add_due
insert_node-expiries [] now n new e v = ground arith
insert_node-expiries (node ∷ q) now n new e v = ground (
  arith,
  insert_node-expiries q (now + pos_part node.sec) (n - pos_part node.sec)
      (record new { sec = pos (n - pos_part node.sec) }) refl v.1,
)

insert_node-FirstWaits :
    (q : List TimeNode) (n : ℕ) (new : TimeNode)
    → new.sec ≡ pos (suc n)
    → NoneNegative q
    → FirstWaits q
    → FirstWaits (insert_node new q)
unfolding insert_node
insert_node-FirstWaits [] n new e v w = ground arith
insert_node-FirstWaits (node ∷ q) n new e v w = ground arith

-- For a positive delay, a free node and a well-formed queue, `add_time_event` sends nothing, uses one
-- node, adds the sender to the schedule at its delay, behind those due no later and with everybody
-- else's time unchanged, and leaves the queue well formed.
pub add_time_event-expiries :
    (m : Msg) (t : Timer) (n : ℕ)
    → m.i0 ≡ pos (suc n)
    → 0 < t.free
    → IsQueue t.wait_queue
    → (t' : Timer) × (add_time_event m t ≡ some (t', []))
      × (expiries 0 t'.wait_queue ≡ add_due m.src (suc n) (expiries 0 t.wait_queue))
      × (t'.free + 1 ≡ t.free)
      × IsQueue t'.wait_queue
unfolding add_time_event
add_time_event-expiries m t n e f v =
    let new : TimeNode = record { pid = m.src; sec = m.i0 } in
    let ins = insert_node-expiries t.wait_queue 0 (suc n) new e v.none_negative in
    (
      record t { wait_queue = insert_node new t.wait_queue; free = t.free - 1 },
      ground arith,
      ground (arith, ins.0),
      ground arith,
      record {
        none_negative = ins.1;
        first_waits = insert_node-FirstWaits t.wait_queue n new e v.none_negative v.first_waits;
      },
    )

-- A delay that is not positive is answered at once and queues nobody, but its node is taken from the
-- free list and put nowhere, so that a hundred such calls use up the list.
pub add_time_event_leak :
    (m : Msg) (t : Timer)
    → m.i0 ≤ℤ pos 0
    → 0 < t.free
    → (t' : Timer) × (add_time_event m t ≡ some (t', (m.src, record m { src = t.self }) ∷ []))
      × (t'.wait_queue ≡ t.wait_queue)
      × (t'.free + 1 ≡ t.free)
unfolding add_time_event
add_time_event_leak m t h f = (record t { free = t.free - 1 }, ground arith, refl, ground arith)

-- Who is due in one second, in order.
abbrev pub due : Schedule → List ℤ
due [] = []
due ((p, at) ∷ s) = if at == 1 then p ∷ due s else due s

-- The schedule of the others as it reads a second later.
abbrev pub later : Schedule → Schedule
later [] = []
later ((p, at) ∷ s) = if at == 1 then later s else (p, at - 1) ∷ later s

none_due :
    (q : List TimeNode) (now : ℕ)
    → (due (expiries (suc (suc now)) q) ≡ [])
      × (later (expiries (suc (suc now)) q) ≡ expiries (suc now) q)
unfolding expiries
none_due [] now = (refl, refl)
none_due (node ∷ q) now = ground (arith, none_due q (now + pos_part node.sec))

wake_due-expiries :
    (q : List TimeNode)
    → NoneNegative q
    → ((wake_due q).0 ≡ due (expiries 1 q))
      × (expiries 0 (wake_due q).1 ≡ later (expiries 1 q))
      × IsQueue (wake_due q).1
      × (count (wake_due q).0 + length (wake_due q).1 ≡ length q)
unfolding expiries wake_due
wake_due-expiries [] v = (refl, refl, record { none_negative = tt; first_waits = tt }, omega arith)
wake_due-expiries (node ∷ q) v =
    ground (arith, wake_due-expiries q v.1, none_due q (pos_part node.sec - 1))

count_down-expiries :
    (q : List TimeNode)
    → IsQueue q
    → (expiries 1 (count_down q) ≡ expiries 0 q)
      × NoneNegative (count_down q)
      × (length (count_down q) ≡ length q)
unfolding expiries count_down
count_down-expiries [] v = (refl, tt, refl)
count_down-expiries (node ∷ q) v = ground (arith, v.first_waits)

-- One second on a well-formed queue: `time_event_proc` wakes exactly those that are due in one second,
-- in the order of the schedule, brings everybody else one second closer, keeps the queue well formed
-- and gives the nodes of those woken back, so that none is lost.
pub time_event_proc-expiries :
    (t : Timer)
    → IsQueue t.wait_queue
    → let (t', woken) = time_event_proc t in
      (woken ≡ due (expiries 0 t.wait_queue))
      × (expiries 0 t'.wait_queue ≡ later (expiries 0 t.wait_queue))
      × IsQueue t'.wait_queue
      × (t'.free + length t'.wait_queue ≡ t.free + length t.wait_queue)
unfolding time_event_proc
time_event_proc-expiries t v =
    let down = count_down-expiries t.wait_queue v in
    let wake = wake_due-expiries (count_down t.wait_queue) down.1 in
    (wake.0 ∙ ap due down.0, wake.1 ∙ ap later down.0, wake.2, omega (arith, wake.3, down.2))
