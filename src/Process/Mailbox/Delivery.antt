-- ===== src/Process/Mailbox/Delivery.antt =====
-- What the message queues promise.
use njuos.Prelude.{
  ℕ, suc, ◌+◌, ◌-◌, ◌<◌, ◌≡◌, refl, sym, ap, ◌∙◌, List, [], ◌∷◌, ◌++◌, none, some, arith, length,
  length-append, ◌==◌, if◌then◌else◌, update, true, false, Bool-cases, inl, inr,
}
use njuos.Prelude.Int.{ℤ, pos, ◌+ℤ◌, ◌-ℤ◌, ltb_ℤ}
use njuos.Message.{Msg}
use njuos.Process.Mailbox.{
  Mailbox, msg_num, init_msg, real_src, same_src, send, p_any, p_pid, received, take_first, pick,
  take_from, any_second, receive_any, from_second, receive_from,
}

-- How many messages come from the sender with semaphore `i`.
pub count_src : ℕ → List Msg → ℕ
count_src i [] = 0
count_src i (m ∷ q) = elim (real_src m.src) [
  | none ↦ count_src i q
  | some j ↦ (if i == j then 1 else 0) + count_src i q
]

-- Of a process that does not wait, the semaphores count the messages, of all and of each sender, and no
-- slot is lost.
pub record IsMailbox (b : Mailbox) : Type 0 where
  pub slots : b.free_queue + length b.msg_queue ≡ msg_num
  pub all : b.any_sem ≡ pos (length b.msg_queue)
  pub each : (i : ℕ) → b.pid_sem i ≡ pos (count_src i b.msg_queue)

count_src-append :
    (i : ℕ) (q : List Msg) (m : Msg)
    → count_src i (q ++ m ∷ []) ≡ count_src i q + count_src i (m ∷ [])
unfolding count_src
count_src-append i [] m = omega arith
count_src-append i (n ∷ q) m = ground (arith, count_src-append i q m)

-- `init_msg` makes a mailbox that is well formed.
init_msg-IsMailbox : IsMailbox init_msg
unfolding init_msg count_src
init_msg-IsMailbox = record { slots = refl; all = refl; each = λ i. refl }

plus_one : (a : ℤ) (n : ℕ) → a ≡ pos n → a +ℤ pos 1 ≡ pos (n + 1)
unfolding ◌+ℤ◌
plus_one a n e = ground (arith, e)

minus_one : (a : ℤ) (n : ℕ) → a ≡ pos (suc n) → a -ℤ pos 1 ≡ pos n
unfolding ◌-ℤ◌
minus_one a n e = ground (arith, e)

nonneg : (a : ℤ) (n : ℕ) → a ≡ pos n → ltb_ℤ a (pos 0) ≡ false
nonneg a n e = ground (arith, e)

count_src_valid :
    (j : ℕ) (m : Msg) (q : List Msg) (i : ℕ)
    → real_src m.src ≡ some i
    → count_src j (m ∷ q) ≡ (if j == i then 1 else 0) + count_src j q
unfolding count_src
count_src_valid j m q i e = rw (e, count_src) refl

-- What a new message does to the semaphores of the senders.
counted :
    (pids : ℕ → ℤ) (i j k : ℕ)
    → pids j ≡ pos k
    → update pids i (pids i +ℤ pos 1) j ≡ pos (k + (if j == i then 1 else 0))
counted pids i j k e = elim (Bool-cases (i == j)) [
  | inl q ↦
      let same : i ≡ j = ground arith in
      let test : (j == i) ≡ true = ground arith in
      rw (q, test) (plus_one (pids i) k (ap pids same ∙ e))
  | inr q ↦ let test : (j == i) ≡ false = ground arith in rw (q, test) (e ∙ ap pos (omega arith))
]

uncounted :
    (pids : ℕ → ℤ) (i j k : ℕ)
    → pids j ≡ pos ((if j == i then 1 else 0) + k)
    → update pids i (pids i -ℤ pos 1) j ≡ pos k
uncounted pids i j k e = elim (Bool-cases (i == j)) [
  | inl q ↦
      let same : i ≡ j = ground arith in
      let test : (if j == i then 1 else 0) + k ≡ suc k = ground arith in
      rw q (minus_one (pids i) k (ap pids same ∙ e ∙ ap pos test))
  | inr q ↦ let test : (if j == i then 1 else 0) + k ≡ k = ground arith in rw q (e ∙ ap pos test)
]

only :
    (j : ℕ) (m : Msg) (i : ℕ)
    → real_src m.src ≡ some i
    → count_src j (m ∷ []) ≡ (if j == i then 1 else 0)
unfolding count_src
only j m i e = rw (e, count_src) (omega arith)

-- From a well-formed mailbox with a slot that is free, `send` by a valid sender succeeds, puts the
-- message at the end of the queue, and leaves the mailbox well formed.
pub send-IsMailbox :
    (dest : ℤ) (m : Msg) (b : Mailbox) (i : ℕ)
    → IsMailbox b
    → real_src m.src ≡ some i
    → 0 < b.free_queue
    → (b' : Mailbox) × (send dest m b ≡ some b')
      × (b'.msg_queue ≡ b.msg_queue ++ record m { dest = dest } ∷ [])
      × IsMailbox b'
unfolding send
send-IsMailbox dest m b i v e f =
    let m' : Msg = record m { dest = dest } in
    let q = b.msg_queue in
    (
      record {
        free_queue = b.free_queue - 1;
        msg_queue = q ++ m' ∷ [];
        any_sem = b.any_sem +ℤ pos 1;
        pid_sem = update b.pid_sem i (b.pid_sem i +ℤ pos 1);
      },
      ground (arith, e),
      refl,
      record {
        slots = omega (arith, v.slots, length-append q (m' ∷ []));
        all = plus_one b.any_sem (length q) v.all ∙ ap pos (sym (length-append q (m' ∷ [])));
        each = λ j.
            counted b.pid_sem i j (count_src j q) (v.each j)
            ∙ ap pos (sym (count_src-append j q m' ∙ ap (◌+◌ (count_src j q)) (only j m' i e)));
      },
    )

-- The mailbox without a message that has been received.
abbrev without_message : (i : ℕ) → List Msg → Mailbox → Mailbox
without_message i q b = record {
  free_queue = b.free_queue + 1;
  msg_queue = q;
  any_sem = b.any_sem -ℤ pos 1;
  pid_sem = update b.pid_sem i (b.pid_sem i -ℤ pos 1);
}

taken :
    (b : Mailbox) (m : Msg) (q : List Msg)
    → b.msg_queue ≡ m ∷ q
    → take_first b ≡ some (received m (record b { free_queue = b.free_queue + 1; msg_queue = q }))
unfolding take_first
taken b m q e = rw e refl

-- From a well-formed mailbox with messages, of which the first has a valid sender, `receive(ANY)`
-- sleeps in neither `P`: it takes the oldest message and leaves the mailbox well formed.
pub receive_any_lem :
    (b : Mailbox) (m : Msg) (q : List Msg) (i : ℕ)
    → IsMailbox b
    → b.msg_queue ≡ m ∷ q
    → real_src m.src ≡ some i
    → (b' : Mailbox) × (receive_any b ≡ some (received m b')) × (b'.msg_queue ≡ q) × IsMailbox b'
unfolding receive_any p_any p_pid any_second take_first
receive_any_lem b m q i v e s =
    let all = minus_one b.any_sem (length q) (v.all ∙ ap (λ (l : List Msg). pos (length l)) e) in
    let each : (j : ℕ) → b.pid_sem j ≡ pos ((if j == i then 1 else 0) + count_src j q) =
      λ j. v.each j ∙ ap (λ l. pos (count_src j l)) e ∙ ap pos (count_src_valid j m q i s) in
    let own : b.pid_sem i ≡ pos (suc (count_src i q)) = each i ∙ ap pos (ground arith) in
    let t1 : ltb_ℤ (b.any_sem -ℤ pos 1) (pos 0) ≡ false =
      nonneg (b.any_sem -ℤ pos 1) (length q) all in
    let t2 : ltb_ℤ (b.pid_sem i -ℤ pos 1) (pos 0) ≡ false =
      nonneg (b.pid_sem i -ℤ pos 1) (count_src i q) (minus_one (b.pid_sem i) (count_src i q) own) in
    let long : length b.msg_queue ≡ suc (length q) = ap length e in
    (
      without_message i q b,
      rw (t1, e, s, t2) (taken (p_pid i (p_any b).1).1 m q e),
      refl,
      record {
        slots = omega (arith, v.slots, long);
        all = all;
        each = λ j. uncounted b.pid_sem i j (count_src j q) (each j);
      },
    )

-- No message of the list is from the sender.
abbrev pub NoneFrom : ℤ → List Msg → Type 0
NoneFrom src [] = Unit {0}
NoneFrom src (m ∷ q) = (same_src m.src src ≡ false) × NoneFrom src q

pick-first :
    (src : ℤ) (xs : List Msg) (m : Msg) (ys : List Msg)
    → NoneFrom src xs
    → same_src m.src src ≡ true
    → pick src (xs ++ m ∷ ys) ≡ some (m, xs ++ ys)
unfolding pick
pick-first src [] m [] n t = refl
pick-first src [] m (y ∷ ys) n t = ground (arith, t)
pick-first src (x ∷ []) m ys n t = ground (arith, n.0, pick-first src [] m ys tt t)
pick-first src (x ∷ z ∷ xs) m ys n t = ground (arith, n.0, pick-first src (z ∷ xs) m ys n.1 t)

count_src-middle :
    (j : ℕ) (xs : List Msg) (m : Msg) (ys : List Msg) (i : ℕ)
    → real_src m.src ≡ some i
    → count_src j (xs ++ m ∷ ys) ≡ (if j == i then 1 else 0) + count_src j (xs ++ ys)
unfolding count_src
count_src-middle j [] m ys i e = rw (e, count_src) refl
count_src-middle j (x ∷ xs) m ys i e = ground (arith, count_src-middle j xs m ys i e)

length-middle :
    (xs : List Msg) (m : Msg) (ys : List Msg) → length (xs ++ m ∷ ys) ≡ suc (length (xs ++ ys))
length-middle [] m ys = refl
length-middle (x ∷ xs) m ys = ap suc (length-middle xs m ys)

-- From a well-formed mailbox with a message `m` from `src` and none from there before it, `receive(src)`
-- sleeps in neither `P`: it takes `m`, leaves the others in their order, and the mailbox well formed.
pub receive_from_lem :
    (src : ℤ) (b : Mailbox) (xs : List Msg) (m : Msg) (ys : List Msg) (i : ℕ)
    → IsMailbox b
    → b.msg_queue ≡ xs ++ m ∷ ys
    → NoneFrom src xs
    → same_src m.src src ≡ true
    → real_src src ≡ some i
    → real_src m.src ≡ some i
    → (b' : Mailbox) × (receive_from src b ≡ some (received m b'))
      × (b'.msg_queue ≡ xs ++ ys)
      × IsMailbox b'
unfolding receive_from p_any p_pid from_second take_from
receive_from_lem src b xs m ys i v e n t s s' =
    let q = xs ++ ys in
    let long : length b.msg_queue ≡ suc (length q) = ap length e ∙ length-middle xs m ys in
    let all = minus_one b.any_sem (length q) (v.all ∙ ap pos long) in
    let each : (j : ℕ) → b.pid_sem j ≡ pos ((if j == i then 1 else 0) + count_src j q) =
      λ j. v.each j ∙ ap (λ l. pos (count_src j l)) e ∙ ap pos (count_src-middle j xs m ys i s') in
    let own : b.pid_sem i ≡ pos (suc (count_src i q)) = each i ∙ ap pos (ground arith) in
    let t1 : ltb_ℤ (b.any_sem -ℤ pos 1) (pos 0) ≡ false =
      nonneg (b.any_sem -ℤ pos 1) (length q) all in
    let t2 : ltb_ℤ (b.pid_sem i -ℤ pos 1) (pos 0) ≡ false =
      nonneg (b.pid_sem i -ℤ pos 1) (count_src i q) (minus_one (b.pid_sem i) (count_src i q) own) in
    (
      without_message i q b,
      rw (receive_from, s, t2, from_second, t1, take_from, e, pick-first src xs m ys n t) refl,
      refl,
      record {
        slots = omega (arith, v.slots, long);
        all = all;
        each = λ j. uncounted b.pid_sem i j (count_src j q) (each j);
      },
    )
