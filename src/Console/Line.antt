-- ===== src/Console/Line.antt =====
-- The line editor of console.c, with `lbuf` and `i` and the screen: `movl`, `movr`, `removec`,
-- `backsp`, `consl_accept` and the editing keys of `consl_feed`.
pub mod Editing
use njuos.Prelude.{
  ℕ, zero, suc, ◌+◌, ◌-◌, Bool, true, false, ◌&&◌, Option, none, some, ltb, leb, ◌==◌,
  if◌then◌else◌, update, List, [], ◌∷◌,
}
use njuos.Console.{lbuf_sz, scr_wh, draw}
use njuos.Console.Screen.{Screen, scrup, next, putc, del, cr, lf}

pub record Line : Type 0 where
  pub lbuf : ℕ → ℕ
  pub i : ℕ
  pub screen : Screen

pub movl : Line → Bool × Line
movl c =
    if c.i == 0
    then (false, c)
    else (true, record c { i = c.i - 1; screen = record c.screen { pos = c.screen.pos - 1 } })

pub movr : Line → Bool × Line
movr c =
    if c.lbuf c.i == 0
    then (false, c)
    else (true, record c { i = c.i + 1; screen = record c.screen { pos = c.screen.pos + 1 } })

-- The loop of `removec`, on fuel: the characters of the line and of the screen from here on come one
-- to the left.
pub pull : (fuel ptr scr : ℕ) → Line → Line
pull zero ptr scr c = c
pull (suc fuel) ptr scr c =
    let c' = record c {
      lbuf = update c.lbuf ptr (c.lbuf (ptr + 1));
      screen = record c.screen { vbuf = update c.screen.vbuf scr (c.screen.vbuf (scr + 1)) };
    } in
    let rest = pull fuel (ptr + 1) (scr + 1) c' in if c.lbuf ptr == 0 then c else rest

pub removec : Line → Line
removec c = pull (lbuf_sz + 1) (c.i - 1) (c.screen.pos - 1) (record c { i = c.i - 1 })

pub backsp : Line → Line
backsp c =
    let c' = removec c in
    if ltb 0 c.i
    then (if c'.lbuf c'.i == 0
        then record c' { screen = del c'.screen }
        else record c' { screen = record c'.screen { pos = c'.screen.pos - 1 } })
    else c

-- The first loop of `consl_accept`: how many characters stand from `i` on.
pub rest_of_line : (lbuf : ℕ → ℕ) (fuel at : ℕ) → ℕ
rest_of_line lbuf zero at = 0
rest_of_line lbuf (suc fuel) at =
    let rest = rest_of_line lbuf fuel (at + 1) in if lbuf at == 0 then 0 else rest + 1

-- Its second loop, for `i` from `k` down to 1: they go one to the right, on the screen as well.
pub push_right : (k : ℕ) → Line → Option Line
push_right zero c = some c
push_right (suc k) c =
    let i = suc k in
    let c1 = record c { lbuf = update c.lbuf (c.i + i) (c.lbuf (c.i + i - 1)) } in
    let s = if c.screen.pos + i == c.screen.scr + scr_wh + 1 then scrup c.screen else c.screen in
    let c2 = record c1 {
      screen = record s { vbuf = update s.vbuf (s.pos + i) (s.vbuf (s.pos + i - 1)) };
    } in
    let rest = push_right k c2 in if leb lbuf_sz (c.i + i) then none else rest

pub consl_accept : ℕ → Line → Option Line
consl_accept ch c = elim (push_right (rest_of_line c.lbuf lbuf_sz c.i + 1) c) [
  | none ↦ none
  | some c' ↦
      if leb lbuf_sz c'.i
      then none
      else some (record {
        lbuf = update c'.lbuf c'.i ch;
        i = c'.i + 1;
        screen = next (putc ch c'.screen);
      })
]

-- `while (movl(c))` and `while (movr(c))`, on fuel.
pub home : ℕ → Line → Line
home zero c = c
home (suc fuel) c =
    let (moved, c') = movl c in let rest = home fuel c' in if moved then rest else c'

pub end : ℕ → Line → Line
end zero c = c
end (suc fuel) c = let (moved, c') = movr c in let rest = end fuel c' in if moved then rest else c'

-- The keys of `consl_feed` that edit the line; the rest of the keys do not touch it here.
pub data Key : Type 0 where
  k_del : Key
  k_back : Key
  k_left : Key
  k_right : Key
  k_home : Key
  k_end : Key

pub feed_key : Key → Line → Line
feed_key k_del c = backsp (movr c).1
feed_key k_back c = backsp c
feed_key k_left c = (movl c).1
feed_key k_right c = (movr c).1
feed_key k_home c = home (lbuf_sz + 1) c
feed_key k_end c = end (lbuf_sz + 1) c

-- What `cook` does to the line: it is emptied, and the cursor goes to the start of the next one.
pub end_line : Line → Line
end_line c = record { lbuf = update c.lbuf 0 0; i = 0; screen = lf (cr c.screen) }
