-- ===== src/Console/Screen/Cursor.antt =====
-- The cursor stays on the screen and the screen in its buffer.
use njuos.Prelude.{
  ℕ, ◌+◌, ◌-◌, ◌%◌, ◌≤◌, ◌<◌, ◌≡◌, ◌≢◌, ap, ◌∙◌, ltb, leb, ◌==◌, update_self, List, [], ◌∷◌, arith,
  Bool-cases, inl, inr, true, false,
}
use njuos.Console.{scr_w, scr_wh, scr_size, draw}
use njuos.Console.Screen.{
  Screen, shift_up, clear_line, scrup, next, putc, cr, lf, consl_writec, write_chars, blank_screen,
}

pub record IsScreen (c : Screen) : Type 0 where
  pub whole_lines : c.scr % scr_w ≡ 0
  pub inside : c.scr + scr_wh ≤ scr_size
  pub above : c.scr ≤ c.pos
  pub below : c.pos < c.scr + scr_wh

blank_screen-IsScreen : IsScreen blank_screen
unfolding blank_screen
blank_screen-IsScreen = record {
  whole_lines = omega arith;
  inside = omega arith;
  above = omega arith;
  below = omega arith;
}

consl_writec-IsScreen : (ch : ℕ) (c : Screen) → IsScreen c → IsScreen (consl_writec ch c)
unfolding consl_writec next putc cr lf scrup clear_line shift_up
consl_writec-IsScreen ch c v = record {
  whole_lines = ground (arith, v.whole_lines, v.inside, v.above, v.below);
  inside = ground (arith, v.whole_lines, v.inside, v.above, v.below);
  above = ground (arith, v.whole_lines, v.inside, v.above, v.below);
  below = ground (arith, v.whole_lines, v.inside, v.above, v.below);
}

-- Whatever characters are written, from a screen in its buffer with the cursor on it, the screen stays
-- in the buffer, on whole lines, with the cursor on it.
pub write_chars-IsScreen : (chs : List ℕ) (c : Screen) → IsScreen c → IsScreen (write_chars chs c)
unfolding write_chars
write_chars-IsScreen [] c v = v
write_chars-IsScreen (ch ∷ chs) c v =
    write_chars-IsScreen chs (consl_writec ch c) (consl_writec-IsScreen ch c v)

next_shown :
    (c : Screen)
    → IsScreen c
    → (0 < (next c).pos) × ((next c).vbuf ((next c).pos - 1) ≡ c.vbuf c.pos)
unfolding next scrup clear_line shift_up
next_shown c v = elim (Bool-cases (c.pos == c.scr + scr_wh - 1)) [
  | inl e ↦ elim (Bool-cases (leb scr_size (c.scr + scr_wh))) [
    | inl s ↦
        let back : c.pos - 80 + 1 - 1 + 80 ≡ c.pos = ground (arith, v.inside) in
        let behind : leb (c.scr - scr_w + scr_wh) (c.pos - scr_w + 1 - 1) ≡ false =
          ground (arith, v.inside) in
        let early : ltb (c.pos - scr_w + 1 - 1) 3760 ≡ true = ground (arith, v.inside) in
        (
          rw (next, scrup, e, s) (omega arith),
          rw (next, scrup, e, s, behind, early) (ap c.vbuf back),
        )
    | inr s ↦
        let back : c.pos + 1 - 1 ≡ c.pos = omega arith in
        (rw (next, scrup, e, s) (omega arith), rw (next, scrup, e, s, back) (ground (arith, e)))
  ]
  | inr e ↦ (rw (next, e) (omega arith), rw (next, e) (ap c.vbuf (omega arith)))
]

-- A character other than '\r' and '\n' stands just before the cursor when it has been written, in the
-- colours of the console.
pub consl_writec_shown :
    (ch : ℕ) (c : Screen)
    → IsScreen c
    → ch ≢ 13
    → ch ≢ 10
    → let c' = consl_writec ch c in (0 < c'.pos) × (c'.vbuf (c'.pos - 1) ≡ draw ch)
unfolding consl_writec putc
consl_writec_shown ch c v p q =
    let a : (ch == 13) ≡ false = ground arith in
    let b : (ch == 10) ≡ false = ground arith in
    let w : IsScreen (putc ch c) = record {
      whole_lines = v.whole_lines;
      inside = v.inside;
      above = v.above;
      below = v.below;
    } in
    let (low, shown) = next_shown (putc ch c) w in
    rw (consl_writec, a, b) (low, shown ∙ update_self c.vbuf c.pos (draw ch))
