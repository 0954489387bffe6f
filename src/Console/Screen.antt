-- ===== src/Console/Screen.antt =====
-- The screen: `scrup`, `next`, `putc`, `cr`, `lf`, `del` and `consl_writec`.
pub mod Cursor
use njuos.Prelude.{
  ℕ, ◌+◌, ◌-◌, ◌%◌, Bool, ◌&&◌, ltb, leb, ◌==◌, if◌then◌else◌, update, List, [], ◌∷◌,
}
use njuos.Console.{scr_w, scr_wh, scr_size, draw}

-- `vbuf`, `scr` as an index of it, and `pos`.
pub record Screen : Type 0 where
  pub vbuf : ℕ → ℕ
  pub scr : ℕ
  pub pos : ℕ

-- The lines of `vbuf` one up, in `scrup` at the end of the buffer.
pub shift_up : Screen → Screen
shift_up c = record {
  vbuf = λ i. if ltb i (scr_size - scr_w) then c.vbuf (i + scr_w) else c.vbuf i;
  scr = c.scr - scr_w;
  pos = c.pos - scr_w;
}

-- The line behind the screen cleared, and the screen one line down.
pub clear_line : Screen → Screen
clear_line c = record c {
  vbuf =
      λ i. if leb (c.scr + scr_wh) i && ltb i (c.scr + scr_wh + scr_w) then draw 32 else c.vbuf i;
  scr = c.scr + scr_w;
}

pub scrup : Screen → Screen
scrup c = clear_line (if leb scr_size (c.scr + scr_wh) then shift_up c else c)

pub next : Screen → Screen
next c =
    let c' = if c.pos == c.scr + scr_wh - 1 then scrup c else c in record c' { pos = c'.pos + 1 }

pub putc : ℕ → Screen → Screen
putc ch c = record c { vbuf = update c.vbuf c.pos (draw ch) }

pub cr : Screen → Screen
cr c = record c { pos = c.pos - c.pos % scr_w }

pub lf : Screen → Screen
lf c =
    let c' = record c { pos = c.pos + scr_w } in
    if leb (c'.scr + scr_wh) c'.pos then scrup c' else c'

pub del : Screen → Screen
del c = putc 32 (record c { pos = c.pos - 1 })

-- `consl_writec`: '\r' is 13 and '\n' is 10.
pub consl_writec : ℕ → Screen → Screen
consl_writec ch c = if ch == 13 then cr c else (if ch == 10 then lf (cr c) else next (putc ch c))

-- The loop of `ttyd` over the characters of a write.
pub write_chars : List ℕ → Screen → Screen
write_chars [] c = c
write_chars (ch ∷ chs) c = write_chars chs (consl_writec ch c)

-- The screen of `init_consl`.
pub blank_screen : Screen
blank_screen = record { vbuf = λ i. if ltb i scr_wh then draw 32 else 0; scr = 0; pos = 0 }
