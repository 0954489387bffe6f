-- ===== src/Console.antt =====
-- src/kernel/drivers/tty/console.c: the screen of a terminal, its line editor, and the buffer of cooked
-- characters. Pointers into `vbuf` are indices of it; `none` is a panic or a failed assertion.
pub mod Screen
pub mod Line
pub mod Cooked
pub mod Keyboard
use njuos.Prelude.{ℕ, ◌+◌, ◌*◌}

-- `SCR_W`, `wh` and `size` of every console, and the sizes of its buffers.
abbrev pub scr_w : ℕ
scr_w = 80

abbrev pub scr_wh : ℕ
scr_wh = 80 * 24

abbrev pub scr_size : ℕ
scr_size = 80 * 24 * 2

abbrev pub lbuf_sz : ℕ
lbuf_sz = 256

abbrev pub cbuf_sz : ℕ
cbuf_sz = 1024

abbrev pub rstk_sz : ℕ
rstk_sz = 16

-- `draw` of a character below 128: white on black.
pub draw : ℕ → ℕ
draw ch = 7 * 256 + ch
