-- ===== src/Process/Pool/Arguments.antt =====
-- Where `exec` puts the text of the arguments in the stack of the new program.
use njuos.Prelude.{ℕ, ◌+◌, ◌%◌, ◌≤◌, ◌<◌, ◌≡◌, ◌↔◌, arith}
use njuos.Process.Pool.{args_place}

-- For the arguments that fit in the buffer of `exec`: the place of the text is a multiple of four just
-- where its length is one, and the NUL behind the text lies above the top of the stack, 0xbfffffff, just
-- where the length leaves 2 or 3 on division by four.
pub args_place_bounds :
    (args_len : ℕ)
    → args_len < 252
    → ((args_place args_len % 4 ≡ 0) ↔ (args_len % 4 ≡ 0))
      × ((0xbfffffff < args_place args_len + args_len) ↔ (2 ≤ args_len % 4))
unfolding args_place
args_place_bounds n h = ((λ e. omega arith, λ e. omega arith), (λ e. omega arith, λ e. omega arith))
