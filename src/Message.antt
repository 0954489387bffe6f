-- ===== src/Message.antt =====
-- include/process.h: the messages that the kernel threads exchange, and the constants of their types.
use njuos.Prelude.{ℕ}
use njuos.Prelude.Int.{ℤ, pos, negsuc}

-- `Msg`: the union of `type` and `ret` is the one field `type`, and the union of `i[5]` with the named
-- fields `req_pid, dev_id, buf, offset, len` is the fields `i0` to `i4`, in this order.
pub record Msg : Type 0 where
  pub src : ℤ
  pub dest : ℤ
  pub type : ℤ
  pub i0 : ℤ
  pub i1 : ℤ
  pub i2 : ℤ
  pub i3 : ℤ
  pub i4 : ℤ

-- `ANY` and `MSG_HARD_INTR`
abbrev pub any : ℤ
any = negsuc 0

abbrev pub msg_hard_intr : ℤ
msg_hard_intr = negsuc 1

-- `POOL_NUM`
abbrev pub pool_num : ℕ
pool_num = 50

-- A message with every field 0.
abbrev pub blank : Msg
blank = record {
  src = pos 0;
  dest = pos 0;
  type = pos 0;
  i0 = pos 0;
  i1 = pos 0;
  i2 = pos 0;
  i3 = pos 0;
  i4 = pos 0;
}
