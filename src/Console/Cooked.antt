-- ===== src/Console/Cooked.antt =====
-- The cooked characters of a terminal: `get_cooked`, `read_request` and `cook`.
pub mod Fifo
use njuos.Prelude.{
  ℕ, zero, suc, ◌+◌, ◌-◌, ◌%◌, List, [], ◌∷◌, ◌++◌, Option, none, some, ltb, ◌==◌, if◌then◌else◌,
  update, length,
}
use njuos.Prelude.Int.{ℤ}
use njuos.Console.{cbuf_sz, rstk_sz}

-- A read that waits: who sent it and for how many characters. Its buffer and the process it is for go
-- with it.
pub record Request : Type 0 where
  pub src : ℤ
  pub len : ℕ

-- `cbuf` with `f` and `r`, and `rstk` with its top first.
pub record Cooked : Type 0 where
  pub cbuf : ℕ → ℕ
  pub f : ℕ
  pub r : ℕ
  pub rstk : List Request

-- The loop of `get_cooked`: the characters that are copied out, up to the NUL of a line.
pub get_loop : (count : ℕ) → Cooked → List ℕ × Cooked
get_loop zero c = ([], c)
get_loop (suc count) c =
    let c' = record c { f = (c.f + 1) % cbuf_sz } in
    let (chars, rest) = get_loop count c' in
    if c.cbuf c.f == 0 then ([], c') else (c.cbuf c.f ∷ chars, rest)

-- `get_cooked`; `none` is its assertion.
pub get_cooked : (count : ℕ) → Cooked → Option (List ℕ × Cooked)
get_cooked count c = if c.f == c.r then none else some (get_loop count c)

-- `read_request`: the answer, with who gets it, or none yet; the outer `none` is its panic.
pub read_request : Request → Cooked → Option (Option (ℤ × List ℕ) × Cooked)
read_request m c =
    if c.f == c.r
    then (if length c.rstk == rstk_sz then none else some (none, record c { rstk = m ∷ c.rstk }))
    else (elim (get_cooked m.len c) [
      | none ↦ none
      | some (chars, c') ↦ some (some (m.src, chars), c')
    ])

-- One round of the loop of `cook`; `none` is the panic on a full buffer, whose `r` has come to `f`.
pub put_cooked : ℕ → Cooked → Option Cooked
put_cooked ch c =
    let r = (c.r + 1) % cbuf_sz in
    if r == c.f then none else some (record c { cbuf = update c.cbuf c.r ch; r = r })

pub put_line : List ℕ → Cooked → Option Cooked
put_line [] c = put_cooked 0 c
put_line (ch ∷ chs) c = elim (put_cooked ch c) [ none ↦ none | some c' ↦ put_line chs c' ]

-- `cook` of a line: it is buffered with its NUL, and the read that came last, if one waits, is
-- answered.
pub cook : List ℕ → Cooked → Option (Option (ℤ × List ℕ) × Cooked)
cook line c = elim (put_line line c) [
  | none ↦ none
  | some c' ↦ elim c'.rstk [
    | [] ↦ some (none, c')
    | m ∷ ms ↦ read_request m (record c' { rstk = ms })
  ]
]
