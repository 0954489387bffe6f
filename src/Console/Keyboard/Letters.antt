-- ===== src/Console/Keyboard/Letters.antt =====
-- What the letter keys give.
use njuos.Prelude.{
  ℕ, zero, suc, ◌+◌, ◌-◌, ◌<◌, ◌≡◌, refl, subst, Bool, true, false, not, ◌&&◌, ◌||◌, [], ◌∷◌, arith,
  leb, ◌==◌, if◌then◌else◌, get_or,
}
use njuos.Console.Keyboard.{
  Keys, accept, low_bit, keychar, char_of, is_feed, press, readkey, plain_row, shift_row,
}

-- A letter key by its code: its character in the first row is a letter.
abbrev pub is_letter : ℕ → Bool
is_letter code = leb 97 (get_or plain_row code 0) && leb (get_or plain_row code 0) 122

-- What the table and the switch say of one code.
abbrev letter_row : ℕ → Bool
letter_row code =
    not (is_letter code)
    || ((get_or shift_row code 0 == get_or plain_row code 0 - 32)
        && not (is_feed code)
        && not (
            (code == 88)
            || (code == 42)
            || (code == 54)
            || (code == 29)
            || (code == 56)
            || (code == 58)))

-- The test holds for the `count` codes from `first` on.
codes_pass : (test : ℕ → Bool) → (first count : ℕ) → Bool
codes_pass test first zero = true
codes_pass test first (suc count) = if test first then codes_pass test (first + 1) count else false

codes_pass_lem :
    (test : ℕ → Bool) (first count j : ℕ)
    → j < count
    → codes_pass test first count ≡ true
    → test (first + j) ≡ true
unfolding codes_pass
codes_pass_lem test first zero j lt h = absurd (omega arith)
codes_pass_lem test first (suc count) zero lt h =
    let here : first + 0 ≡ first = omega arith in rw here (ground arith)
codes_pass_lem test first (suc count) (suc j) lt h =
    let next : first + suc j ≡ first + 1 + j = omega arith in
    let passed : codes_pass test (first + 1) count ≡ true = ground arith in
    rw next (codes_pass_lem test (first + 1) count j (omega arith) passed)

letter_rows : codes_pass letter_row 0 128 ≡ true
unfolding codes_pass is_feed plain_row shift_row
letter_rows = refl

-- The table and the switch at a letter.
letter_facts :
    (code : ℕ)
    → code < 128
    → is_letter code ≡ true
    → (get_or shift_row code 0 ≡ get_or plain_row code 0 - 32)
      × (is_feed code ≡ false)
      × (((code == 88)
            || (code == 42)
            || (code == 54)
            || (code == 29)
            || (code == 56)
            || (code == 58))
          ≡ false)
letter_facts code lt h =
    let at : 0 + code ≡ code = omega arith in
    let row : letter_row code ≡ true =
      subst (λ c. letter_row c ≡ true) at (codes_pass_lem letter_row 0 128 code lt letter_rows) in
    ground (arith, row, h)

press_letter : (code : ℕ) (s : Keys) → code < 128 → is_letter code ≡ true → press code s ≡ ([], s)
unfolding press
press_letter code s lt h = let (_, f, g) = letter_facts code lt h in ground (arith, f, g)

-- The code of a letter key gives one character and changes nothing that the keyboard remembers: the small
-- letter of the table, or the capital, which is 32 less, just where of Shift and Caps Lock one, and not
-- the other, counts to an odd number.
pub readkey_letter :
    (code : ℕ) (s : Keys)
    → code < 128
    → is_letter code ≡ true
    → readkey code s ≡ (
      accept (
            if low_bit s.shft == low_bit s.caps
            then get_or plain_row code 0
            else get_or plain_row code 0 - 32)
          ∷ [],
      s,
    )
unfolding readkey char_of keychar
readkey_letter code s lt h =
    let (row, _, _) = letter_facts code lt h in
    let pressed = press_letter code s lt h in
    let low : leb 128 code ≡ false = ground arith in ground (arith, row, pressed, low, h)
