-- ===== src/Console/Keyboard.antt =====
-- src/kernel/drivers/tty/keyboard.c: `readkey`, from the byte of the keyboard's port to what it hands to
-- the terminal.
pub mod Letters
use njuos.Prelude.{
  ℕ, ◌+◌, ◌-◌, ◌%◌, Bool, true, false, ◌&&◌, ◌||◌, List, [], ◌∷◌, ltb, leb, ◌==◌, if◌then◌else◌,
  get_or,
}
use njuos.Prelude.Int.{ℤ, pos, negsuc, ◌+ℤ◌, ◌-ℤ◌}

-- `caps`, `ctrl`, `alt` and `shft`, which count presses.
pub record Keys : Type 0 where
  pub caps : ℤ
  pub ctrl : ℤ
  pub alt : ℤ
  pub shft : ℤ

-- `consl_accept` of a character, `consl_feed` of a key, and the reboot.
pub data Event : Type 0 where
  accept : (c : ℕ) → Event
  feed : (code : ℕ) → Event
  reboot : Event

-- `& 1` of an `int`
unfoldable pub low_bit : ℤ → ℕ
low_bit (pos n) = n % 2
low_bit (negsuc n) = (n + 1) % 2

-- The two rows of `keychar`; the rest of the 128 is 0.
unfoldable pub plain_row : List ℕ
plain_row =
    0 ∷ 0 ∷ 49 ∷ 50 ∷ 51 ∷ 52 ∷ 53 ∷ 54 ∷ 55 ∷ 56 ∷ 57 ∷ 48 ∷ 45 ∷ 61 ∷ 0 ∷ 0 ∷ 113 ∷ 119 ∷ 101
    ∷ 114 ∷ 116 ∷ 121 ∷ 117 ∷ 105 ∷ 111 ∷ 112 ∷ 91 ∷ 93 ∷ 0 ∷ 0 ∷ 97 ∷ 115 ∷ 100 ∷ 102 ∷ 103 ∷ 104
    ∷ 106 ∷ 107 ∷ 108 ∷ 59 ∷ 39 ∷ 96 ∷ 0 ∷ 92 ∷ 122 ∷ 120 ∷ 99 ∷ 118 ∷ 98 ∷ 110 ∷ 109 ∷ 44 ∷ 46 ∷ 47
    ∷ 0 ∷ 0 ∷ 0 ∷ 32 ∷ []

unfoldable pub shift_row : List ℕ
shift_row =
    0 ∷ 0 ∷ 33 ∷ 64 ∷ 35 ∷ 36 ∷ 37 ∷ 94 ∷ 38 ∷ 42 ∷ 40 ∷ 41 ∷ 95 ∷ 43 ∷ 0 ∷ 0 ∷ 81 ∷ 87 ∷ 69 ∷ 82
    ∷ 84 ∷ 89 ∷ 85 ∷ 73 ∷ 79 ∷ 80 ∷ 123 ∷ 125 ∷ 0 ∷ 0 ∷ 65 ∷ 83 ∷ 68 ∷ 70 ∷ 71 ∷ 72 ∷ 74 ∷ 75 ∷ 76
    ∷ 58 ∷ 34 ∷ 126 ∷ 0 ∷ 124 ∷ 90 ∷ 88 ∷ 67 ∷ 86 ∷ 66 ∷ 78 ∷ 77 ∷ 60 ∷ 62 ∷ 63 ∷ 0 ∷ 0 ∷ 0 ∷ 32
    ∷ []

unfoldable pub keychar : (row code : ℕ) → ℕ
keychar row code = if row == 0 then get_or plain_row code 0 else get_or shift_row code 0

-- `^` of two single bits
abbrev pub xor : ℕ → ℕ → ℕ
xor a b = if a == b then 0 else 1

-- The character of a key that is pressed.
pub char_of : (code : ℕ) → Keys → ℕ
unfolding keychar
char_of code s =
    let c = keychar 0 code in
    if leb 97 c && leb c 122
    then keychar (xor (low_bit s.shft) (low_bit s.caps)) code
    else keychar (low_bit s.shft) code

-- The keys that go to `consl_feed`: enter, backspace, the arrows, home, end, del and F1 to F6.
pub is_feed : ℕ → Bool
is_feed code =
    (code == 28)
    || (code == 14)
    || (code == 75)
    || (code == 77)
    || (code == 71)
    || (code == 79)
    || (code == 83)
    || (leb 59 code && leb code 64)

-- The switch for a key that is pressed ...
pub press : (code : ℕ) → Keys → List Event × Keys
unfolding is_feed
press code s =
    if is_feed code
    then (feed code ∷ [], s)
    else (if code == 88
        then (reboot ∷ [], s)
        else (if (code == 42) || (code == 54)
            then ([], record s { shft = s.shft +ℤ pos 1 })
            else (if code == 29
                then ([], record s { ctrl = s.ctrl +ℤ pos 1 })
                else (if code == 56
                    then ([], record s { alt = s.alt +ℤ pos 1 })
                    else (if code == 58
                        then ([], record s { caps = s.caps +ℤ pos 1 })
                        else ([], s))))))

-- ... and for one that is let go.
pub release : (code : ℕ) → Keys → Keys
release code s =
    if (code == 42) || (code == 54)
    then record s { shft = s.shft -ℤ pos 1 }
    else (if code == 29
        then record s { ctrl = s.ctrl -ℤ pos 1 }
        else (if code == 56
            then record s { alt = s.alt -ℤ pos 1 }
            else (if code == 58 then record s { caps = pos (low_bit s.caps) } else s)))

-- `readkey`, on the byte read.
pub readkey : (code : ℕ) → Keys → List Event × Keys
unfolding char_of press release
readkey code s =
    if leb 128 code
    then ([], release (code - 128) s)
    else (let c = char_of code s in
        let (events, s') = press code s in if c == 0 then (events, s') else (accept c ∷ events, s'))
