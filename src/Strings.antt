-- ===== src/Strings.antt =====
-- src/lib/string.c and src/lib/printk.c: strings as the list of their characters before the NUL, and the
-- numbers printed into them.
pub mod Printing
pub mod Compare
pub mod Numbers
use njuos.Prelude.{
  ℕ, zero, suc, ◌+◌, ◌-◌, ◌*◌, ◌/◌, ◌%◌, ◌^◌, List, [], ◌∷◌, ◌++◌, Bool, true, false, ◌==◌,
  if◌then◌else◌, ltb, length, take,
}
use njuos.Prelude.Int.{ℤ, pos, negsuc, is_zero}

-- `strcmp`, for characters below 128; the loop ends at the first NUL of the two.
unfoldable pub strcmp : List ℕ → List ℕ → ℤ
strcmp [] [] = pos 0
strcmp [] (b ∷ t) = negsuc 0
strcmp (a ∷ s) [] = pos 1
strcmp (a ∷ s) (b ∷ t) =
    let rest = strcmp s t in if ltb b a then pos 1 else (if ltb a b then negsuc 0 else rest)

-- `strcmp(…) == 0`
unfoldable pub equal_strings : List ℕ → List ℕ → Bool
unfolding strcmp
equal_strings s t = is_zero (strcmp s t)

-- `strlen` on memory, on fuel.
pub strlen : (ℕ → ℕ) → (fuel at len : ℕ) → ℕ
strlen mem zero at len = len
strlen mem (suc fuel) at len =
    let rest = strlen mem fuel (at + 1) (len + 1) in if mem at == 0 then len else rest

-- `strcpy`: the bytes of the string with its NUL, at once.
pub strcpy : (dest : ℕ) → List ℕ → (ℕ → ℕ) → ℕ → ℕ
strcpy dest [] mem a = if a == dest then 0 else mem a
strcpy dest (c ∷ s) mem a = if a == dest then c else strcpy (dest + 1) s mem a

-- A digit as a character, decimal or hexadecimal.
abbrev pub digit : ℕ → ℕ
digit d = if ltb d 10 then 48 + d else 97 + (d - 10)

-- `num` with its `top`, the last digit first, of a number in some base. The array has 15 places.
pub digits : (base fuel val : ℕ) → List ℕ
digits base zero val = []
digits base (suc fuel) val =
    let rest = digits base fuel (val / base) in if val == 0 then [] else digit (val % base) ∷ rest

-- The loop that prints `num` from the top down; `flag` goes to the last digit.
pub print_down : (flag : ℕ) → List ℕ → List ℕ
print_down flag [] = []
print_down flag (c ∷ cs) = print_down 0 cs ++ (c + flag) ∷ []

-- `printf_int` on a 32-bit integer: the characters printed. The least one is printed as the next with
-- one more in the last digit.
pub printf_int : ℤ → List ℕ
printf_int (pos n) = if n == 0 then 48 ∷ [] else print_down 0 (digits 10 15 n)
printf_int (negsuc n) =
    if n == 2 ^ 31 - 1
    then 45 ∷ print_down 1 (digits 10 15 n)
    else 45 ∷ print_down 0 (digits 10 15 (n + 1))

-- `printf_int_x`
pub printf_int_x : ℕ → List ℕ
printf_int_x n = if n == 0 then 48 ∷ [] else print_down 0 (digits 16 15 n)

-- The digits of `itoa`, whose loop runs once at least; a negative number gets no sign, and characters
-- below '0'.
pub itoa_digits : (negative : Bool) (fuel a : ℕ) → List ℕ
itoa_digits negative zero a = []
itoa_digits negative (suc fuel) a =
    let c = if negative then 48 - a % 10 else 48 + a % 10 in
    let rest = itoa_digits negative fuel (a / 10) in if a / 10 == 0 then c ∷ [] else c ∷ rest

pub itoa : ℤ → List ℕ
itoa (pos n) = print_down 0 (itoa_digits false 30 n)
itoa (negsuc n) = print_down 0 (itoa_digits true 30 (n + 1))
