-- ===== src/Strings/Printing/Pieces.antt =====
-- What `printk` prints of a format with its arguments.
use njuos.Prelude.{
  ℕ, ◌+◌, ◌-◌, ◌%◌, ◌^◌, ◌<◌, ◌≤◌, ◌≡◌, ◌≢◌, refl, ap, ◌∙◌, List, [], ◌∷◌, ◌++◌, some, arith, ltb,
  ◌==◌, false, if◌then◌else◌, length,
}
use njuos.Prelude.Int.{ℤ, pos, negsuc, pos_part, neg_part}
use njuos.Strings.{printf_int, printf_int_x}
use njuos.Strings.Printing.{printk_from, conversion, plain_first}
use njuos.SystemCalls.Library.{word_of}

-- The pieces of a format, with the arguments that go with them.
pub data Piece : Type 0 where
  char : ℕ → Piece
  decimal : ℤ → Piece
  hex : (n : ℕ) → Piece
  letter : (c : ℕ) → Piece
  string : (at : ℕ) → Piece
  percent : Piece

-- How a piece is written, which words the caller pushes for it, and what it is to print.
unfoldable pub format_of : List Piece → List ℕ
format_of [] = []
format_of (char c ∷ ps) = c ∷ format_of ps
format_of (decimal z ∷ ps) = 37 ∷ 100 ∷ format_of ps
format_of (hex n ∷ ps) = 37 ∷ 120 ∷ format_of ps
format_of (letter c ∷ ps) = 37 ∷ 99 ∷ format_of ps
format_of (string at ∷ ps) = 37 ∷ 115 ∷ format_of ps
format_of (percent ∷ ps) = 37 ∷ 37 ∷ format_of ps

unfoldable pub words_of : List Piece → List ℕ
words_of [] = []
words_of (char c ∷ ps) = words_of ps
words_of (decimal z ∷ ps) = word_of z ∷ words_of ps
words_of (hex n ∷ ps) = n ∷ words_of ps
words_of (letter c ∷ ps) = c ∷ words_of ps
words_of (string at ∷ ps) = at ∷ words_of ps
words_of (percent ∷ ps) = words_of ps

unfoldable pub text_of : (text_at : ℕ → List ℕ) → List Piece → List ℕ
text_of text_at [] = []
text_of text_at (char c ∷ ps) = c ∷ text_of text_at ps
text_of text_at (decimal z ∷ ps) = printf_int z ++ text_of text_at ps
text_of text_at (hex n ∷ ps) = printf_int_x n ++ text_of text_at ps
text_of text_at (letter c ∷ ps) = c ∷ text_of text_at ps
text_of text_at (string at ∷ ps) = text_at at ++ text_of text_at ps
text_of text_at (percent ∷ ps) = 37 ∷ text_of text_at ps

-- Characters are no '%', ints are ints and letters are bytes.
unfoldable pub Fitting : List Piece → Type 0
Fitting [] = Unit
Fitting (char c ∷ ps) = (c ≢ 37) × Fitting ps
Fitting (decimal z ∷ ps) = ((pos_part z < 2 ^ 31) × (neg_part z ≤ 2 ^ 31)) × Fitting ps
Fitting (hex n ∷ ps) = Fitting ps
Fitting (letter c ∷ ps) = (c < 256) × Fitting ps
Fitting (string at ∷ ps) = Fitting ps
Fitting (percent ∷ ps) = Fitting ps

-- The words stand on the stack from the word `n` on.
unfoldable pub Pushed : (stack : ℕ → ℕ) → List ℕ → (n : ℕ) → Type 0
Pushed stack [] n = Unit
Pushed stack (w ∷ ws) n = (stack n ≡ w) × Pushed stack ws (n + 1)

int_back :
    (z : ℤ)
    → pos_part z < 2 ^ 31
    → neg_part z ≤ 2 ^ 31
    → (if ltb (word_of z) (2 ^ 31) then pos (word_of z) else negsuc (2 ^ 32 - 1 - word_of z)) ≡ z
unfolding word_of
int_back z p q = ground arith

-- Of a format of characters, the conversions %d, %x, %c, %s and %%, with the words for its arguments on
-- the stack: `printk` prints each character once, each int in the digits of `printf_int`, each unsigned
-- number in those of `printf_int_x`, each byte and each string, in their order, and takes one word for each
-- argument and none for anything else.
pub printk_from_lem :
    (stack : ℕ → ℕ) (text_at : ℕ → List ℕ) (n : ℕ) (ps : List Piece)
    → Fitting ps
    → Pushed stack (words_of ps) n
    → printk_from stack text_at n (format_of ps)
      ≡ some (text_of text_at ps, n + length (words_of ps))
unfolding printk_from conversion Fitting Pushed words_of format_of text_of
printk_from_lem stack text_at n [] h w = ap (λ k. some ([], k)) (omega arith)
printk_from_lem stack text_at n (char c ∷ ps) h w =
    let test : (c == 37) ≡ false = ground (arith, h.0) in
    plain_first stack text_at n c (format_of ps) test
    ∙ rw (printk_from_lem stack text_at n ps h.1 w) refl
printk_from_lem stack text_at n (decimal z ∷ ps) h w =
    let rest = printk_from_lem stack text_at (n + 1) ps h.1 w.1 in
    let back = int_back z h.0.0 h.0.1 in
    let sum : n + 1 + length (words_of ps) ≡ n + length (word_of z ∷ words_of ps) = omega arith in
    rw (w.0, back, rest, sum) refl
printk_from_lem stack text_at n (hex k ∷ ps) h w =
    let rest = printk_from_lem stack text_at (n + 1) ps h w.1 in
    let sum : n + 1 + length (words_of ps) ≡ n + length (k ∷ words_of ps) = omega arith in
    rw (w.0, rest, sum) refl
printk_from_lem stack text_at n (letter c ∷ ps) h w =
    let rest = printk_from_lem stack text_at (n + 1) ps h.1 w.1 in
    let sum : n + 1 + length (words_of ps) ≡ n + length (c ∷ words_of ps) = omega arith in
    let byte : c % 256 ≡ c = omega (arith, h.0) in rw (w.0, byte, rest, sum) refl
printk_from_lem stack text_at n (string at ∷ ps) h w =
    let rest = printk_from_lem stack text_at (n + 1) ps h w.1 in
    let sum : n + 1 + length (words_of ps) ≡ n + length (at ∷ words_of ps) = omega arith in
    rw (w.0, rest, sum) refl
printk_from_lem stack text_at n (percent ∷ ps) h w =
    let rest = printk_from_lem stack text_at n ps h w in
    let none_taken : n + 0 ≡ n = omega arith in rw (none_taken, rest) refl
