-- ===== src/Tests/Texts.antt =====
-- Inputs for the theorems on strings, numbers and command lines.
use njuos.Prelude.{refl, some, ℕ, ◌==◌, if◌then◌else◌, ◌+◌, ◌≡◌, List, [], ◌∷◌, ◌++◌, arith}
use njuos.Prelude.Int.{pos, negsuc}
use njuos.Strings.{printf_int}
use njuos.Strings.Numbers.{value, printf_int_lem}
use njuos.SystemCalls.Library.{word_of}
use njuos.Strings.Printing.{printk_from}
use njuos.Strings.Printing.Pieces.{
  Piece, char, decimal, letter, Fitting, Pushed, words_of, format_of, text_of, printk_from_lem,
}
use njuos.Shell.{DirPath, back, go_up, go_down, walk, component, convert_to_full_path}
use njuos.Shell.Paths.{AtDir, Stands, names, component-Stands}

-- "ls" and "cd"
abbrev ls : List ℕ
ls = 108 ∷ 115 ∷ []

abbrev cd : List ℕ
cd = 99 ∷ 100 ∷ []

printf_int_lem_example :
    (value 10 0 (printf_int (pos 2147483647)) ≡ 2147483647)
    × ((ds : List ℕ) × (printf_int (negsuc 2147483647) ≡ 45 ∷ ds)
        × (value 10 0 ds ≡ 2147483647 + 1))
printf_int_lem_example = printf_int_lem 2147483647 (omega arith)

-- The state at "/ls".
abbrev at_ls : DirPath
at_ls = record { real_dir = 47 ∷ ls; at = 3 }

at_ls-Stands : Stands at_ls (ls ∷ [])
unfolding Stands AtDir names
at_ls-Stands = (refl, refl)

component-Stands_example :
    AtDir (component cd at_ls) ((ls ∷ []) ++ cd ∷ [])
    × Stands (component (46 ∷ 46 ∷ []) (component cd at_ls)) (ls ∷ [])
    × (component (46 ∷ []) at_ls ≡ at_ls)
component-Stands_example =
    component-Stands at_ls (ls ∷ []) cd at_ls-Stands
      ((omega arith, (omega arith, (omega arith, tt))), tt)
      (omega arith, (omega arith, (omega arith, tt))) refl refl

-- From "/ls", "../cd" leads to "/cd".
up_and_down : convert_to_full_path (47 ∷ ls) (some (46 ∷ 46 ∷ 47 ∷ cd)) ≡ 47 ∷ cd
unfolding convert_to_full_path walk component go_up go_down back
up_and_down = refl

-- "%c-%d" with the arguments 'A' and -2.
abbrev words : ℕ → ℕ
words n = if n == 0 then 65 else 4294967294

abbrev pieces : List Piece
pieces = letter 65 ∷ char 45 ∷ decimal (negsuc 1) ∷ []

printk_from_lem_example :
    printk_from words (λ a. []) 0 (37 ∷ 99 ∷ 45 ∷ 37 ∷ 100 ∷ [])
    ≡ some (65 ∷ 45 ∷ printf_int (negsuc 1) ++ [], 2)
unfolding Fitting Pushed words_of format_of text_of word_of
printk_from_lem_example =
    printk_from_lem words (λ a. []) 0 pieces
      (omega arith, ((λ e. ground (arith, e)), ((omega arith, omega arith), tt))) (refl, (refl, tt))
