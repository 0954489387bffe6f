-- ===== src/Tests/Consoles.antt =====
-- Inputs for the theorems on the terminals.
use njuos.Prelude.{◌+◌, ◌≡◌, refl, some, [], ◌∷◌, arith, get_or, ltb, if◌then◌else◌}
use njuos.Console.Screen.{Screen, write_chars}
use njuos.Console.Screen.Cursor.{IsScreen, write_chars-IsScreen}
use njuos.Console.Cooked.{Cooked, get_cooked}
use njuos.Console.Cooked.Fifo.{IsCooked, contents, window, get_cooked_line}
use njuos.Console.Line.{Line}
use njuos.Console.Line.Editing.{IsLine}

-- The cursor at the last place of a screen at the end of its buffer.
abbrev full_screen : Screen
full_screen = record { vbuf = λ i. 0; scr = 1920; pos = 3839 }

full_screen-IsScreen : IsScreen full_screen
full_screen-IsScreen = record {
  whole_lines = omega arith;
  inside = omega arith;
  above = omega arith;
  below = omega arith;
}

write_chars-IsScreen_example : IsScreen (write_chars (65 ∷ 10 ∷ 66 ∷ []) full_screen)
write_chars-IsScreen_example =
    write_chars-IsScreen (65 ∷ 10 ∷ 66 ∷ []) full_screen full_screen-IsScreen

-- A buffer with the line "ab" over the end of its array.
abbrev wrapped : Cooked
wrapped = record { cbuf = λ i. get_or (98 ∷ 0 ∷ []) i 97; f = 1023; r = 2; rstk = [] }

wrapped-IsCooked : IsCooked wrapped
wrapped-IsCooked = record { f_in = omega arith; r_in = omega arith }

wrapped-contents : contents wrapped ≡ 97 ∷ 98 ∷ 0 ∷ []
unfolding window
wrapped-contents = refl

get_cooked_line_example :
    (c' : Cooked) × (get_cooked 9 wrapped ≡ some (97 ∷ 98 ∷ [], c')) × (contents c' ≡ [])
get_cooked_line_example =
    get_cooked_line (97 ∷ 98 ∷ []) [] 9 wrapped wrapped-IsCooked (omega arith, (omega arith, tt))
      (omega arith) wrapped-contents

-- The line "abc" with the cursor behind the "a".
abbrev abc : Line
abc = record {
  lbuf = λ k. if ltb k 3 then 97 + k else 0;
  i = 1;
  screen = record full_screen { pos = 2041 };
}

abc-IsLine : IsLine abc 3
abc-IsLine = record { characters = λ k h. ground arith; ended = refl; inside = omega arith }
