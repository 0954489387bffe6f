-- ===== src/Tests/Prompts.antt =====
-- Inputs for the theorems on the session of the shell.
use njuos.Prelude.{ℕ, ◌≡◌, refl, none, [], ◌∷◌, true, some, arith, ◌==◌, if◌then◌else◌}
use njuos.Prelude.Int.{pos}
use njuos.FileSystem.Directories.{string_at}
use njuos.Shell.Session.{Kernel, Shell, cat, put_to_shell_tty}
use njuos.Shell.Session.Shown.{cat_shown}

-- A kernel with one file, "hi", whose state counts the reads.
abbrev one_file : Kernel ℕ
one_file = record {
  chdir = λ p s. (pos 0, s);
  lsdir = λ p s. ((pos 0, []), s);
  create = λ p s. (pos 0, s);
  delete_file = λ p s. (pos 0, s);
  mkdir = λ p s. (pos 0, s);
  rmdir = λ p s. (pos 0, s);
  open_file = λ p s. (pos 3, 0);
  read = λ fd s. if s == 0 then ((pos 2, 104 ∷ 105 ∷ []), 1) else ((pos 0, []), s);
  exec = λ p args s. some (true, s);
}

abbrev idle : Shell ℕ
idle = record { current_dir = 47 ∷ []; terminal = []; kernel = 7 }

-- With "*" behind the two bytes in the buffer, "hi*" is shown.
abbrev star_left : ℕ → ℕ
star_left i = if i == 2 then 42 else 0

cat_shown_example :
    cat one_file (λ t. []) 2 star_left (some (97 ∷ [])) idle
    ≡ some (
        put_to_shell_tty one_file
          (λ t. [])
          none
          (record {
            current_dir = 47 ∷ [];
            terminal = (104 ∷ 105 ∷ string_at star_left 4094 2) ∷ (10 ∷ []) ∷ [];
            kernel = 1;
          }))
cat_shown_example =
    cat_shown one_file (λ t. []) 0 star_left (some (97 ∷ [])) idle (pos 3) (104 ∷ 105 ∷ []) 0 1 1
      refl refl refl (omega arith) (omega arith) (omega arith, (omega arith, tt))
