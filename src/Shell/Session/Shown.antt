-- ===== src/Shell/Session/Shown.antt =====
-- The text that `cat` shows of a file.
use njuos.Prelude.{
  ℕ, zero, suc, ◌+◌, ◌-◌, ◌≡◌, ◌≢◌, ◌<◌, ◌≤◌, refl, sym, ap, ◌∙◌, List, [], ◌∷◌, ◌++◌, Option, none,
  some, arith, length, get_or, ◌==◌, false,
}
use njuos.Prelude.Int.{ℤ, pos}
use njuos.FileSystem.Directories.{string_at}
use njuos.Shell.{convert_to_full_path}
use njuos.Shell.Session.{Kernel, Shell, Text, puts, put_to_shell_tty, cat_loop, cat}

-- No character is a NUL.
abbrev pub Printable : List ℕ → Type 0
Printable [] = Unit
Printable (c ∷ cs) = (c ≢ 0) × Printable cs

string_at_same :
    (mem mem' : ℕ → ℕ) (fuel at : ℕ)
    → ((j : ℕ) → mem (at + j) ≡ mem' (at + j))
    → string_at mem fuel at ≡ string_at mem' fuel at
unfolding string_at
string_at_same mem mem' zero at h = refl
string_at_same mem mem' (suc fuel) at h =
    let here : at + 0 ≡ at = omega arith in
    let first : mem at ≡ mem' at = ap mem (sym here) ∙ h 0 ∙ ap mem' here in
    let rest = string_at_same mem mem' fuel (at + 1) (λ j.
      let on : at + suc j ≡ at + 1 + j = omega arith in ap mem (sym on) ∙ h (suc j) ∙ ap mem' on) in
    rw (first, rest) refl

string_at_bytes :
    (mem mem' : ℕ → ℕ) (bytes : List ℕ) (fuel at : ℕ)
    → Printable bytes
    → ((j : ℕ) → mem' (at + j) ≡ get_or bytes j (mem (at + j)))
    → string_at mem' (length bytes + fuel) at ≡ bytes ++ string_at mem fuel (at + length bytes)
unfolding string_at
string_at_bytes mem mem' [] fuel at p h =
    let here : at + 0 ≡ at = omega arith in
    let none_read : length {A = ℕ} [] + fuel ≡ fuel = omega arith in
    rw (none_read, here) (string_at_same mem' mem fuel at h)
string_at_bytes mem mem' (c ∷ cs) fuel at p h =
    let here : at + 0 ≡ at = omega arith in
    let first : mem' at ≡ c = ap mem' (sym here) ∙ h 0 in
    let count : length (c ∷ cs) + fuel ≡ suc (length cs + fuel) = omega arith in
    let goal : at + length (c ∷ cs) ≡ at + 1 + length cs = omega arith in
    let test : (c == 0) ≡ false = ground (arith, p.0) in
    let rest = string_at_bytes mem mem' cs fuel (at + 1) p.1 (λ j.
      let on : at + suc j ≡ at + 1 + j = omega arith in
      ap mem' (sym on) ∙ h (suc j) ∙ ap (λ a. get_or cs j (mem a)) on) in
    rw (count, goal, string_at, first, test, rest) refl

-- Of a file without NULs that one read gives whole, of at most 256 bytes, `cat` shows its bytes and behind
-- them what its buffer, and the stack behind it, held before, up to the first NUL; then a new line and
-- the prompt.
pub cat_shown :
    {S : Type 0} (k : Kernel S) (letters : Text → List ℕ) (fuel : ℕ) (mem : ℕ → ℕ)
    (name : Option (List ℕ)) (s : Shell S) (fd : ℤ) (bytes : List ℕ) (k1 k2 k3 : S)
    → k.open_file (convert_to_full_path s.current_dir name) s.kernel ≡ (fd, k1)
    → k.read fd k1 ≡ ((pos (length bytes), bytes), k2)
    → k.read fd k2 ≡ ((pos 0, []), k3)
    → 0 < length bytes
    → length bytes ≤ 256
    → Printable bytes
    → cat k letters (suc (suc fuel)) mem name s
      ≡ some (
          put_to_shell_tty k letters none (record s {
            terminal =
                (s.terminal ++ (bytes ++ string_at mem (4096 - length bytes) (length bytes)) ∷ [])
                ++ (10 ∷ []) ∷ [];
            kernel = k3;
          }))
unfolding cat cat_loop puts
cat_shown k letters fuel mem name s fd bytes k1 k2 k3 o r1 r2 p l q =
    let count : length bytes + (4096 - length bytes) ≡ 4096 = omega arith in
    let some_read : (length bytes == 0) ≡ false = ground arith in
    let same : (j : ℕ) → get_or bytes (0 + j) (mem (0 + j)) ≡ get_or bytes j (mem (0 + j)) =
      λ j. ap (λ i. get_or bytes i (mem (0 + j))) (omega arith) in
    let text : string_at (λ i. get_or bytes i (mem i)) 4096 0
        ≡ bytes ++ string_at mem (4096 - length bytes) (length bytes) =
      ap (λ n. string_at (λ i. get_or bytes i (mem i)) n 0) (sym count)
      ∙ string_at_bytes mem (λ i. get_or bytes i (mem i)) bytes (4096 - length bytes) 0 q same
      ∙ ap (λ a. bytes ++ string_at mem (4096 - length bytes) a) (omega arith) in
    rw (cat, o, cat_loop, r1, some_read, cat_loop, r2, text) refl
