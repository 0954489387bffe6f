-- ===== src/Strings/Printing.antt =====
-- src/lib/printk.c: `printk`, which takes its arguments from the stack, a word each. What it gives to
-- `serial_printc` is a list of characters; `none` is a format that ends with '%', behind whose NUL it reads on.
pub mod Pieces
use njuos.Prelude.{
  ℕ, ◌+◌, ◌-◌, ◌%◌, ◌^◌, ◌≡◌, subst, refl, sym, ap, ◌∙◌, List, [], ◌∷◌, ◌++◌, append_assoc, Option,
  none, some, ltb, ◌==◌, if◌then◌else◌, false, Bool-cases, inl, inr,
}
use njuos.Prelude.Int.{pos, negsuc}
use njuos.Strings.{printf_int, printf_int_x}

-- One conversion, by the letter behind '%': what is printed, and how many words it takes.
unfoldable pub conversion : (text_at : ℕ → List ℕ) → (letter word : ℕ) → List ℕ × ℕ
conversion text_at letter word =
    if letter == 100
    then (printf_int (if ltb word (2 ^ 31) then pos word else negsuc (2 ^ 32 - 1 - word)), 1)
    else (if letter == 120
        then (printf_int_x word, 1)
        else (if letter == 99
            then (word % 256 ∷ [], 1)
            else (if letter == 115
                then (text_at word, 1)
                else (if letter == 37 then (37 ∷ [], 0) else ([], 0)))))

-- What comes first, and the words that it has taken, before what is behind.
abbrev pub before : List ℕ → Option (List ℕ × ℕ) → Option (List ℕ × ℕ)
before out none = none
before out (some (out', n)) = some (out ++ out', n)

module _ (stack : ℕ → ℕ) (text_at : ℕ → List ℕ) where
  -- The loop of `printk` from the word `n` on, with the word behind the last that it takes.
  unfoldable pub printk_from : (n : ℕ) → List ℕ → Option (List ℕ × ℕ)
  unfolding conversion
  printk_from n [] = some ([], n)
  printk_from n (c ∷ []) = if c == 37 then none else some (c ∷ [], n)
  printk_from n (c ∷ d ∷ format) =
      let (out, words) = conversion text_at d (stack n) in
      let converted = before out (printk_from (n + words) format) in
      let plain = before (c ∷ []) (printk_from n (d ∷ format)) in
      if c == 37 then converted else plain

  -- `printk`
  pub printk : List ℕ → Option (List ℕ × ℕ)
  printk format = printk_from 0 format

  pub plain_first :
      (n c : ℕ) (more : List ℕ)
      → (c == 37) ≡ false
      → printk_from n (c ∷ more) ≡ before (c ∷ []) (printk_from n more)
  unfolding printk_from
  plain_first n c [] t = rw t refl
  plain_first n c (d ∷ more) t = rw t refl
