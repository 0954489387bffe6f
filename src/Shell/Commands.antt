-- ===== src/Shell/Commands.antt =====
-- What `parse` promises.
use njuos.Prelude.{ℕ, suc, ◌+◌, ◌≡◌, ◌≢◌, refl, ap, ◌∙◌, List, [], ◌∷◌, ◌++◌, arith, length, drop}
use njuos.Prelude.Int.{pos, negsuc}
use njuos.Shell.{parse, parse_from}

-- The character is not in the list.
abbrev pub Lacks : ℕ → List ℕ → Type 0
Lacks c [] = Unit {0}
Lacks c (x ∷ xs) = (x ≢ c) × Lacks c xs

parse_from_word :
    (i : ℕ) (word rest : List ℕ)
    → Lacks 32 word
    → parse_from i (word ++ 32 ∷ rest) ≡ (word, pos (i + length word + 1))
unfolding parse_from
parse_from_word i [] rest h = ground arith
parse_from_word i (c ∷ word) rest h = ground (arith, parse_from_word (i + 1) word rest h.1, h.0)

parse_from_all : (i : ℕ) (cmd : List ℕ) → Lacks 32 cmd → parse_from i cmd ≡ (cmd, negsuc 0)
unfolding parse_from
parse_from_all i [] h = refl
parse_from_all i (c ∷ cmd) h = ground (arith, parse_from_all (i + 1) cmd h.1, h.0)

behind : (word rest : List ℕ) → drop (length word + 1) (word ++ 32 ∷ rest) ≡ rest
behind [] rest = refl
behind (c ∷ word) rest =
    let e : length (c ∷ word) + 1 ≡ suc (length word + 1) = omega arith in rw e (behind word rest)

-- `parse` takes a command apart at the first space: from a word without one, a space and a rest it
-- gets the word, and the index at which the rest begins; a command without a space is its own word,
-- with the index -1.
pub parse_lem :
    (word rest : List ℕ)
    → Lacks 32 word
    → (parse (word ++ 32 ∷ rest) ≡ (word, pos (length word + 1)))
      × (drop (length word + 1) (word ++ 32 ∷ rest) ≡ rest)
      × (parse word ≡ (word, negsuc 0))
unfolding parse
parse_lem word rest h = (
  parse_from_word 0 word rest h ∙ ap (λ k. (word, pos k)) (omega arith),
  behind word rest,
  parse_from_all 0 word h,
)
