-- ===== src/Strings/Compare.antt =====
-- What `strcmp` and `strcpy` promise.
use njuos.Prelude.{
  ℕ, true, false, Bool-cases, inl, inr, zero, suc, ◌+◌, ◌<◌, ◌≤◌, ◌≡◌, ◌≢◌, ◌↔◌, refl, sym, ◌∙◌, ap,
  ap₂, List, [], ◌∷◌, arith, length,
}
use njuos.Prelude.Int.{pos, ◌-ℤ◌}
use njuos.Strings.{strcmp, equal_strings, strlen, strcpy}

strcmp_refl : (s : List ℕ) → strcmp s s ≡ pos 0
unfolding strcmp
strcmp_refl [] = refl
strcmp_refl (a ∷ s) = ground (arith, strcmp_refl s)

strcmp_zero : (s t : List ℕ) → strcmp s t ≡ pos 0 → s ≡ t
unfolding strcmp
strcmp_zero [] [] e = refl
strcmp_zero [] (b ∷ t) e = ground arith
strcmp_zero (a ∷ s) [] e = ground arith
strcmp_zero (a ∷ s) (b ∷ t) e =
    let same : a ≡ b = ground arith in
    let rest : strcmp s t ≡ pos 0 = ground arith in ap₂ ◌∷◌ same (strcmp_zero s t rest)

-- `strcmp` gives 0 exactly on equal strings.
pub strcmp_iff : (s t : List ℕ) → (strcmp s t ≡ pos 0) ↔ (s ≡ t)
strcmp_iff s t = (strcmp_zero s t, λ e. ap (strcmp s) (sym e) ∙ strcmp_refl s)

pub equal_strings_lem : (s t : List ℕ) → (equal_strings s t ≡ true) ↔ (s ≡ t)
unfolding equal_strings
equal_strings_lem s t = (λ e. strcmp_zero s t (ground arith), λ e. rw ((strcmp_iff s t).1 e) refl)

pub equal_strings_ne : (s t : List ℕ) → s ≢ t → equal_strings s t ≡ false
equal_strings_ne s t h = elim (Bool-cases (equal_strings s t)) [
  | inl e ↦ absurd (h ((equal_strings_lem s t).0 e))
  | inr e ↦ e
]

-- Exchanging its arguments changes the sign of `strcmp`.
pub strcmp_swap : (s t : List ℕ) → strcmp t s ≡ pos 0 -ℤ strcmp s t
unfolding strcmp ◌-ℤ◌
strcmp_swap [] [] = refl
strcmp_swap [] (b ∷ t) = refl
strcmp_swap (a ∷ s) [] = refl
strcmp_swap (a ∷ s) (b ∷ t) = ground (arith, strcmp_swap s t)

-- All characters are there, none is the NUL.
abbrev pub NoNul : List ℕ → Type 0
NoNul [] = Unit {0}
NoNul (c ∷ s) = (c ≢ 0) × NoNul s

-- The string with its NUL stands in memory at an address.
unfoldable pub Holds : (ℕ → ℕ) → ℕ → List ℕ → Type 0
Holds mem at [] = mem at ≡ 0
Holds mem at (c ∷ s) = (mem at ≡ c) × Holds mem (at + 1) s

Holds-agree :
    (mem mem' : ℕ → ℕ) (at : ℕ) (s : List ℕ)
    → ((a : ℕ) → at ≤ a → mem' a ≡ mem a)
    → Holds mem at s
    → Holds mem' at s
unfolding Holds
Holds-agree mem mem' at [] h v = h at (omega arith) ∙ v
Holds-agree mem mem' at (c ∷ s) h v =
    (h at (omega arith) ∙ v.0, Holds-agree mem mem' (at + 1) s (λ a le. h a (omega arith)) v.1)

-- `strcpy` puts the string with its NUL to the address.
pub strcpy-Holds : (dest : ℕ) (s : List ℕ) (mem : ℕ → ℕ) → Holds (strcpy dest s mem) dest s
unfolding Holds strcpy
strcpy-Holds dest [] mem = ground arith
strcpy-Holds dest (c ∷ s) mem = (
  ground arith,
  Holds-agree (strcpy (dest + 1) s mem) (strcpy dest (c ∷ s) mem) (dest + 1) s
      (λ a le. ground arith) (strcpy-Holds (dest + 1) s mem),
)

-- `strcpy` writes nothing behind the NUL.
pub strcpy_beyond :
    (name : List ℕ) (dest : ℕ) (mem : ℕ → ℕ) (a : ℕ)
    → dest + length name < a
    → strcpy dest name mem a ≡ mem a
unfolding strcpy
strcpy_beyond [] dest mem a h = ground arith
strcpy_beyond (c ∷ name) dest mem a h = ground (arith, strcpy_beyond name (dest + 1) mem a)

pub Holds-end :
    (name : List ℕ) (mem : ℕ → ℕ) (at : ℕ) → Holds mem at name → mem (at + length name) ≡ 0
unfolding Holds
Holds-end [] mem at v = ap mem (omega arith) ∙ v
Holds-end (c ∷ name) mem at v = ap mem (omega arith) ∙ Holds-end name mem (at + 1) v.1

strlen-Holds :
    (s : List ℕ) (at len fuel : ℕ) (mem : ℕ → ℕ)
    → NoNul s
    → length s < fuel
    → Holds mem at s
    → strlen mem fuel at len ≡ len + length s
unfolding strlen Holds
strlen-Holds s at len zero mem n h v = absurd (omega arith)
strlen-Holds [] at len (suc fuel) mem n h v = ground arith
strlen-Holds (c ∷ s) at len (suc fuel) mem n h v =
    let rest = strlen-Holds s (at + 1) (len + 1) fuel mem n.1 (omega arith) v.1 in
    ground (arith, n.0, v.0, rest)

-- `strlen` of what `strcpy` has copied is the length of the string, with fuel for its NUL.
pub strlen-strcpy :
    (s : List ℕ) (dest fuel : ℕ) (mem : ℕ → ℕ)
    → NoNul s
    → length s < fuel
    → strlen (strcpy dest s mem) fuel dest 0 ≡ length s
strlen-strcpy s dest fuel mem n h =
    strlen-Holds s dest 0 fuel (strcpy dest s mem) n h (strcpy-Holds dest s mem) ∙ omega arith
