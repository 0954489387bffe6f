-- ===== src/Strings/Numbers.antt =====
-- The printed numbers read back.
use njuos.Prelude.{
  ℕ, zero, suc, ◌+◌, ◌-◌, ◌*◌, ◌/◌, ◌%◌, ◌^◌, ◌<◌, ◌≡◌, refl, ap, ◌∙◌, List, [], ◌∷◌, ◌++◌, arith,
  ltb, ◌==◌, if◌then◌else◌, Bool-cases, inl, inr,
}
use njuos.Prelude.Int.{pos, negsuc}
use njuos.Strings.{digit, digits, print_down, printf_int, printf_int_x}

-- What a digit says, and a number in some base, the first digit first.
abbrev pub digit_value : ℕ → ℕ
digit_value c = if ltb c 97 then c - 48 else c - 87

pub value : (base acc : ℕ) → List ℕ → ℕ
value base acc [] = acc
value base acc (c ∷ cs) = value base (acc * base + digit_value c) cs

value-snoc :
    (base acc : ℕ) (cs : List ℕ) (c : ℕ)
    → value base acc (cs ++ c ∷ []) ≡ value base acc cs * base + digit_value c
unfolding value
value-snoc base acc [] c = refl
value-snoc base acc (d ∷ cs) c = value-snoc base (acc * base + digit_value d) cs c

-- A digit printed with nothing added.
digit_back : (d : ℕ) → d < 16 → digit_value (digit d + 0) ≡ d
digit_back d h = ground arith

module _ (base : ℕ) (big : 1 < base) (small : base < 17) where
  -- One round of the loop, with the value of the digits before it.
  one_round : (n rest : ℕ) → rest ≡ n / base → rest * base + digit_value (digit (n % base) + 0) ≡ n
  one_round n rest e =
      ap (λ (k : ℕ). rest * base + k) (digit_back (n % base) (grind arith))
      ∙ ap (λ (k : ℕ). k * base + n % base) e
      ∙ grind arith

decimal : (fuel n : ℕ) → n < 10 ^ fuel → value 10 0 (print_down 0 (digits 10 fuel n)) ≡ n
unfolding print_down digits value
decimal zero n h = omega arith
decimal (suc fuel) n h = elim (Bool-cases (n == 0)) [
  | inl e ↦ rw e (ground arith)
  | inr e ↦
      let less : n / 10 < 10 ^ fuel = grind arith in
      rw e (
        value-snoc 10 0 (print_down 0 (digits 10 fuel (n / 10))) (digit (n % 10) + 0)
        ∙ one_round 10 (omega arith) (omega arith) n _ (decimal fuel (n / 10) less))
]

hexadecimal : (fuel n : ℕ) → n < 16 ^ fuel → value 16 0 (print_down 0 (digits 16 fuel n)) ≡ n
unfolding print_down digits value
hexadecimal zero n h = omega arith
hexadecimal (suc fuel) n h = elim (Bool-cases (n == 0)) [
  | inl e ↦ rw e (ground arith)
  | inr e ↦
      let less : n / 16 < 16 ^ fuel = grind arith in
      rw e (
        value-snoc 16 0 (print_down 0 (digits 16 fuel (n / 16))) (digit (n % 16) + 0)
        ∙ one_round 16 (omega arith) (omega arith) n _ (hexadecimal fuel (n / 16) less))
]

-- Every 32-bit unsigned number is printed by `printf_int_x` in digits that read back as it.
pub printf_int_x_lem : (n : ℕ) → n < 2 ^ 32 → value 16 0 (printf_int_x n) ≡ n
unfolding printf_int_x value
printf_int_x_lem n h = elim (Bool-cases (n == 0)) [
  | inl e ↦ rw e (ground arith)
  | inr e ↦ rw e (hexadecimal 15 n (omega arith))
]

least : value 10 0 (print_down 1 (digits 10 15 (2 ^ 31 - 1))) ≡ 2 ^ 31
unfolding print_down digits value
least = refl

-- For every `n` below 2^31, `printf_int` prints `n` in digits that read back as it, and -(n + 1) as a
-- minus with digits that read back as n + 1; this covers every `int`, the least one too.
pub printf_int_lem :
    (n : ℕ)
    → n < 2 ^ 31
    → (value 10 0 (printf_int (pos n)) ≡ n)
      × ((ds : List ℕ) × (printf_int (negsuc n) ≡ 45 ∷ ds) × (value 10 0 ds ≡ n + 1))
unfolding printf_int value
printf_int_lem n h = (
  elim (Bool-cases (n == 0)) [
    | inl e ↦ rw e (ground arith)
    | inr e ↦ rw e (decimal 15 n (omega arith))
  ],
  elim (Bool-cases (n == 2 ^ 31 - 1)) [
    | inl e ↦
        let max : n ≡ 2 ^ 31 - 1 = ground arith in
        (
          print_down 1 (digits 10 15 n),
          rw e refl,
          ap (λ k. value 10 0 (print_down 1 (digits 10 15 k))) max ∙ least ∙ omega arith,
        )
    | inr e ↦ (print_down 0 (digits 10 15 (n + 1)), rw e refl, decimal 15 (n + 1) (omega arith))
  ],
)
