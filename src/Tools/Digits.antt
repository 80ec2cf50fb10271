-- ===== src/Tools/Digits.antt =====
-- software/user/litepcie_util.c and software/user/litepcie_test.c, the numbers of the command line.
use litepcie_ptm_test.Base.{
  ℕ, zero, suc, false, ◌+◌, ◌-◌, ◌*◌, ◌/◌, ◌%◌, ◌^◌, ◌<◌, ◌≤◌, ◌≡◌, refl, sym, ◌∙◌, [], ◌∷◌, ltb,
  ap, subst, arith, Bool-cases, ◌==◌, ℕ_discrete, inl, inr, ltb→lt, lt→ltb, le→ltb,
}
use native.Mathlib.Nat.{
  div-add-mod', mod-lt, div-lt_iff_lt-mul, le-div_iff_mul-le, pow-suc, pow-zero,
}
use litepcie_ptm_test.Tools.{
  Word, digit_of, digit_byte, sign, skip_space, magnitude, digits, print_digits, atoi, strtoul,
  decimal,
}

digit_of-digit_byte : (d : ℕ) → d < 16 → digit_of (digit_byte d) ≡ d
digit_of-digit_byte d h = ground arith

module _ (radix : ℕ) (two : 2 ≤ radix) (sixteen : radix ≤ 16) where
  digits-next :
      (acc d : ℕ) (after : Word)
      → d < radix
      → digits radix acc (digit_byte d ∷ after) ≡ digits radix (acc * radix + d) after
  digits-next acc d after low =
      let value : digit_of (digit_byte d) ≡ d = digit_of-digit_byte d (omega arith) in
      rw (value, lt→ltb d radix low) refl

  -- A number of one digit.
  digits-one :
      (n : ℕ) (after : Word)
      → n < radix
      → digits radix 0 (digit_byte n ∷ after) ≡ digits radix n after
  digits-one n after low = digits-next 0 n after low ∙ ap (λ m. digits radix m after) (omega arith)

  one_power : radix ^ 1 ≡ radix
  one_power = rw (pow-suc radix 0, pow-zero radix) (omega arith)

  -- The digits of a number, read after nothing, make the number.
  pub digits-print_digits :
      (fuel n : ℕ) (after : Word)
      → n < radix ^ suc fuel
      → digits radix 0 (print_digits radix (suc fuel) n after) ≡ digits radix n after
  unfolding print_digits
  digits-print_digits zero n after bound =
      let low : n < radix = subst (λ b. n < b) one_power bound in
      rw (lt→ltb n radix low) (digits-one n after low)
  digits-print_digits (suc fuel) n after bound = elim (Bool-cases (ltb n radix)) [
    | inl one_digit ↦ rw one_digit (digits-one n after (ltb→lt n radix one_digit))
    | inr more ↦
        let some_radix : 0 < radix = omega arith in
        let rest : n / radix < radix ^ suc fuel =
          (div-lt_iff_lt-mul some_radix).1 (subst (λ b. n < b) (pow-suc radix (suc fuel)) bound) in
        rw more (
          digits-print_digits fuel (n / radix) (digit_byte (n % radix) ∷ after) rest
          ∙ digits-next (n / radix) (n % radix) after (mod-lt n some_radix)
          ∙ ap (λ m. digits radix m after) (div-add-mod' n radix))
  ]

  -- The first digit of a number that is not 0 is not 0.
  pub print_digits-first :
      (fuel n : ℕ) (after : Word)
      → 0 < n
      → n < radix ^ suc fuel
      → (d : ℕ) × (rest : Word) × (print_digits radix (suc fuel) n after ≡ digit_byte d ∷ rest)
        × (0 < d)
        × (d < radix)
  unfolding print_digits
  print_digits-first zero n after positive bound =
      let low : n < radix = subst (λ b. n < b) one_power bound in
      (n, after, rw (lt→ltb n radix low) refl, positive, low)
  print_digits-first (suc fuel) n after positive bound = elim (Bool-cases (ltb n radix)) [
    | inl one_digit ↦ (n, after, rw one_digit refl, positive, ltb→lt n radix one_digit)
    | inr more ↦
        let some_radix : 0 < radix = omega arith in
        let rest : n / radix < radix ^ suc fuel =
          (div-lt_iff_lt-mul some_radix).1 (subst (λ b. n < b) (pow-suc radix (suc fuel)) bound) in
        let more_than : radix ≤ n = ground arith in
        let some_left : 0 < n / radix =
          (le-div_iff_mul-le some_radix).1 (omega (arith, more_than)) in
        let (d, cs, e, p, low) =
          print_digits-first fuel (n / radix) (digit_byte (n % radix) ∷ after) some_left rest in
        (d, cs, rw more e, p, low)
  ]

-- A digit in front is neither space nor sign.
sign-skip_space-digit :
    (d : ℕ) (rest : Word)
    → d < 16
    → sign (skip_space (digit_byte d ∷ rest)) ≡ (false, digit_byte d ∷ rest)
sign-skip_space-digit d rest low = ground arith

-- A number with a digit other than 0 in front is decimal.
magnitude-digit :
    (d : ℕ) (rest : Word)
    → 0 < d
    → d < 10
    → magnitude (digit_byte d ∷ rest) ≡ digits 10 0 (digit_byte d ∷ rest)
magnitude-digit d [] positive low = refl
magnitude-digit d (x ∷ cs) positive low =
    let other : (digit_byte d == b'0') ≡ false = ground arith in rw other refl

-- The readers of the C library, on a word with a digit in front that makes the number `n`.
atoi-digit :
    (n d : ℕ) (rest : Word)
    → d < 10
    → digits 10 0 (digit_byte d ∷ rest) ≡ n
    → n < 2 ^ 31
    → atoi (digit_byte d ∷ rest) ≡ n
unfolding atoi
atoi-digit n d rest ten e low =
    rw (sign-skip_space-digit d rest (omega arith), e, lt→ltb n (2 ^ 63) (omega arith))
      (omega arith)

strtoul-digit :
    (n d : ℕ) (rest : Word)
    → 0 < d
    → d < 10
    → digits 10 0 (digit_byte d ∷ rest) ≡ n
    → n < 2 ^ 32
    → strtoul (digit_byte d ∷ rest) ≡ n
unfolding strtoul
strtoul-digit n d rest positive ten e low =
    rw
      (
        sign-skip_space-digit d rest (omega arith),
        magnitude-digit d rest positive ten,
        e,
        lt→ltb n (2 ^ 64) (omega arith),
      )
      (omega arith)

-- `atoi` on a minus and the digits of a number.
atoi-minus :
    (m : ℕ) (w : Word) → digits 10 0 w ≡ m → 0 < m → m < 2 ^ 32 → atoi (b'-' ∷ w) ≡ 2 ^ 32 - m
unfolding atoi
atoi-minus m w e positive low = rw (e, le→ltb (2 ^ 63) m (omega arith)) (omega arith)

-- A positive number of 32 bits in decimal: the readers give it back.
module _ (n : ℕ) (positive : 0 < n) (low : n < 2 ^ 32) where
  shown :
      (d : ℕ) × (rest : Word) × (print_digits 10 10 n [] ≡ digit_byte d ∷ rest)
      × (0 < d)
      × (d < 10)
      × (digits 10 0 (digit_byte d ∷ rest) ≡ n)
  shown =
      let (d, rest, e, some_digit, ten) =
        print_digits-first 10 (omega arith) (omega arith) 9 n [] positive (omega arith) in
      let value = digits-print_digits 10 (omega arith) (omega arith) 9 n [] (omega arith) in
      (d, rest, e, some_digit, ten, subst (λ w. digits 10 0 w ≡ n) e value)

  atoi-positive : n < 2 ^ 31 → atoi (print_digits 10 10 n []) ≡ n
  atoi-positive small =
      let (d, rest, e, some_digit, ten, value) = shown in rw e (atoi-digit n d rest ten value small)

  atoi-negative : atoi (b'-' ∷ print_digits 10 10 n []) ≡ 2 ^ 32 - n
  atoi-negative =
      let (d, rest, e, some_digit, ten, value) = shown in
      rw e (atoi-minus n (digit_byte d ∷ rest) value positive low)

  strtoul-positive : strtoul (print_digits 10 10 n []) ≡ n
  strtoul-positive =
      let (d, rest, e, some_digit, ten, value) = shown in
      rw e (strtoul-digit n d rest some_digit ten value low)

atoi-zero : atoi (decimal 0) ≡ 0
unfolding atoi decimal print_digits
atoi-zero = refl

strtoul-zero : strtoul (print_digits 10 10 0 []) ≡ 0
unfolding strtoul print_digits
strtoul-zero = refl

-- What `%d` prints of an int is read back by `atoi`.
pub atoi-decimal : (n : ℕ) → n < 2 ^ 32 → atoi (decimal n) ≡ n
unfolding decimal
atoi-decimal n low = elim (ℕ_discrete n 0) [
  | yes none ↦ subst (λ n. atoi (decimal n) ≡ n) (sym none) atoi-zero
  | no some ↦ elim (Bool-cases (ltb n (2 ^ 31))) [
    | inl positive ↦ rw positive (atoi-positive n (omega arith) low (ground arith))
    | inr negative ↦
        let large : 2 ^ 31 ≤ n = ground arith in
        rw negative (atoi-negative (2 ^ 32 - n) (omega arith) (omega arith) ∙ omega arith)
  ]
]

-- What `%u` prints of 32 bits is read back by `strtoul` of base 0.
pub strtoul-decimal : (n : ℕ) → n < 2 ^ 32 → strtoul (print_digits 10 10 n []) ≡ n
strtoul-decimal n low = elim (ℕ_discrete n 0) [
  | yes none ↦ subst (λ n. strtoul (print_digits 10 10 n []) ≡ n) (sym none) strtoul-zero
  | no some ↦ strtoul-positive n (omega arith) low
]

-- So is what `0x%x` prints of 32 bits.
pub strtoul-hexadecimal : (n : ℕ) → n < 2 ^ 32 → strtoul (b'0' ∷ b'x' ∷ print_digits 16 8 n []) ≡ n
unfolding strtoul
strtoul-hexadecimal n low =
    let value = digits-print_digits 16 (omega arith) (omega arith) 7 n [] (omega arith) in
    rw (value, lt→ltb n (2 ^ 64) (omega arith)) (omega arith)
