-- ===== src/Base/Bits.antt =====
-- `&` and `|` on numbers, digit by digit: the bit at place `n` is `a / 2 ^ n % 2`.
use Prim.Native.Nat.{ℕ, zero, suc, ◌+◌, ◌-◌, ◌*◌, ◌/◌, ◌%◌, ◌^◌, ◌≤◌, ◌<◌, min, max}
use Prim.Native.Nat.{bit_and, bit_or, digits, bitwise, bit_and-bitwise, bit_or-bitwise}
use mathlib.Core.Path.{◌≡◌, refl, ap, ◌∙◌}
use native.Mathlib.Omega.{arith}
use native.Mathlib.Decide.{ℕ_discrete}
use litepcie_ptm_test.Base.Tests.{◌==◌, if◌then◌else◌, ==_refl, ne→==}
use native.Mathlib.Nat.{
  pow-suc, le_refl, one-le-pow, div-div-eq-div-mul, mod-eq-sub-div-mul, div-mul-le_self,
  pow-le-pow_right,
}

-- `digits` with more fuel than the number has digits is `digits`.
digits_fuel :
    (z : ℕ → ℕ) (f : ℕ → ℕ → ℕ) (n m a b : ℕ) → a ≤ n → a ≤ m → digits z f n a b ≡ digits z f m a b
digits_fuel z f n m zero b p q = elim n as (λ n. digits z f n 0 b ≡ digits z f m 0 b) [
  | zero ↦ elim m as (λ m. digits z f 0 0 b ≡ digits z f m 0 b) [ zero ↦ refl | suc m ↦ refl ]
  | suc n ↦ elim m as (λ m. digits z f (suc n) 0 b ≡ digits z f m 0 b) [
    | zero ↦ refl
    | suc m ↦ refl
  ]
]
digits_fuel z f zero m (suc a) b p q = absurd (omega arith)
digits_fuel z f (suc n) zero (suc a) b p q = absurd (omega arith)
digits_fuel z f (suc n) (suc m) (suc a) b p q =
    rw (digits_fuel z f n m (suc a / 2) (b / 2) (omega arith) (omega arith))

lowest_digit :
    (z : ℕ → ℕ) (f : ℕ → ℕ → ℕ) (a b : ℕ)
    → bitwise z f (suc a) b ≡ bitwise z f (suc a / 2) (b / 2) * 2 + f (suc a % 2) (b % 2)
lowest_digit z f a b =
    omega (arith, digits_fuel z f a (suc a / 2) (suc a / 2) (b / 2) (omega arith) (le_refl _))

pub bit_and-digit : (a b : ℕ) → bit_and a b ≡ bit_and (a / 2) (b / 2) * 2 + min (a % 2) (b % 2)
bit_and-digit zero b = simp bit_and-bitwise (omega arith)
bit_and-digit (suc a) b = simp bit_and-bitwise (lowest_digit (λ _. 0) min a b)

pub bit_or-digit : (a b : ℕ) → bit_or a b ≡ bit_or (a / 2) (b / 2) * 2 + max (a % 2) (b % 2)
bit_or-digit zero b = simp bit_or-bitwise (omega arith)
bit_or-digit (suc a) b = simp bit_or-bitwise (lowest_digit (λ y. y) max a b)

-- The bit of `a` at place `n`.
abbrev pub bit : ℕ → ℕ → ℕ
bit zero a = a % 2
bit (suc n) a = bit n (a / 2)

pub bit-lt : (n a : ℕ) → bit n a < 2
bit-lt zero a = omega arith
bit-lt (suc n) a = bit-lt n (a / 2)

pub bit-bit_and : (n a b : ℕ) → bit n (bit_and a b) ≡ min (bit n a) (bit n b)
bit-bit_and zero a b = omega (arith, bit_and-digit a b)
bit-bit_and (suc n) a b =
    let e : bit_and a b / 2 ≡ bit_and (a / 2) (b / 2) = omega (arith, bit_and-digit a b) in
    rw e (bit-bit_and n (a / 2) (b / 2))

pub bit-bit_or : (n a b : ℕ) → bit n (bit_or a b) ≡ max (bit n a) (bit n b)
bit-bit_or zero a b = omega (arith, bit_or-digit a b)
bit-bit_or (suc n) a b =
    let e : bit_or a b / 2 ≡ bit_or (a / 2) (b / 2) = omega (arith, bit_or-digit a b) in
    rw e (bit-bit_or n (a / 2) (b / 2))

pub bit-zero : (n : ℕ) → bit n 0 ≡ 0
bit-zero zero = refl
bit-zero (suc n) = bit-zero n

two_pow_half : (k : ℕ) → 2 ^ suc k / 2 ≡ 2 ^ k
two_pow_half k = omega (arith, pow-suc 2 k)

pub bit-pow_self : (n : ℕ) → bit n (2 ^ n) ≡ 1
bit-pow_self zero = refl
bit-pow_self (suc n) = rw (two_pow_half n) (bit-pow_self n)

pub bit-pow_ne : (n k : ℕ) → ¬ (n ≡ k) → bit n (2 ^ k) ≡ 0
bit-pow_ne zero zero h = absurd (h refl)
bit-pow_ne zero (suc k) h = omega (arith, pow-suc 2 k)
bit-pow_ne (suc n) zero h = bit-zero n
bit-pow_ne (suc n) (suc k) h = rw (two_pow_half k) (bit-pow_ne n k (λ e. h (ap suc e)))

-- The complement on `w` bits.
pub bit-complement : (n w a : ℕ) → n < w → a < 2 ^ w → bit n (2 ^ w - 1 - a) ≡ 1 - bit n a
bit-complement n zero a h p = absurd (omega arith)
bit-complement zero (suc w) a h p = omega (arith, pow-suc 2 w)
bit-complement (suc n) (suc w) a h p =
    let e : (2 ^ suc w - 1 - a) / 2 ≡ 2 ^ w - 1 - a / 2 = omega (arith, pow-suc 2 w) in
    rw e (bit-complement n w (a / 2) (omega arith) (omega (arith, pow-suc 2 w)))

-- `&` and `|` of words of `w` bits are words of `w` bits.
pub bit_or-lt : (w a b : ℕ) → a < 2 ^ w → b < 2 ^ w → bit_or a b < 2 ^ w
bit_or-lt zero a b p q =
    let e : a ≡ 0 = omega arith in let f : b ≡ 0 = omega arith in rw (e, f) (omega arith)
bit_or-lt (suc w) a b p q = omega (
  arith,
  pow-suc 2 w,
  bit_or-digit a b,
  bit_or-lt w (a / 2) (b / 2) (omega (arith, pow-suc 2 w)) (omega (arith, pow-suc 2 w)),
)

pub bit_and-le : (w a b : ℕ) → a < 2 ^ w → bit_and a b ≤ a
bit_and-le zero a b p =
    let e : a ≡ 0 = omega arith in rw e (omega (arith, bit_and-digit 0 b, bit_and-bitwise 0 b))
bit_and-le (suc w) a b p =
    omega (arith, bit_and-digit a b, bit_and-le w (a / 2) (b / 2) (omega (arith, pow-suc 2 w)))

pub bit_or-zero : (w a : ℕ) → a < 2 ^ w → bit_or a 0 ≡ a
bit_or-zero zero a p = let e : a ≡ 0 = omega arith in rw e
bit_or-zero (suc w) a p =
    omega (arith, bit_or-digit a 0, bit_or-zero w (a / 2) (omega (arith, pow-suc 2 w)))

double : (q k : ℕ) → q * 2 ^ suc k ≡ 2 * (q * 2 ^ k)
double q k = omega (arith, ap (λ (t : ℕ). q * t) (pow-suc 2 k))

-- `(q << k) | r` is a sum when `r` has `k` bits.
pub bit_or_sum : (w k q r : ℕ) → q < 2 ^ w → r < 2 ^ k → bit_or (q * 2 ^ k) r ≡ q * 2 ^ k + r
bit_or_sum w zero q r p h =
    let e : r ≡ 0 = omega arith in
    let f : q * 2 ^ 0 ≡ q = omega arith in rw (e, f, bit_or-zero w q p) (omega arith)
bit_or_sum w (suc k) q r p h =
    let half : q * 2 ^ suc k / 2 ≡ q * 2 ^ k = omega (arith, double q k) in
    let shifted : bit_or (q * 2 ^ suc k / 2) (r / 2) ≡ q * 2 ^ k + r / 2 =
      rw half (bit_or_sum w k q (r / 2) p (omega (arith, pow-suc 2 k))) in
    omega (arith, bit_or-digit (q * 2 ^ suc k) r, double q k, shifted)

-- A mask whose `k` low bits are clear.
pub bit_and_high : (k a m : ℕ) → bit_and a (m * 2 ^ k) ≡ bit_and (a / 2 ^ k) m * 2 ^ k
bit_and_high zero a m =
    let e : m * 2 ^ 0 ≡ m = omega arith in
    let f : a / 2 ^ 0 ≡ a = omega arith in rw (e, f) (omega arith)
bit_and_high (suc k) a m =
    let half : m * 2 ^ suc k / 2 ≡ m * 2 ^ k = omega (arith, double m k) in
    let deep : a / 2 / 2 ^ k ≡ a / 2 ^ suc k =
      div-div-eq-div-mul a 2 (2 ^ k) ∙ ap (λ t. a / t) (omega (arith, pow-suc 2 k)) in
    let shifted : bit_and (a / 2) (m * 2 ^ suc k / 2) ≡ bit_and (a / 2 ^ suc k) m * 2 ^ k =
      rw half (bit_and_high k (a / 2) m ∙ ap (λ t. bit_and t m * 2 ^ k) deep) in
    omega (
      arith,
      bit_and-digit a (m * 2 ^ suc k),
      double m k,
      double (bit_and (a / 2 ^ suc k) m) k,
      shifted,
    )

pub bit_and-zero : (w a : ℕ) → a < 2 ^ w → bit_and a 0 ≡ 0
bit_and-zero zero a p = let e : a ≡ 0 = omega arith in rw e (bit_and-bitwise 0 0)
bit_and-zero (suc w) a p =
    omega (arith, bit_and-digit a 0, bit_and-zero w (a / 2) (omega (arith, pow-suc 2 w)))

pub mod_two_pow : (k a : ℕ) → a % 2 ^ suc k ≡ a / 2 % 2 ^ k * 2 + a % 2
mod_two_pow k a =
    let deep : a / 2 / 2 ^ k ≡ a / 2 ^ suc k =
      div-div-eq-div-mul a 2 (2 ^ k) ∙ ap (λ t. a / t) (omega (arith, pow-suc 2 k)) in
    omega (
      arith,
      mod-eq-sub-div-mul a (2 ^ suc k),
      mod-eq-sub-div-mul (a / 2) (2 ^ k),
      ap (λ (t : ℕ). t * 2 ^ k) deep,
      double (a / 2 ^ suc k) k,
      div-mul-le_self a (2 ^ suc k),
      div-mul-le_self (a / 2) (2 ^ k),
    )

-- A mask of `k` ones is the remainder by `2 ^ k`.
pub bit_and_low : (w k a : ℕ) → a < 2 ^ w → bit_and a (2 ^ k - 1) ≡ a % 2 ^ k
bit_and_low w zero a p = rw (bit_and-zero w a p) (omega arith)
bit_and_low w (suc k) a p =
    let half : (2 ^ suc k - 1) / 2 ≡ 2 ^ k - 1 = omega (arith, pow-suc 2 k, one-le-pow k 2) in
    let rest : bit_and (a / 2) ((2 ^ suc k - 1) / 2) ≡ a / 2 % 2 ^ k =
      rw half (bit_and_low w k (a / 2) (omega arith)) in
    let split : a % 2 ^ suc k ≡ a / 2 % 2 ^ k * 2 + a % 2 = mod_two_pow k a in
    omega (arith, bit_and-digit a (2 ^ suc k - 1), rest, split, pow-suc 2 k, one-le-pow k 2)

-- The test of one bit.
pub bit_and_pow : (w n a : ℕ) → a < 2 ^ w → bit_and a (2 ^ n) ≡ bit n a * 2 ^ n
bit_and_pow w zero a p = omega (arith, bit_and-digit a 1, bit_and-zero w (a / 2) (omega arith))
bit_and_pow w (suc n) a p =
    let rest : bit_and (a / 2) (2 ^ suc n / 2) ≡ bit n (a / 2) * 2 ^ n =
      rw (two_pow_half n) (bit_and_pow w n (a / 2) (omega arith)) in
    omega (arith, bit_and-digit a (2 ^ suc n), rest, double (bit n (a / 2)) n, pow-suc 2 n)

pub two_pow-lt : (n w : ℕ) → n < w → 2 ^ n < 2 ^ w
two_pow-lt n w h =
    omega (arith, pow-suc 2 n, one-le-pow n 2, pow-le-pow_right {n = 2} (omega arith) {i = suc n} h)

-- Setting bit `i` sets that bit alone.
pub bit-set : (i k v : ℕ) → bit k (bit_or v (2 ^ i)) ≡ (if k == i then 1 else bit k v)
bit-set i k v = elim (ℕ_discrete k i) [
  | yes e ↦ rw (e, ==_refl, bit-bit_or, bit-pow_self) (omega (arith, bit-lt i v))
  | no ne ↦ rw (ne→== k i ne, bit-bit_or, bit-pow_ne k i ne) (omega arith)
]

-- Clearing bit `i` of a word of `w` bits clears that bit alone.
pub bit-clear :
    (w i k v : ℕ)
    → i < w
    → k < w
    → bit k (bit_and v (2 ^ w - 1 - 2 ^ i)) ≡ (if k == i then 0 else bit k v)
bit-clear w i k v hi hk = elim (ℕ_discrete k i) [
  | yes e ↦
      rw (e, ==_refl, bit-bit_and, bit-complement i w (2 ^ i) hi (two_pow-lt i w hi), bit-pow_self)
        (omega arith)
  | no ne ↦
      rw
        (
          ne→== k i ne,
          bit-bit_and,
          bit-complement k w (2 ^ i) hk (two_pow-lt i w hi),
          bit-pow_ne k i ne,
        )
        (omega (arith, bit-lt k v))
]

-- Cutting a number to `w` bits sets no bit.
pub bit-mod-le : (n w a : ℕ) → bit n (a % 2 ^ w) ≤ bit n a
bit-mod-le n zero a = let e : a % 2 ^ 0 ≡ 0 = omega arith in rw (e, bit-zero n) (omega arith)
bit-mod-le zero (suc w) a = omega (arith, mod_two_pow w a)
bit-mod-le (suc n) (suc w) a =
    let e : a % 2 ^ suc w / 2 ≡ a / 2 % 2 ^ w = omega (arith, mod_two_pow w a) in
    rw e (bit-mod-le n w (a / 2))

-- `(x << k) | ((y << k) + r)` when `r` has `k` bits.
pub bit_or_high :
    (k x y r : ℕ) → r < 2 ^ k → bit_or (x * 2 ^ k) (y * 2 ^ k + r) ≡ bit_or x y * 2 ^ k + r
bit_or_high zero x y r h =
    let e : x * 2 ^ 0 ≡ x = omega arith in
    let f : y * 2 ^ 0 + r ≡ y = omega arith in rw (e, f) (omega arith)
bit_or_high (suc k) x y r h =
    let left : x * 2 ^ suc k / 2 ≡ x * 2 ^ k = omega (arith, double x k) in
    let right : (y * 2 ^ suc k + r) / 2 ≡ y * 2 ^ k + r / 2 = omega (arith, double y k) in
    let shifted : bit_or (x * 2 ^ suc k / 2) ((y * 2 ^ suc k + r) / 2)
        ≡ bit_or x y * 2 ^ k + r / 2 =
      rw (left, right) (bit_or_high k x y (r / 2) (omega (arith, pow-suc 2 k))) in
    omega (
      arith,
      bit_or-digit (x * 2 ^ suc k) (y * 2 ^ suc k + r),
      double x k,
      double y k,
      double (bit_or x y) k,
      shifted,
    )
