-- ===== src/Util/Delay.antt =====
-- software/user/litepcie_util.c, `dma_test`: the search for the delay of the loopback.
use litepcie_ptm_test.Base.{
  ℕ, zero, suc, ◌+◌, ◌-◌, ◌*◌, ◌/◌, ◌%◌, ◌^◌, ◌<◌, ◌≡◌, ◌≢◌, refl, ap, arith, ne→==, bit_and,
}
use litepcie_ptm_test.Base.Bits.{bit_and-digit, mod_two_pow}
use native.Mathlib.Nat.{pow-suc, one-le-pow}
use litepcie_ptm_test.Util.Pattern.{buffer_words, seed_to_data, pn_word}
use litepcie_ptm_test.Util.Check.{pattern_words, mismatches}

-- Words that agree in the bits of a mask whose 11 lowest bits are set agree in these bits.
bit_and-low : (k a m : ℕ) → m % 2 ^ k ≡ 2 ^ k - 1 → bit_and a m % 2 ^ k ≡ a % 2 ^ k
bit_and-low zero a m e = omega arith
bit_and-low (suc k) a m e =
    let top : m / 2 % 2 ^ k ≡ 2 ^ k - 1 = omega (arith, mod_two_pow k m, pow-suc 2 k) in
    let low : m % 2 ≡ 1 = omega (arith, mod_two_pow k m, pow-suc 2 k, one-le-pow k 2) in
    let half : bit_and a m / 2 ≡ bit_and (a / 2) (m / 2) = omega (arith, bit_and-digit a m) in
    let rest : bit_and a m / 2 % 2 ^ k ≡ a / 2 % 2 ^ k =
      rw half (bit_and-low k (a / 2) (m / 2) top) in
    omega (arith, mod_two_pow k (bit_and a m), mod_two_pow k a, bit_and-digit a m, rest, low)

-- Two seeds below 2048 with the same word are the same.
pn_word-injective :
    (mask a b : ℕ)
    → mask % 2048 ≡ 2047
    → a < buffer_words
    → b < buffer_words
    → pn_word mask a ≡ pn_word mask b
    → a ≡ b
unfolding seed_to_data
pn_word-injective mask a b full la lb same =
    let p = bit_and-low 11 (seed_to_data a) mask full in
    let q = bit_and-low 11 (seed_to_data b) mask full in
    let alike : (a * 69069 + 1) % 2048 ≡ (b * 69069 + 1) % 2048 =
      omega (arith, ap (λ (v : ℕ). v % 2048) same) in
    omega (arith, alike)

pub mismatches-shifted :
    (mask a b count : ℕ)
    → mask % 2048 ≡ 2047
    → a % buffer_words ≢ b % buffer_words
    → mismatches mask (pattern_words mask a count) b ≡ count
unfolding mismatches pattern_words
mismatches-shifted mask a b zero full other = refl
mismatches-shifted mask a b (suc count) full other =
    let apart : pn_word mask (a % buffer_words) ≢ pn_word mask (b % buffer_words) =
      λ e. other (pn_word-injective mask _ _ full (omega arith) (omega arith) e) in
    let next : (a + 1) % buffer_words ≢ (b + 1) % buffer_words = λ e. other (omega arith) in
    rw (ne→== _ _ apart, mismatches-shifted mask (a + 1) (b + 1) count full next) (omega arith)
