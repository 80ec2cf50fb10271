-- ===== src/Util/Mask.antt =====
-- software/user/litepcie_util.c: `get_next_pow2` and `get_data_mask`.
use litepcie_ptm_test.Base.{
  ℕ, zero, suc, Bool, true, false, ◌+◌, ◌-◌, ◌*◌, ◌%◌, ◌^◌, ◌≤◌, ◌<◌, ◌≡◌, refl, ◌&&◌, arith, ◌==◌,
  ltb, if◌then◌else◌, Bool-cases, inl, inr, subst, ℕ_discrete,
}
use native.Mathlib.Nat.{pow-suc}
use litepcie_ptm_test.Base.Bits.{bit}
use litepcie_ptm_test.Util.Pattern.{double_up, get_next_pow2, mask_rounds, get_data_mask}

-- Fuel `fuel` is enough from `2 ^ i` on, below `2 * data_width`, where `2 ^ top` is not.
double_up-enough :
    (fuel i top data_width : ℕ)
    → i + fuel ≡ top
    → data_width ≤ 2 ^ top
    → 2 ^ i < 2 * data_width
    → (k : ℕ) × (double_up fuel (2 ^ i) data_width ≡ 2 ^ k)
      × (data_width ≤ 2 ^ k)
      × (2 ^ k < 2 * data_width)
unfolding double_up
double_up-enough zero i top w e a b =
    let same : top ≡ i = omega arith in (i, refl, subst (λ n. w ≤ 2 ^ n) same a, b)
double_up-enough (suc fuel) i top w e a b = elim (Bool-cases (ltb (2 ^ i) w)) [
  | inl small ↦
      let twice : 2 ^ i * 2 ^ 1 ≡ 2 ^ suc i = omega (arith, pow-suc 2 i) in
      let (k, found, up, low) =
        double_up-enough fuel (suc i) top w (omega arith) a (ground (arith, pow-suc 2 i)) in
      (k, rw (small, twice) found, up, low)
  | inr large ↦ (i, rw large, ground arith, b)
]

-- For a positive width up to 2 ^ 30, where the int does not overflow, `get_next_pow2` ends by its
-- test, with the least power of two that is not below the width.
pub get_next_pow2-least :
    (data_width : ℕ)
    → 1 ≤ data_width
    → data_width ≤ 2 ^ 30
    → (k : ℕ) × (get_next_pow2 data_width ≡ 2 ^ k) × (data_width ≤ 2 ^ k) × (2 ^ k < 2 * data_width)
unfolding get_next_pow2
get_next_pow2-least w a b = double_up-enough 31 0 31 w refl (omega arith) (omega arith)

&&-left : (a b : Bool) → a && b ≡ true → a ≡ true
&&-left true b h = refl
&&-left false b h = h

&&-right : (a b : Bool) → a && b ≡ true → b ≡ true
&&-right true b h = h
&&-right false b h = absurd (cc h)

pub ==→eq : (a b : ℕ) → (a == b) ≡ true → a ≡ b
==→eq a b h = ground arith

-- A test that holds for every number below `n`.
holds_below : (ℕ → Bool) → ℕ → Bool
holds_below test zero = true
holds_below test (suc n) = test n && holds_below test n

holds_below-at : (test : ℕ → Bool) (n k : ℕ) → holds_below test n ≡ true → k < n → test k ≡ true
unfolding holds_below
holds_below-at test zero k h p = absurd (omega arith)
holds_below-at test (suc n) k h p = elim (ℕ_discrete k n) [
  | yes e ↦ rw e (&&-left (test n) (holds_below test n) h)
  | no ne ↦ holds_below-at test n k (&&-right (test n) (holds_below test n) h) (omega (arith, ne))
]

-- Whether the bits of the mask are right for a width, the lowest `width` bits of every field.
mask_is_right : ℕ → ℕ → Bool
mask_is_right undef w =
    holds_below
      (λ n. bit n (get_data_mask undef w) == (if ltb (n % get_next_pow2 w) w then 1 else 0)) 32

widths_are_right : (undef : ℕ) → holds_below (λ w. mask_is_right undef (suc w)) 30 ≡ true
unfolding holds_below mask_is_right get_data_mask mask_rounds get_next_pow2 double_up
widths_are_right undef = refl

-- `get_data_mask` for a width from 1 to 30 bits: the 32-bit word is cut into fields of
-- `get_next_pow2` bits, and the mask has the lowest `data_width` bits of each field.
pub get_data_mask-bits :
    (undef data_width n : ℕ)
    → 1 ≤ data_width
    → data_width ≤ 30
    → n < 32
    → bit n (get_data_mask undef data_width)
      ≡ (if ltb (n % get_next_pow2 data_width) data_width then 1 else 0)
unfolding mask_is_right
get_data_mask-bits undef zero n a b h = absurd (omega arith)
get_data_mask-bits undef (suc w) n a b h =
    let right : mask_is_right undef (suc w) ≡ true =
      holds_below-at (λ w. mask_is_right undef (suc w)) 30 w (widths_are_right undef)
        (omega arith) in
    ==→eq _ _ (holds_below-at _ 32 n right h)

wide_masks_are_full :
    (undef : ℕ) → holds_below (λ k. get_data_mask undef (k + 11) % 2048 == 2047) 20 ≡ true
unfolding holds_below get_data_mask mask_rounds get_next_pow2 double_up
wide_masks_are_full undef = refl

-- A width from 11 to 30 bits keeps the 11 lowest bits of a word.
pub get_data_mask-full :
    (undef data_width : ℕ)
    → 11 ≤ data_width
    → data_width ≤ 30
    → get_data_mask undef data_width % 2048 ≡ 2047
get_data_mask-full undef w a b =
    let at : w - 11 + 11 ≡ w = omega arith in
    subst (λ w. get_data_mask undef w % 2048 ≡ 2047) at
      (==→eq _ _ (
        holds_below-at (λ k. get_data_mask undef (k + 11) % 2048 == 2047) 20 (w - 11)
          (wide_masks_are_full undef) (omega arith)))
