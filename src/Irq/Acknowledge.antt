-- ===== src/Irq/Acknowledge.antt =====
-- Which bits the interrupt handler may acknowledge, and which it has to.
use litepcie_ptm_test.Base.{
  ℕ, ◌/◌, ltb, ltb→lt, true, zero, suc, ◌^◌, ◌≤◌, ◌<◌, ◌≡◌, refl, List, [], ◌∷◌, arith, bit_or,
  if◌then◌else◌, Bool-cases, inl, inr, ℕ_discrete,
}
use litepcie_ptm_test.Base.Bits.{
  bit, bit-lt, bit-zero, bit-bit_or, bit-pow_ne, bit_and_pow, two_pow-lt, bit-pow_self,
}
use native.Mathlib.Nat.{pow-suc}
use litepcie_ptm_test.Base.Word.{◌<<<◌}
use litepcie_ptm_test.Dma.{DmaChan}
use litepcie_ptm_test.Irq.{pending}

-- No bit is acknowledged that is not pending.
abbrev pub IsWithin : ℕ → ℕ → Type 0
IsWithin mask v = (n : ℕ) → bit n mask ≤ bit n v

pending-bit : (v k : ℕ) → v < 2 ^ 32 → pending v k ≡ true → bit k v ≡ 1
unfolding pending
pending-bit v k h p = ground (arith, bit_and_pow 32 k v h, bit-lt k v)

pub IsWithin-fired : (v k : ℕ) → v < 2 ^ 32 → IsWithin (if pending v k then 1 <<< k else 0) v
IsWithin-fired v k h n = elim (Bool-cases (pending v k)) [
  | inl p ↦ elim (ℕ_discrete n k) [
    | yes e ↦ rw (p, e, pending-bit v k h p) (omega (arith, bit-lt k (1 <<< k)))
    | no ne ↦
        let one : 1 <<< k ≡ 2 ^ k = omega arith in rw (p, one, bit-pow_ne n k ne) (omega arith)
  ]
  | inr p ↦ rw (p, bit-zero n) (omega arith)
]

pub IsWithin-bit_or : (a b v : ℕ) → IsWithin a v → IsWithin b v → IsWithin (bit_or a b) v
IsWithin-bit_or a b v p q n = rw (bit-bit_or n a b) (omega (arith, p n, q n))

-- Every interrupt that is served is acknowledged.
abbrev pub AllCleared : (mask v : ℕ) → List DmaChan → Type 0
AllCleared mask v [] = Unit
AllCleared mask v (d ∷ ds) =
    (pending v d.reader_interrupt ≡ true → bit d.reader_interrupt mask ≡ 1)
    × (pending v d.writer_interrupt ≡ true → bit d.writer_interrupt mask ≡ 1)
    × AllCleared mask v ds

bit-above : (k w v : ℕ) → v < 2 ^ w → w ≤ k → bit k v ≡ 0
bit-above k zero v small h = let e : v ≡ 0 = omega arith in rw (e, bit-zero k) refl
bit-above zero (suc w) v small h = absurd (omega arith)
bit-above (suc k) (suc w) v small h =
    bit-above k w (v / 2) (omega (arith, small, pow-suc 2 w)) (omega arith)

pub fired-lt : (v k : ℕ) → v < 2 ^ 32 → (if pending v k then 1 <<< k else 0) < 2 ^ 32
fired-lt v k h = elim (Bool-cases (pending v k)) [
  | inl p ↦ elim (Bool-cases (ltb k 32)) [
    | inl low ↦
        let one : 1 <<< k ≡ 2 ^ k = omega arith in rw (p, one) (two_pow-lt k 32 (ltb→lt k 32 low))
    | inr high ↦
        let none_there = bit-above k 32 v h (ground (arith, high)) in
        absurd (omega (arith, none_there, pending-bit v k h p))
  ]
  | inr p ↦ rw p (omega arith)
]

pub fired-set : (v k : ℕ) → pending v k ≡ true → bit k (if pending v k then 1 <<< k else 0) ≡ 1
fired-set v k p = let one : 1 <<< k ≡ 2 ^ k = omega arith in rw (p, one) (bit-pow_self k)

pub IsWithin-parts :
    (a b c m : ℕ) → IsWithin (bit_or (bit_or a b) c) m → IsWithin a m × IsWithin b m × IsWithin c m
IsWithin-parts a b c m h = (
  λ n. omega (arith, h n, bit-bit_or n (bit_or a b) c, bit-bit_or n a b),
  λ n. omega (arith, h n, bit-bit_or n (bit_or a b) c, bit-bit_or n a b),
  λ n. omega (arith, h n, bit-bit_or n (bit_or a b) c, bit-bit_or n a b),
)
