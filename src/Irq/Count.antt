-- ===== src/Irq/Count.antt =====
-- The extension of the hardware's 24-bit buffer count to 64 bits.
use native.Mathlib.Nat.{mod-eq_of_lt}
use litepcie_ptm_test.Base.{
  ℕ, ◌+◌, ◌-◌, ◌*◌, ◌/◌, ◌%◌, ◌^◌, ◌≤◌, ◌<◌, ◌≡◌, refl, List, [], ◌∷◌, arith, bit_and,
}
use litepcie_ptm_test.Base.Bits.{bit_and_low, bit_and_high, bit_or_sum}
use litepcie_ptm_test.Base.Word.{u32, ◌>>>◌}
use litepcie_ptm_test.Config.{dma_buffer_count}
use litepcie_ptm_test.Irq.{count_mask, extend_count}

-- The loop status register after `n` buffers: the number of whole loops, 16 bits, above the index
-- in the table.
abbrev pub loop_status_of : ℕ → ℕ
loop_status_of n = n / dma_buffer_count % 2 ^ 16 * 2 ^ 16 + n % dma_buffer_count

mask_count : (m : ℕ) → m < 2 ^ 64 → bit_and m count_mask ≡ m / 2 ^ 24 * 2 ^ 24
mask_count m h = omega (
  arith,
  bit_and_high 24 m (2 ^ 40 - 1),
  bit_and_low 64 40 (m / 2 ^ 24) (omega arith),
  mod-eq_of_lt {n = m / 2 ^ 24} {m = 2 ^ 40} (omega arith),
)

low_count :
    (n : ℕ)
    → u32 ((loop_status_of n >>> 16) * dma_buffer_count + bit_and (loop_status_of n) 0xffff)
      ≡ n % 2 ^ 24
low_count n = omega (arith, bit_and_low 64 16 (loop_status_of n) (omega arith))

-- If the count was right at `m` buffers, and the true number of completed buffers is now `n`, not
-- below `m`, fewer than 2 ^ 24 above it and below 2 ^ 63, then the loop status gives back `n`.
pub extend_count_lem :
    (m n : ℕ) → m ≤ n → n < m + 2 ^ 24 → n < 2 ^ 63 → extend_count m m (loop_status_of n) ≡ n
unfolding extend_count
extend_count_lem m n h k small =
    rw
      (
        mask_count m (omega arith),
        low_count n,
        bit_or_sum 40 24 (m / 2 ^ 24) (n % 2 ^ 24) (omega arith) (omega arith),
      )
      (ground arith)

-- If a whole number `k` of 2 ^ 24 buffers was completed since the count was right at `m`, and the
-- true number is below 2 ^ 63, the loop status leaves the count at `m`.
pub extend_count_misses :
    (m k : ℕ) → m + k * 2 ^ 24 < 2 ^ 63 → extend_count m m (loop_status_of (m + k * 2 ^ 24)) ≡ m
unfolding extend_count
extend_count_misses m k small =
    let same : (m + k * 2 ^ 24) % 2 ^ 24 ≡ m % 2 ^ 24 = omega arith in
    rw
      (
        mask_count m (omega arith),
        low_count (m + k * 2 ^ 24),
        same,
        bit_or_sum 40 24 (m / 2 ^ 24) (m % 2 ^ 24) (omega arith) (omega arith),
      )
      (ground arith)

-- The count after a run of interrupts, each of which reads the status at a true count of `ns`.
pub run_counts : ℕ → List ℕ → ℕ
run_counts c [] = c
run_counts c (n ∷ ns) = run_counts (extend_count c c (loop_status_of n)) ns

-- True counts that start at `m`, never fall, grow by fewer than 2 ^ 24 between two interrupts, and
-- stay below 2 ^ 63.
abbrev pub IsPaced : ℕ → List ℕ → Type 0
IsPaced m [] = Unit
IsPaced m (n ∷ ns) = (m ≤ n) × (n < m + 2 ^ 24) × (n < 2 ^ 63) × IsPaced n ns

abbrev pub last_count : ℕ → List ℕ → ℕ
last_count m [] = m
last_count m (n ∷ ns) = last_count n ns

-- The driver never loses track: if its count is right at first, and the true number of completed
-- buffers never falls, grows by fewer than 2 ^ 24 from one interrupt to the next and stays below
-- 2 ^ 63, then after any run of interrupts the 64-bit count is the true number at the last one.
pub run_counts-eq-last : (m : ℕ) (ns : List ℕ) → IsPaced m ns → run_counts m ns ≡ last_count m ns
unfolding run_counts
run_counts-eq-last m [] p = refl
run_counts-eq-last m (n ∷ ns) p =
    rw (extend_count_lem m n p.0 p.1 p.2) (run_counts-eq-last n ns p.3)
