-- ===== src/Ptp/Dialog.antt =====
-- software/kernel/main.c: the wait for the PTM requester, and the reads of its 64-bit times.
use litepcie_ptm_test.Base.{
  ℕ, zero, suc, ◌≡◌, refl, ◌+◌, ◌*◌, ◌^◌, ◌<◌, ◌∷◌, arith, inl, inr, bit_and, ◌==◌, Bool-cases,
}
use litepcie_ptm_test.Base.Bits.{bit, bit_and_pow}
use litepcie_ptm_test.Base.Halves.{u32-bound, join, join_masked}
use litepcie_ptm_test.Base.Word.{u32}
use litepcie_ptm_test.Config.{csr_ptm_requester_status_addr, ptm_status_busy}
use litepcie_ptm_test.Bus.{Trace, Hw, rd}
use litepcie_ptm_test.Ptp.{ptm_wait, read64, read_low_high}

-- `n` reads of the status from one trace to another, all with the busy bit.
pub data Tries : ℕ → Trace → Trace → Type 0 where
  no_try : (t : Trace) → Tries 0 t t
  busy :
      (n v : ℕ) (t t' : Trace)
      → bit 1 v ≡ 1
      → Tries n (rd csr_ptm_requester_status_addr v ∷ t) t'
      → Tries (suc n) t t'

-- A wait of at most `count` reads, with what is left of `count` and the trace at its end: a read
-- without the busy bit after fewer busy ones, or `count` busy reads.
pub data Waited (count : ℕ) (t : Trace) : ℕ → Trace → Type 0 where
  answered :
      (n v left : ℕ) (u : Trace)
      → n + left ≡ count
      → 0 < left
      → Tries n t u
      → bit 1 v ≡ 0
      → Waited count t left (rd csr_ptm_requester_status_addr v ∷ u)
  exhausted : (u : Trace) → Tries count t u → Waited count t 0 u

is_busy : (v : ℕ) → v < 2 ^ 32 → (bit_and v ptm_status_busy ≡ bit 1 v * 2) × (bit 1 v < 2)
is_busy v h = (bit_and_pow 32 1 v h, omega arith)

-- One busy read before a wait.
later :
    (count v left : ℕ) (t t' : Trace)
    → bit 1 v ≡ 1
    → Waited count (rd csr_ptm_requester_status_addr v ∷ t) left t'
    → Waited (suc count) t left t'
later count v _ t _ b (answered n w left u p some_left tries e) =
    answered (suc n) w left u (omega (arith, p)) some_left (busy n v t u b tries) e
later count v _ t _ b (exhausted u tries) = exhausted u (busy count v t u b tries)

-- The two 32-bit words of a time and the value that they make.
pub record Words (high low time : ℕ) : Type 0 where
  pub high_bound : high < 2 ^ 32
  pub low_bound : low < 2 ^ 32
  pub value : time ≡ high * 2 ^ 32 + low

Words-lt : {high low time : ℕ} → Words high low time → time < 2 ^ 64
Words-lt w = omega (arith, w.high_bound, w.low_bound, w.value)

module _ (hw : Hw) where
  pub ptm_wait-Waited :
      (count : ℕ) (t : Trace) → let (left, t') = ptm_wait hw count t in Waited count t left t'
  unfolding ptm_wait
  ptm_wait-Waited zero t = exhausted t (no_try t)
  ptm_wait-Waited (suc count) t =
      let v = u32 (hw t csr_ptm_requester_status_addr) in
      let (b, two) = is_busy v (u32-bound _) in
      elim (Bool-cases (bit_and v ptm_status_busy == 0)) [
        | inl e ↦
            let idle : bit 1 v ≡ 0 = ground (arith, b) in
            rw e (answered 0 v (suc count) t (omega arith) (omega arith) (no_try t) idle)
        | inr e ↦
            let still : bit 1 v ≡ 1 = ground (arith, b, two) in
            rw e (later count v _ t _ still (ptm_wait-Waited count _))
      ]

  pub read64_lem :
      (addr : ℕ) (t : Trace)
      → let (time, t') = read64 hw addr t in
        (high low : ℕ) × Words high low time × (t' ≡ rd (addr + 4) low ∷ rd addr high ∷ t)
  unfolding read64
  read64_lem addr t = (
    _,
    _,
    record {
      high_bound = u32-bound _;
      low_bound = u32-bound _;
      value = join_masked _ _ (u32-bound _) (u32-bound _);
    },
    refl,
  )

  pub read_low_high_lem :
      (l h : ℕ) (t : Trace)
      → let (time, t') = read_low_high hw l h t in
        (high low : ℕ) × Words high low time × (t' ≡ rd h high ∷ rd l low ∷ t)
  unfolding read_low_high
  read_low_high_lem l h t = (
    _,
    _,
    record {
      high_bound = u32-bound _;
      low_bound = u32-bound _;
      value = join _ _ (u32-bound _) (u32-bound _);
    },
    refl,
  )
