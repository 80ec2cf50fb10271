-- ===== src/Bus/Mask.antt =====
-- What `litepcie_enable_interrupt` and `litepcie_disable_interrupt` do to the enable mask.
use native.Mathlib.Nat.{mod-eq_of_lt}
use litepcie_ptm_test.Base.{
  ℕ, ◌^◌, ◌<◌, ◌≡◌, refl, ◌∷◌, bit_and, bit_or, arith, ◌==◌, if◌then◌else◌,
}
use litepcie_ptm_test.Base.Bits.{bit, bit-set, bit-clear, bit_or-lt, bit_and-le, two_pow-lt}
use litepcie_ptm_test.Base.Word.{u32, not32, ◌<<<◌}
use litepcie_ptm_test.Config.{csr_pcie_msi_enable_addr}
use litepcie_ptm_test.Bus.{Trace, Hw, rd, wr, enable_interrupt, disable_interrupt}

-- `litepcie_enable_interrupt` reads the enable mask and writes it back with bit `irq`, below 32,
-- set; every other bit `k` keeps the value read.
pub bit-enable_interrupt :
    (hw : Hw) (t : Trace) (irq k : ℕ)
    → irq < 32
    → (w : ℕ) × (enable_interrupt hw irq t
        ≡ wr csr_pcie_msi_enable_addr w
          ∷ rd csr_pcie_msi_enable_addr (u32 (hw t csr_pcie_msi_enable_addr))
          ∷ t)
      × (bit k w ≡ (if k == irq then 1 else bit k (u32 (hw t csr_pcie_msi_enable_addr))))
unfolding enable_interrupt
bit-enable_interrupt hw t irq k h =
    let v = u32 (hw t csr_pcie_msi_enable_addr) in
    let fits : bit_or v (1 <<< irq) < 2 ^ 32 =
      bit_or-lt 32 v (1 <<< irq) (omega arith) (omega (arith, two_pow-lt irq 32 h)) in
    let one : 1 <<< irq ≡ 2 ^ irq = omega arith in
    (u32 (bit_or v (1 <<< irq)), refl, rw (mod-eq_of_lt fits, one) (bit-set irq k v))

-- `litepcie_disable_interrupt` writes the mask back with bit `irq` clear and, on the 32 bits, every
-- other bit `k` as it was read.
pub bit-disable_interrupt :
    (hw : Hw) (t : Trace) (irq k : ℕ)
    → irq < 32
    → k < 32
    → (w : ℕ) × (disable_interrupt hw irq t
        ≡ wr csr_pcie_msi_enable_addr w
          ∷ rd csr_pcie_msi_enable_addr (u32 (hw t csr_pcie_msi_enable_addr))
          ∷ t)
      × (bit k w ≡ (if k == irq then 0 else bit k (u32 (hw t csr_pcie_msi_enable_addr))))
unfolding disable_interrupt
bit-disable_interrupt hw t irq k h hk =
    let v = u32 (hw t csr_pcie_msi_enable_addr) in
    let m = not32 (1 <<< irq) in
    let fits : bit_and v m < 2 ^ 32 = omega (arith, bit_and-le 32 v m (omega arith)) in
    let one : 1 <<< irq ≡ 2 ^ irq = omega arith in
    (u32 (bit_and v m), refl, rw (mod-eq_of_lt fits, one) (bit-clear 32 irq k v h hk))
