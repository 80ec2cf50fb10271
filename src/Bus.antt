-- ===== src/Bus.antt =====
-- software/kernel/main.c: register accesses over BAR0 and the MSI enable mask.
-- A trace is the list of the accesses made so far, the newest first. What the FPGA answers to a
-- read is a function of the trace and the address, an argument of all code that reads.
pub mod Mask
use litepcie_ptm_test.Base.{ℕ, ◌-◌, List, ◌∷◌, bit_and, bit_or}
use litepcie_ptm_test.Base.Word.{u32, not32, ◌<<<◌}
use litepcie_ptm_test.Config.{csr_pcie_msi_enable_addr}

pub data Access : Type 0 where
  rd : (addr val : ℕ) → Access
  wr : (addr val : ℕ) → Access

abbrev pub Trace : Type 0
Trace = List Access

abbrev pub Hw : Type 0
Hw = Trace → ℕ → ℕ

-- `litepcie_writel`
abbrev pub writel : ℕ → ℕ → Trace → Trace
writel addr val t = wr addr (u32 val) ∷ t

module _ (hw : Hw) where
  -- `litepcie_readl`
  abbrev pub readl : ℕ → Trace → ℕ × Trace
  readl addr t = let val = u32 (hw t addr) in (val, rd addr val ∷ t)

  -- `litepcie_enable_interrupt`
  unfoldable pub enable_interrupt : ℕ → Trace → Trace
  enable_interrupt irq_num t =
      let (v, t') = readl csr_pcie_msi_enable_addr t in
      writel csr_pcie_msi_enable_addr (bit_or v (1 <<< irq_num)) t'

  -- `litepcie_disable_interrupt`
  unfoldable pub disable_interrupt : ℕ → Trace → Trace
  disable_interrupt irq_num t =
      let (v, t') = readl csr_pcie_msi_enable_addr t in
      writel csr_pcie_msi_enable_addr (bit_and v (not32 (1 <<< irq_num))) t'
