-- ===== src/Irq.antt =====
-- software/kernel/main.c: the interrupt handler, which reads the hardware's loop status and extends
-- it to the 64-bit counts of completed buffers.
pub mod Count
pub mod Acknowledge
pub mod Dispatch
pub mod Masked
use litepcie_ptm_test.Base.{
  ℕ, Bool, zero, suc, ◌+◌, ◌*◌, ◌-◌, ◌^◌, bit_and, bit_or, ◌==◌, if◌then◌else◌, List, [], ◌∷◌, ◌++◌,
  not,
}
use litepcie_ptm_test.Base.Word.{u32, add64, slt64, ◌<<<◌, ◌>>>◌}
use litepcie_ptm_test.Config.{reader_regs, writer_regs, dma_buffer_count, csr_pcie_msi_enable_addr}
use litepcie_ptm_test.Bus.{Trace, Hw, readl, writel}
use litepcie_ptm_test.Dma.{DmaChan}

-- `(~(DMA_BUFFER_COUNT - 1) << 16) & 0xffffffffffff0000`: the left side is the int -2^24, which is
-- sign-extended to 64 bits.
abbrev pub count_mask : ℕ
count_mask = bit_and (2 ^ 64 - 2 ^ 24) 0xffffffffffff0000

-- `1 << (ilog2(DMA_BUFFER_COUNT) + 16)`
abbrev pub count_wrap : ℕ
count_wrap = 1 <<< (8 + 16)

-- The update of `hw_count` from a loop status; `hw_count_last` is set to the result.
unfoldable pub extend_count : ℕ → ℕ → ℕ → ℕ
extend_count hw_count hw_count_last loop_status =
    let c = bit_and hw_count count_mask in
    let low = u32 ((loop_status >>> 16) * dma_buffer_count + bit_and loop_status 0xffff) in
    let c = bit_or c low in if slt64 c hw_count_last then add64 c count_wrap else c

-- What a wait queue is woken for: room to write, or data to read, on channel `i`.
pub data Wake : Type 0 where
  wake_wr wake_rd : ℕ → Wake

-- `irq_vector & (1 << n)`
unfoldable pub pending : ℕ → ℕ → Bool
pending irq_vector n = not (bit_and irq_vector (1 <<< n) == 0)

-- How the device signals: one MSI with a vector and a clear register (CSR_PCIE_MSI_CLEAR_ADDR), or
-- one vector for each interrupt (MSI multi-vector and MSI-X, as in the csr.h of the repository).
pub data Msi : Type 0 where
  single : (vector_addr clear_addr : ℕ) → Msi
  vectors : Msi

-- The search for the interrupt number that `irq` is the vector of, with `left` numbers from `i` on.
unfoldable pub find_vector : (ℕ → ℕ) → ℕ → ℕ → ℕ → ℕ
find_vector pci_irq_vector irq zero i = 0
find_vector pci_irq_vector irq (suc left) i =
    if irq == pci_irq_vector i then 1 <<< i else find_vector pci_irq_vector irq left (i + 1)

module _ (hw : Hw) where
  -- The reader's half of the loop body.
  unfoldable pub service_reader : ℕ → ℕ → DmaChan → Trace → DmaChan × Trace × List Wake × ℕ
  service_reader irq_vector i d t =
      if pending irq_vector d.reader_interrupt
      then (let (loop_status, t') = readl hw (d.base + reader_regs.table_loop_status) t in
          let c = extend_count d.reader_hw_count d.reader_hw_count_last loop_status in
          (
            record d { reader_hw_count = c; reader_hw_count_last = c },
            t',
            Wake.wake_wr i ∷ [],
            1 <<< d.reader_interrupt,
          ))
      else (d, t, [], 0)

  -- The writer's half.
  unfoldable pub service_writer : ℕ → ℕ → DmaChan → Trace → DmaChan × Trace × List Wake × ℕ
  service_writer irq_vector i d t =
      if pending irq_vector d.writer_interrupt
      then (let (loop_status, t') = readl hw (d.base + writer_regs.table_loop_status) t in
          let c = extend_count d.writer_hw_count d.writer_hw_count_last loop_status in
          (
            record d { writer_hw_count = c; writer_hw_count_last = c },
            t',
            Wake.wake_rd i ∷ [],
            1 <<< d.writer_interrupt,
          ))
      else (d, t, [], 0)

  -- The loop over the channels from `i` on, with the clear mask so far.
  unfoldable pub service : ℕ → ℕ → List DmaChan → Trace → ℕ → List DmaChan × Trace × List Wake × ℕ
  service irq_vector i [] t clear_mask = ([], t, [], clear_mask)
  service irq_vector i (d ∷ chans) t clear_mask =
      let (d1, t1, wakes1, bit1) = service_reader irq_vector i d t in
      let (d2, t2, wakes2, bit2) = service_writer irq_vector i d1 t1 in
      let (rest, t3, wakes3, mask) =
        service irq_vector (i + 1) chans t2 (bit_or (bit_or clear_mask bit1) bit2) in
      (d2 ∷ rest, t3, wakes1 ++ (wakes2 ++ wakes3), mask)

  -- The interrupts that fire, before and after the enable mask.
  unfoldable pub irq_status : Msi → (ℕ → ℕ) → ℕ → ℕ → Trace → ℕ × Trace
  irq_status (Msi.single vector_addr clear_addr) pci_irq_vector irqs irq t =
      let (irq_vector, t1) = readl hw vector_addr t in
      let (irq_enable, t2) = readl hw csr_pcie_msi_enable_addr t1 in
      (bit_and irq_vector irq_enable, t2)
  irq_status Msi.vectors pci_irq_vector irqs irq t =
      let irq_vector = find_vector pci_irq_vector irq irqs 0 in
      let (irq_enable, t1) = readl hw csr_pcie_msi_enable_addr t in
      (bit_and irq_vector irq_enable, t1)

  abbrev acknowledge : Msi → ℕ → Trace → Trace
  acknowledge (Msi.single vector_addr clear_addr) clear_mask t = writel clear_addr clear_mask t
  acknowledge Msi.vectors clear_mask t = t

  -- `litepcie_interrupt`
  unfoldable pub interrupt :
      Msi → (ℕ → ℕ) → ℕ → ℕ → List DmaChan → Trace → List DmaChan × Trace × List Wake
  interrupt msi pci_irq_vector irqs irq chans t =
      let (irq_vector, t1) = irq_status msi pci_irq_vector irqs irq t in
      let (chans', t2, wakes, clear_mask) = service irq_vector 0 chans t1 0 in
      (chans', acknowledge msi clear_mask t2, wakes)
