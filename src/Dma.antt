-- ===== src/Dma.antt =====
-- software/kernel/main.c: a DMA channel and the start and stop of its two engines. The writer
-- engine moves data from the FPGA into host memory, the reader engine out of it.
pub mod Engine
pub mod Program
use litepcie_ptm_test.Base.{
  ℕ, zero, suc, ◌+◌, ◌*◌, ◌%◌, bit_and, bit_or, ◌==◌, if◌then◌else◌, List, [], ◌∷◌,
}
use litepcie_ptm_test.Base.Word.{◌>>>◌}
use litepcie_ptm_test.Config.{
  Regs, writer_regs, reader_regs, dma_irq_disable, dma_last_disable, dma_buffer_per_irq,
  dma_buffer_count, dma_buffer_size,
}
use litepcie_ptm_test.Bus.{Trace, writel}

-- `struct litepcie_dma_chan`. The buffers themselves are named by their index; a count is the bit
-- pattern of an int64_t, a bus address that of a 64-bit dma_addr_t.
pub record DmaChan : Type 0 where
  pub base : ℕ
  pub writer_interrupt : ℕ
  pub reader_interrupt : ℕ
  pub reader_handle : ℕ → ℕ
  pub writer_handle : ℕ → ℕ
  pub reader_hw_count : ℕ
  pub reader_hw_count_last : ℕ
  pub reader_sw_count : ℕ
  pub writer_hw_count : ℕ
  pub writer_hw_count_last : ℕ
  pub writer_sw_count : ℕ
  pub writer_enable : ℕ
  pub reader_enable : ℕ
  pub writer_lock : ℕ
  pub reader_lock : ℕ

-- The size and parameters of descriptor `i`: an MSI every `dma_buffer_per_irq` buffers
-- (DMA_BUFFER_ALIGNED is not defined).
unfoldable pub descriptor_value : ℕ → ℕ
descriptor_value i =
    bit_or
      (bit_or dma_last_disable ((if i % dma_buffer_per_irq == 0 then 0 else 1) * dma_irq_disable))
      dma_buffer_size

-- The loop of both start functions, with `left` descriptors to fill from `i` on.
unfoldable pub fill_descriptors : Regs → ℕ → (ℕ → ℕ) → ℕ → ℕ → Trace → Trace
fill_descriptors r base handle zero i t = t
fill_descriptors r base handle (suc left) i t =
    let t = writel (base + r.table_value) (descriptor_value i) t in
    let t = writel (base + r.table_value + 4) (bit_and (handle i >>> 0) 0xffffffff) t in
    let t = writel (base + r.table_we) (bit_and (handle i >>> 32) 0xffffffff) t in
    fill_descriptors r base handle left (i + 1) t

abbrev pub clear_writer_counts : DmaChan → DmaChan
clear_writer_counts d = record d {
  writer_hw_count = 0;
  writer_hw_count_last = 0;
  writer_sw_count = 0;
}

abbrev pub clear_reader_counts : DmaChan → DmaChan
clear_reader_counts d = record d {
  reader_hw_count = 0;
  reader_hw_count_last = 0;
  reader_sw_count = 0;
}

-- `litepcie_dma_writer_start`
unfoldable pub dma_writer_start : DmaChan → Trace → DmaChan × Trace
dma_writer_start d t =
    let t = writel (d.base + writer_regs.enable) 0 t in
    let t = writel (d.base + writer_regs.table_flush) 1 t in
    let t = writel (d.base + writer_regs.table_loop_prog_n) 0 t in
    let t = fill_descriptors writer_regs d.base d.writer_handle dma_buffer_count 0 t in
    let t = writel (d.base + writer_regs.table_loop_prog_n) 1 t in
    let d' = clear_writer_counts d in (d', writel (d.base + writer_regs.enable) 1 t)

-- `litepcie_dma_writer_stop`
unfoldable pub dma_writer_stop : DmaChan → Trace → DmaChan × Trace
dma_writer_stop d t =
    let t = writel (d.base + writer_regs.table_loop_prog_n) 0 t in
    let t = writel (d.base + writer_regs.table_flush) 1 t in
    let t = writel (d.base + writer_regs.enable) 0 t in
    let t = writel (d.base + writer_regs.table_flush) 1 t in (clear_writer_counts d, t)

-- `litepcie_dma_reader_start`
unfoldable pub dma_reader_start : DmaChan → Trace → DmaChan × Trace
dma_reader_start d t =
    let t = writel (d.base + reader_regs.enable) 0 t in
    let t = writel (d.base + reader_regs.table_flush) 1 t in
    let t = writel (d.base + reader_regs.table_loop_prog_n) 0 t in
    let t = fill_descriptors reader_regs d.base d.reader_handle dma_buffer_count 0 t in
    let t = writel (d.base + reader_regs.table_loop_prog_n) 1 t in
    let d' = clear_reader_counts d in (d', writel (d.base + reader_regs.enable) 1 t)

-- `litepcie_dma_reader_stop`
unfoldable pub dma_reader_stop : DmaChan → Trace → DmaChan × Trace
dma_reader_stop d t =
    let t = writel (d.base + reader_regs.table_loop_prog_n) 0 t in
    let t = writel (d.base + reader_regs.table_flush) 1 t in
    let t = writel (d.base + reader_regs.enable) 0 t in
    let t = writel (d.base + reader_regs.table_flush) 1 t in (clear_reader_counts d, t)

-- `litepcie_stop_dma`, over the channels of the device
unfoldable pub stop_dma : List DmaChan → Trace → Trace
stop_dma [] t = t
stop_dma (d ∷ chans) t =
    stop_dma chans
      (writel (d.base + reader_regs.enable) 0 (writel (d.base + writer_regs.enable) 0 t))
