-- ===== src/Config.antt =====
-- The constants of software/kernel/config.h, flags.h and the generated csr.h that the driver uses.
use litepcie_ptm_test.Base.{ℕ, ◌*◌, ◌+◌}
use litepcie_ptm_test.Base.Word.{◌<<<◌}

abbrev pub dma_irq_disable : ℕ
dma_irq_disable = 1 <<< 24

abbrev pub dma_last_disable : ℕ
dma_last_disable = 1 <<< 25

abbrev pub dma_buffer_per_irq : ℕ
dma_buffer_per_irq = 32

abbrev pub dma_buffer_count : ℕ
dma_buffer_count = 256

abbrev pub dma_buffer_size : ℕ
dma_buffer_size = 8192

abbrev pub dma_buffer_total_size : ℕ
dma_buffer_total_size = dma_buffer_count * dma_buffer_size

-- The offsets of one direction of a DMA engine.
pub record Regs : Type 0 where
  pub enable : ℕ
  pub table_value : ℕ
  pub table_we : ℕ
  pub table_loop_prog_n : ℕ
  pub table_loop_status : ℕ
  pub table_flush : ℕ

abbrev pub writer_regs : Regs
writer_regs = record {
  enable = 0x0000;
  table_value = 0x0004;
  table_we = 0x000c;
  table_loop_prog_n = 0x0010;
  table_loop_status = 0x0014;
  table_flush = 0x001c;
}

abbrev pub reader_regs : Regs
reader_regs = record {
  enable = 0x0020;
  table_value = 0x0024;
  table_we = 0x002c;
  table_loop_prog_n = 0x0030;
  table_loop_status = 0x0034;
  table_flush = 0x003c;
}

abbrev pub loopback_enable_offset : ℕ
loopback_enable_offset = 0x0040

abbrev pub csr_pcie_msi_enable_addr : ℕ
csr_pcie_msi_enable_addr = 0x1800

-- Inclusive bounds and bits of the SPI master.
abbrev pub spi_ctrl_start : ℕ
spi_ctrl_start = 0x1

abbrev pub spi_ctrl_length : ℕ
spi_ctrl_length = 1 <<< 8

abbrev pub spi_status_done : ℕ
spi_status_done = 0x1

abbrev pub csr_time_generator_control_addr : ℕ
csr_time_generator_control_addr = 0x3800

abbrev pub time_control_write_time_l : ℕ
time_control_write_time_l = 0x380c + 4

abbrev pub time_control_write_time_h : ℕ
time_control_write_time_h = 0x380c + 0

abbrev pub time_control_read_time_l : ℕ
time_control_read_time_l = 0x3804 + 4

abbrev pub time_control_read_time_h : ℕ
time_control_read_time_h = 0x3804 + 0

abbrev pub time_control_enable : ℕ
time_control_enable = 1 <<< 0

abbrev pub time_control_read : ℕ
time_control_read = 1 <<< 1

abbrev pub time_control_write : ℕ
time_control_write = 1 <<< 2

abbrev pub csr_ptm_requester_control_addr : ℕ
csr_ptm_requester_control_addr = 0x3000

abbrev pub csr_ptm_requester_status_addr : ℕ
csr_ptm_requester_status_addr = 0x3004

abbrev pub csr_ptm_requester_link_delay_addr : ℕ
csr_ptm_requester_link_delay_addr = 0x3018

abbrev pub ptm_control_enable : ℕ
ptm_control_enable = 1 <<< 0

abbrev pub ptm_control_trigger : ℕ
ptm_control_trigger = 1 <<< 1

abbrev pub ptm_status_busy : ℕ
ptm_status_busy = 1 <<< 1

abbrev pub ptm_t1_time_l : ℕ
ptm_t1_time_l = 0x301c + 4

abbrev pub ptm_t1_time_h : ℕ
ptm_t1_time_h = 0x301c + 0

abbrev pub ptm_master_time_l : ℕ
ptm_master_time_l = 0x3010 + 4

abbrev pub ptm_master_time_h : ℕ
ptm_master_time_h = 0x3010 + 0

abbrev pub csr_ptm_requester_t4_time_addr : ℕ
csr_ptm_requester_t4_time_addr = 0x3024
