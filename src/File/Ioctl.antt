-- ===== src/File/Ioctl.antt =====
-- software/kernel/main.c: `litepcie_ioctl` and `litepcie_flash_spi`.
pub mod Masks
pub mod WriterEngine
pub mod ReaderEngine
pub mod Spi
use litepcie_ptm_test.Base.{
  ℕ, zero, suc, Bool, ◌+◌, ◌*◌, ◌||◌, Option, none, some, ◌==◌, if◌then◌else◌, bit_and, bit_or,
}
use litepcie_ptm_test.Base.Word.{u32, slt32, ◌<<<◌, ◌>>>◌}
use litepcie_ptm_test.Config.{
  spi_ctrl_start, spi_ctrl_length, spi_status_done, loopback_enable_offset, dma_buffer_size,
  dma_buffer_count, dma_buffer_total_size,
}
use litepcie_ptm_test.Bus.{Trace, Hw, readl, writel, enable_interrupt, disable_interrupt}
use litepcie_ptm_test.Dma.{
  DmaChan, dma_writer_start, dma_writer_stop, dma_reader_start, dma_reader_stop,
}
use litepcie_ptm_test.File.{Ret, done, fail, Errno}
use litepcie_ptm_test.File.Request.{
  RegArgs, FlashArgs, IcapArgs, IcapCsr, EngineArgs, Request, Reply, FlashCsr, Build, Session,
  Answer, answer, plain, give_back, with_args, nonzero,
}
use litepcie_ptm_test.File.Lock.{ioctl_lock}

abbrev pub spi_timeout : ℕ
spi_timeout = 100000

-- LITEPCIE_IOCTL_ICAP
abbrev pub ioctl_icap : IcapCsr → Option IcapArgs → Session → Answer
ioctl_icap csr m s = with_args m s λ m. plain (record s {
  trace =
      writel csr.icap_write_addr 1
        (writel csr.icap_data_addr m.data_word (writel csr.icap_addr_addr m.addr s.trace));
})

-- LITEPCIE_IOCTL_DMA
abbrev pub ioctl_dma : Option ℕ → Session → Answer
ioctl_dma m s = with_args m s λ loopback_enable.
    plain
      (record s { trace = writel (s.dma.base + loopback_enable_offset) loopback_enable s.trace })

-- LITEPCIE_IOCTL_MMAP_DMA_INFO
abbrev pub ioctl_mmap_dma_info : Bool → Session → Answer
ioctl_mmap_dma_info copy_ok s =
    give_back copy_ok
      (Reply.info (record {
        dma_tx_buf_offset = 0;
        dma_tx_buf_size = dma_buffer_size;
        dma_tx_buf_count = dma_buffer_count;
        dma_rx_buf_offset = dma_buffer_total_size;
        dma_rx_buf_size = dma_buffer_size;
        dma_rx_buf_count = dma_buffer_count;
      }))
      s

-- LITEPCIE_IOCTL_MMAP_DMA_WRITER_UPDATE
abbrev pub ioctl_writer_update : Option ℕ → Session → Answer
ioctl_writer_update m s =
    with_args m s
      λ sw_count. plain (record s { dma = record (s.dma) { writer_sw_count = sw_count } })

-- LITEPCIE_IOCTL_MMAP_DMA_READER_UPDATE
abbrev pub ioctl_reader_update : Option ℕ → Session → Answer
ioctl_reader_update m s =
    with_args m s
      λ sw_count. plain (record s { dma = record (s.dma) { reader_sw_count = sw_count } })

module _ (hw : Hw) where
  -- LITEPCIE_IOCTL_REG
  unfoldable pub ioctl_reg : Bool → RegArgs → Session → Answer
  ioctl_reg copy_ok m s =
      if nonzero m.is_write
      then give_back copy_ok (Reply.reg m) (record s { trace = writel m.addr m.val s.trace })
      else (let (val, t) = readl hw m.addr s.trace in
          give_back copy_ok (Reply.reg (record m { val = val })) (record s { trace = t }))

  -- The polling loop of `litepcie_flash_spi`, with `left` rounds to go.
  unfoldable pub spi_wait : ℕ → ℕ → Trace → Trace
  spi_wait status_addr zero t = t
  spi_wait status_addr (suc left) t =
      let (status, t') = readl hw status_addr t in
      let rest = spi_wait status_addr left t' in
      if nonzero (bit_and status spi_status_done) then t' else rest

  -- `litepcie_flash_spi`: the result, the struct with `rx_data` set, the accesses.
  unfoldable pub flash_spi : FlashCsr → FlashArgs → Trace → Ret × FlashArgs × Trace
  flash_spi csr m t =
      if slt32 m.tx_len 8 || slt32 40 m.tx_len
      then (Ret.fail Errno.einval, m, t)
      else (let t = writel csr.spi_mosi_addr (m.tx_data >>> 32) t in
          let t = writel (csr.spi_mosi_addr + 4) m.tx_data t in
          let t =
            writel csr.spi_control_addr (bit_or spi_ctrl_start (m.tx_len * spi_ctrl_length)) t in
          let t = spi_wait csr.spi_status_addr spi_timeout t in
          let (high, t) = readl hw csr.spi_miso_addr t in
          let (low, t) = readl hw (csr.spi_miso_addr + 4) t in
          (Ret.done 0, record m { rx_data = bit_or (high <<< 32) low }, t))

  -- LITEPCIE_IOCTL_FLASH
  unfoldable pub ioctl_flash : Bool → FlashCsr → FlashArgs → Session → Answer
  ioctl_flash copy_ok csr m s =
      let (ret, m', t) = flash_spi csr m s.trace in
      elim ret [
        | done n ↦ give_back copy_ok (Reply.flash m') (record s { trace = t })
        | fail e ↦ answer (Ret.fail e) (record s { trace = t })
      ]

  -- The switch in LITEPCIE_IOCTL_DMA_WRITER: start or stop the engine if `enable` is new.
  unfoldable pub switch_writer : ℕ → DmaChan → Trace → DmaChan × Trace
  switch_writer enable d t =
      if enable == d.writer_enable
      then (d, t)
      else if nonzero enable
      then (let (d', t') = dma_writer_start d t in (d', enable_interrupt hw d'.writer_interrupt t'))
      else dma_writer_stop d (disable_interrupt hw d.writer_interrupt t)

  -- LITEPCIE_IOCTL_DMA_WRITER
  unfoldable pub ioctl_dma_writer : Bool → EngineArgs → Session → Answer
  ioctl_dma_writer copy_ok m s =
      let (d, t) = switch_writer m.enable s.dma s.trace in
      let d' = record d { writer_enable = m.enable } in
      give_back copy_ok
        (Reply.engine (record m { hw_count = d.writer_hw_count; sw_count = d.writer_sw_count }))
        (record s { dma = d'; trace = t })

  -- The switch in LITEPCIE_IOCTL_DMA_READER: start or stop the engine if `enable` is new.
  unfoldable pub switch_reader : ℕ → DmaChan → Trace → DmaChan × Trace
  switch_reader enable d t =
      if enable == d.reader_enable
      then (d, t)
      else if nonzero enable
      then (let (d', t') = dma_reader_start d t in (d', enable_interrupt hw d'.reader_interrupt t'))
      else dma_reader_stop d (disable_interrupt hw d.reader_interrupt t)

  -- LITEPCIE_IOCTL_DMA_READER
  unfoldable pub ioctl_dma_reader : Bool → EngineArgs → Session → Answer
  ioctl_dma_reader copy_ok m s =
      let (d, t) = switch_reader m.enable s.dma s.trace in
      let d' = record d { reader_enable = m.enable } in
      give_back copy_ok
        (Reply.engine (record m { hw_count = d.reader_hw_count; sw_count = d.reader_sw_count }))
        (record s { dma = d'; trace = t })

  -- `litepcie_ioctl`
  unfoldable pub ioctl : Build → Bool → Request → Session → Answer
  ioctl b copy_ok (Request.reg m) s = with_args m s λ m. ioctl_reg copy_ok m s
  ioctl b copy_ok (Request.flash m) s = elim (b.flash_csr) [
    | none ↦ answer (Ret.fail Errno.enoioctlcmd) s
    | some csr ↦ with_args m s λ m. ioctl_flash copy_ok csr m s
  ]
  ioctl b copy_ok (Request.icap m) s = elim (b.icap_csr) [
    | none ↦ answer (Ret.fail Errno.enoioctlcmd) s
    | some csr ↦ ioctl_icap csr m s
  ]
  ioctl b copy_ok (Request.loopback m) s = ioctl_dma m s
  ioctl b copy_ok (Request.dma_writer m) s = with_args m s λ m. ioctl_dma_writer copy_ok m s
  ioctl b copy_ok (Request.dma_reader m) s = with_args m s λ m. ioctl_dma_reader copy_ok m s
  ioctl b copy_ok Request.mmap_dma_info s = ioctl_mmap_dma_info copy_ok s
  ioctl b copy_ok (Request.mmap_dma_writer_update m) s = ioctl_writer_update m s
  ioctl b copy_ok (Request.mmap_dma_reader_update m) s = ioctl_reader_update m s
  ioctl b copy_ok (Request.lock m) s = with_args m s λ m. ioctl_lock copy_ok m s
  ioctl b copy_ok Request.other s = answer (Ret.fail Errno.enoioctlcmd) s
