-- ===== src/Tests/Engines.antt =====
-- Starting and stopping the engines at concrete inputs.
use litepcie_ptm_test.Base.{true, ◌≡◌, arith, []}
use litepcie_ptm_test.Config.{writer_regs, reader_regs}
use litepcie_ptm_test.Dma.{clear_writer_counts, dma_writer_start, dma_writer_stop, dma_reader_stop}
use litepcie_ptm_test.Dma.Engine.{engine}
use litepcie_ptm_test.Dma.Program.{IsLoaded, Starts, dma_writer_start-Starts, dma_stop_quiets}
use litepcie_ptm_test.File.Ioctl.{ioctl_dma_writer}
use litepcie_ptm_test.File.Ioctl.Masks.{MaskSet}
use litepcie_ptm_test.File.Ioctl.WriterEngine.{ioctl_dma_writer-starts}
use litepcie_ptm_test.Tests.Data.{idle_chan, busy_chan, idle_session, holds_none, args, ones}

dma_stop_quiets_example :
    let w = engine writer_regs 0x6000 (dma_writer_stop busy_chan []).1 in
    let r = engine reader_regs 0x6000 (dma_reader_stop busy_chan []).1 in
    (w.enabled ≡ 0)
    × (w.looping ≡ 0)
    × (w.table ≡ [])
    × (r.enabled ≡ 0)
    × (r.looping ≡ 0)
    × (r.table ≡ [])
dma_stop_quiets_example = dma_stop_quiets busy_chan []

dma_writer_start-Starts_example :
    Starts writer_regs 0x6000 idle_chan.writer_handle (dma_writer_start idle_chan []).1
    × ((dma_writer_start idle_chan []).0.writer_hw_count ≡ 0)
    × ((dma_writer_start idle_chan []).0.writer_hw_count_last ≡ 0)
    × ((dma_writer_start idle_chan []).0.writer_sw_count ≡ 0)
dma_writer_start-Starts_example = dma_writer_start-Starts idle_chan [] (λ j. omega arith)

ioctl_dma_writer-starts_example :
    let s' = (ioctl_dma_writer ones true (args 1) idle_session).sess in
    IsLoaded idle_chan.writer_handle 1 (engine writer_regs 0x6000 s'.trace)
    × MaskSet idle_chan.writer_interrupt 1 s'.trace
    × (s'.dma ≡ record (clear_writer_counts idle_chan) { writer_enable = 1 })
    × (s'.priv ≡ holds_none)
ioctl_dma_writer-starts_example =
    ioctl_dma_writer-starts ones true (args 1) idle_session (λ e. absurd (omega (arith, e)))
      (λ e. absurd (omega (arith, e))) (omega arith) (omega arith) (λ j. omega arith)
