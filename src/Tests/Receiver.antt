-- ===== src/Tests/Receiver.antt =====
-- A channel that receives, at a concrete history.
use litepcie_ptm_test.Base.{ℕ, true, false, ◌+◌, ◌≡◌, refl, [], ◌∷◌, ◌++◌, some, arith}
use litepcie_ptm_test.Config.{dma_buffer_size}
use litepcie_ptm_test.Bus.{Trace}
use litepcie_ptm_test.Dma.{dma_writer_start}
use litepcie_ptm_test.File.{Ret}
use litepcie_ptm_test.File.Request.{EngineArgs}
use litepcie_ptm_test.File.Ioctl.{ioctl_dma_writer, switch_writer}
use litepcie_ptm_test.File.Transfer.{Wait, Outcome, read}
use litepcie_ptm_test.File.Transfer.Exact.{copies_of, read_exact}
use litepcie_ptm_test.Irq.{
  Msi, interrupt, service, service_reader, service_writer, irq_status, pending, extend_count,
}
use litepcie_ptm_test.Flow.{World, first_chan, handovers, writer_of, IsOrdered}
use litepcie_ptm_test.Receiver.{completes, handles, reads, Reach, begin, next}
use litepcie_ptm_test.Receiver.Order.{started, delivers_in_order}
use litepcie_ptm_test.Tests.Data.{idle_session, zeros}

abbrev turn_on : EngineArgs
turn_on = record { enable = 1; hw_count = 0; sw_count = 0 }

abbrev at_start : World
at_start = started zeros true turn_on idle_session

-- Three buffers are complete when the handler runs.
abbrev filled : World
filled = record at_start { completed = 3 }

abbrev three : Trace → ℕ → ℕ
three t addr = 3

abbrev handled : World
handled = record filled {
  dma =
      first_chan filled.dma (interrupt three (Msi.single 0 4) (λ n. n) 32 0 (filled.dma ∷ []) []).0;
}

handled-count : (handled.dma.writer_hw_count ≡ 3) × (handled.dma.writer_sw_count ≡ 0)
unfolding interrupt service service_reader service_writer irq_status pending extend_count
    ioctl_dma_writer switch_writer dma_writer_start
handled-count = (refl, refl)

-- A read of 20000 bytes takes two of them.
abbrev two_read : Outcome
two_read = record {
  ret = Ret.done 16384;
  sw_count = 2;
  copies = copies_of dma_buffer_size 0 0 2;
  lost = 0;
}

reads_two :
    read false Wait.woken (λ k. 3) (λ i. true) dma_buffer_size 20000 handled.dma ≡ some two_read
unfolding interrupt service service_reader service_writer irq_status pending extend_count
    ioctl_dma_writer switch_writer dma_writer_start
reads_two = read_exact dma_buffer_size 20000 3 handled.dma (omega arith) (omega arith)

abbrev after_read : World
after_read = record handled {
  dma = record (handled.dma) { writer_hw_count = 3; writer_hw_count_last = 3; writer_sw_count = 2 };
  copied =
      handovers (handled.dma.writer_sw_count) (λ i. true) (copies_of dma_buffer_size 0 0 2) ++ [];
  lost = 0 + 0;
}

completes_three : Reach at_start filled
unfolding ioctl_dma_writer switch_writer dma_writer_start
completes_three =
    next
      (next (next begin (completes (omega arith) (omega arith)))
        (completes (omega arith) (omega arith)))
      (completes (omega arith) (omega arith))

history : Reach at_start after_read
history =
    next (next completes_three (handles three (Msi.single 0 4) (λ n. n) 32 0 [] (λ t. refl))) (
      reads false Wait.woken (λ k. 3) (λ i. true) 20000 3 two_read (λ k. omega arith)
        (omega (arith, handled-count)) (omega arith) (omega (arith, handled-count)) (omega arith)
        reads_two)

delivers_in_order_example :
    IsOrdered 0 3 (writer_of after_read.dma) after_read.copied after_read.lost
delivers_in_order_example =
    delivers_in_order zeros true turn_on idle_session after_read (omega arith) (omega arith) history
