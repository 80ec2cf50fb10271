-- ===== src/Tests/Sender.antt =====
-- A channel that sends, at a concrete history.
use litepcie_ptm_test.Base.{true, false, ◌+◌, ◌≡◌, refl, [], ◌∷◌, ◌++◌, some, arith}
use litepcie_ptm_test.Config.{dma_buffer_size}
use litepcie_ptm_test.Dma.{dma_reader_start}
use litepcie_ptm_test.File.{Ret}
use litepcie_ptm_test.File.Request.{EngineArgs}
use litepcie_ptm_test.File.Ioctl.{ioctl_dma_reader, switch_reader}
use litepcie_ptm_test.File.Transfer.{Wait, Outcome, write}
use litepcie_ptm_test.File.Transfer.Exact.{copies_of, write_exact}
use litepcie_ptm_test.Irq.{Msi, interrupt}
use litepcie_ptm_test.Flow.{World, first_chan, handovers, reader_of, IsOrdered}
use litepcie_ptm_test.Sender.{completes, handles, writes, Reach, begin, next}
use litepcie_ptm_test.Sender.Order.{started, sends_in_order}
use litepcie_ptm_test.Tests.Data.{idle_session, zeros}

abbrev turn_on : EngineArgs
turn_on = record { enable = 1; hw_count = 0; sw_count = 0 }

abbrev at_start : World
at_start = started zeros true turn_on idle_session

-- A write of 20000 bytes fills two buffers.
abbrev two_written : Outcome
two_written = record {
  ret = Ret.done 16384;
  sw_count = 2;
  copies = copies_of dma_buffer_size 0 0 2;
  lost = 0;
}

writes_two :
    write false Wait.woken (λ k. 0) (λ i. true) dma_buffer_size 20000 at_start.dma
    ≡ some two_written
unfolding ioctl_dma_reader switch_reader dma_reader_start
writes_two = write_exact dma_buffer_size 20000 0 at_start.dma (omega arith) (omega arith)

abbrev after_write : World
after_write = record at_start {
  dma = record (at_start.dma) {
    reader_hw_count = 0;
    reader_hw_count_last = 0;
    reader_sw_count = 2;
  };
  copied =
      handovers (at_start.dma.reader_sw_count) (λ i. true) (copies_of dma_buffer_size 0 0 2) ++ [];
  lost = 0 + 0;
}

-- The device has completed one of them when the handler runs.
abbrev one_done : World
one_done = record after_write { completed = 1 }

abbrev handled : World
handled = record one_done {
  dma =
      first_chan one_done.dma
        (interrupt (λ t addr. 1) (Msi.single 0 4) (λ n. n) 32 0 (one_done.dma ∷ []) []).0;
}

history : Reach at_start handled
unfolding ioctl_dma_reader switch_reader dma_reader_start
history =
    next
      (next
        (next begin (
          writes false Wait.woken (λ k. 0) (λ i. true) 20000 0 two_written (λ k. omega arith)
            (omega arith) (omega arith) (omega arith) (omega arith) writes_two))
        (completes (omega arith) (omega arith)))
      (handles (λ t addr. 1) (Msi.single 0 4) (λ n. n) 32 0 [] (λ t. refl))

sends_in_order_example : IsOrdered 128 1 (reader_of handled.dma) after_write.copied after_write.lost
sends_in_order_example =
    sends_in_order zeros true turn_on idle_session handled (omega arith) (omega arith) history
