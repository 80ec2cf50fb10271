-- ===== src/Sender.antt =====
-- software/kernel/main.c, as one program: a channel whose reader engine runs, one writer of the file,
-- and the other files of the channel. The interrupt handler, `litepcie_write` and the calls of the
-- other files take turns; the device completes buffers at its own pace.
pub mod Handler
pub mod Loop
pub mod Others
pub mod Order
use litepcie_ptm_test.Base.{
  ℕ, Bool, true, false, ◌+◌, ◌*◌, ◌/◌, ◌%◌, ◌^◌, ◌≤◌, ◌<◌, ◌≡◌, List, [], ◌∷◌, ◌++◌, Option, some,
  ◌⊎◌,
}
use litepcie_ptm_test.Config.{dma_buffer_size, reader_regs}
use litepcie_ptm_test.Bus.{Trace, Hw}
use litepcie_ptm_test.Dma.{DmaChan}
use litepcie_ptm_test.File.{ChanPriv, open_chan, release}
use litepcie_ptm_test.File.Request.{EngineArgs, LockArgs, Session}
use litepcie_ptm_test.File.Lock.{ioctl_lock}
use litepcie_ptm_test.File.Ioctl.{
  ioctl_writer_update, ioctl_reader_update, ioctl_dma_reader, ioctl_dma_writer,
}
use litepcie_ptm_test.File.Transfer.{Copy, Wait, Outcome, write}
use litepcie_ptm_test.Irq.{Msi, Wake, interrupt}
use litepcie_ptm_test.Flow.{World, first_chan, handovers}
use litepcie_ptm_test.Irq.Count.{loop_status_of}

pub data Step (w : World) : World → Type 0 where
  -- The device completes a buffer. The handler is never 2 ^ 24 buffers late.
  completes :
      w.completed + 1 < w.dma.reader_hw_count + 2 ^ 24
      → w.completed + 1 < 2 ^ 63
      → Step w (record w { completed = w.completed + 1 })
  -- The interrupt handler runs; the loop status that it reads, if it does, is that of the buffers
  -- completed.
  handles :
      (hw : Hw) (msi : Msi) (pci_irq_vector : ℕ → ℕ) (irqs irq : ℕ) (t : Trace)
      → ((t : Trace)
          → hw t (w.dma.base + reader_regs.table_loop_status) ≡ loop_status_of w.completed)
      → Step w (record w {
        dma = first_chan (w.dma) (interrupt hw msi pci_irq_vector irqs irq (w.dma ∷ []) t).0;
      })
  -- A write, in the course of which the handler moves the hardware count up to `hw_count`.
  -- The kernel cuts the size of a call to less than 2 ^ 31 bytes.
  writes :
      (nonblock : Bool) (wait : Wait) (seen : ℕ → ℕ) (ok : ℕ → Bool) (size hw_count : ℕ)
      (o : Outcome)
      → ((k : ℕ) → seen k ≤ hw_count)
      → w.dma.reader_hw_count ≤ hw_count
      → hw_count ≤ w.completed
      → w.dma.reader_sw_count + size < 2 ^ 63
      → size < 2 ^ 31
      → write nonblock wait seen ok dma_buffer_size size (w.dma) ≡ some o
      → Step w (record w {
        dma = record (w.dma) {
          reader_hw_count = hw_count;
          reader_hw_count_last = hw_count;
          reader_sw_count = o.sw_count;
        };
        copied = handovers (w.dma.reader_sw_count) ok o.copies ++ w.copied;
        lost = w.lost + o.lost;
      })
  -- Another file is opened.
  opens : (alloc : Bool) → Step w (record w { dma = (open_chan alloc (w.dma)).1 })
  -- A file that does not hold the reader is closed.
  closes :
      (hw : Hw) (p : ChanPriv) (t : Trace)
      → p.reader ≡ false
      → Step w (record w { dma = (release hw p (w.dma) t).1 })
  -- Any file takes or gives back an engine.
  locks :
      (copy_ok : Bool) (m : LockArgs) (s : Session)
      → s.dma ≡ w.dma
      → Step w (record w { dma = (ioctl_lock copy_ok m s).sess.dma })
  -- The writer engine is switched or asked for its counts.
  receives :
      (hw : Hw) (copy_ok : Bool) (m : EngineArgs) (s : Session)
      → s.dma ≡ w.dma
      → Step w (record w { dma = (ioctl_dma_writer hw copy_ok m s).sess.dma })
  -- The reader engine is asked for its counts, which leaves it on.
  asks :
      (hw : Hw) (copy_ok : Bool) (m : EngineArgs) (s : Session)
      → s.dma ≡ w.dma
      → m.enable ≡ w.dma.reader_enable
      → Step w (record w { dma = (ioctl_dma_reader hw copy_ok m s).sess.dma })
  -- Any file sets the writer's software count.
  updates_writer :
      (m : Option ℕ) (s : Session)
      → s.dma ≡ w.dma
      → Step w (record w { dma = (ioctl_writer_update m s).sess.dma })
  -- A file sets the reader's software count to what it is.
  updates_reader :
      (m : Option ℕ) (s : Session)
      → s.dma ≡ w.dma
      → ((sw_count : ℕ) → m ≡ some sw_count → sw_count ≡ w.dma.reader_sw_count)
      → Step w (record w { dma = (ioctl_reader_update m s).sess.dma })

pub data Reach (start : World) : World → Type 0 where
  begin : Reach start start
  next : {w w' : World} → Reach start w → Step w w' → Reach start w'
