-- ===== src/Receiver/Order.antt =====
-- What holds of the history of a writer engine, whatever the order of the steps.
use litepcie_ptm_test.Base.{
  Bool, true, false, Bool-cases, ◌==◌, ne→==, ◌≡◌, ◌≢◌, refl, sym, ◌∙◌, inl, inr, [], ◌∷◌, arith,
  subst, ap,
}
use litepcie_ptm_test.Bus.{Hw}
use litepcie_ptm_test.Dma.{DmaChan, dma_writer_start}
use litepcie_ptm_test.File.Request.{EngineArgs, Session, nonzero}
use litepcie_ptm_test.File.Lock.{ioctl_lock}
use litepcie_ptm_test.File.Ioctl.{
  ioctl_writer_update, ioctl_reader_update, switch_writer, ioctl_dma_writer, ioctl_dma_reader,
}
use litepcie_ptm_test.Irq.{interrupt}
use litepcie_ptm_test.File.{open_chan, release}
use litepcie_ptm_test.Flow.{
  World, first_chan, writer_of, Same, IsOrdered, Same-IsOrdered, Handled-IsOrdered,
  completes-IsOrdered, Added-IsOrdered, fresh-IsOrdered,
}
use litepcie_ptm_test.Receiver.{
  Step, completes, handles, reads, opens, closes, locks, sends, asks, updates_reader,
  updates_writer, Reach, begin, next,
}
use litepcie_ptm_test.Receiver.Handler.{interrupt-Handled}
use litepcie_ptm_test.Receiver.Loop.{read-Added}
use litepcie_ptm_test.Receiver.Others.{
  ioctl_writer_update-Same, ioctl_reader_update-Same, open_chan-Same, release-Same, ioctl_lock-Same,
  ioctl_dma_reader-Same, ioctl_dma_writer-Same,
}

-- The software count is never beyond the hardware count.
abbrev pub IsReceived : World → Type 0
IsReceived w = IsOrdered 0 w.completed (writer_of w.dma) w.copied w.lost

kept :
    (w : World) (d : DmaChan)
    → Same (writer_of w.dma) (writer_of d)
    → IsReceived w
    → IsReceived (record w { dma = d })
kept w d s o = Same-IsOrdered 0 w.completed (writer_of w.dma) (writer_of d) w.copied w.lost s o

-- A call on a session with this channel.
on_session :
    (d : DmaChan) (s : Session) (call : Session → DmaChan)
    → s.dma ≡ d
    → Same (writer_of s.dma) (writer_of (call s))
    → Same (writer_of d) (writer_of (call s))
on_session d s call e same = subst (λ d. Same (writer_of d) (writer_of (call s))) e same

Step-IsReceived : {w w' : World} → Step w w' → IsReceived w → IsReceived w'
Step-IsReceived {w = w} (completes a b) o =
    completes-IsOrdered 0 w.completed (writer_of w.dma) w.copied w.lost a b o
Step-IsReceived {w = w} (handles hw msi vec irqs irq t status) o =
    Handled-IsOrdered 0 w.completed (writer_of w.dma)
      (writer_of (first_chan w.dma (interrupt hw msi vec irqs irq (w.dma ∷ []) t).0)) w.copied
      w.lost
      (interrupt-Handled hw msi vec irqs irq w.completed w.dma t o.last o.complete o.paced o.small
        status)
      o
Step-IsReceived {w = w}
      (reads nonblock wait seen copied size hw_count r bound up known fits short e) o =
    Added-IsOrdered 0 copied w.completed hw_count r.sw_count (writer_of w.dma) w.copied w.lost
      r.copies r.lost up known
      (read-Added nonblock wait seen copied size hw_count w.dma w.copied r fits short bound
        (omega (arith, o.small)) o.order e)
      o
Step-IsReceived {w = w} (opens alloc) o =
    kept w (open_chan alloc w.dma).1 (open_chan-Same alloc w.dma o.on) o
Step-IsReceived {w = w} (closes hw p t e) o =
    kept w (release hw p w.dma t).1 (release-Same hw p w.dma t e) o
Step-IsReceived {w = w} (locks copy_ok m s e) o =
    kept w (ioctl_lock copy_ok m s).sess.dma
      (on_session w.dma s (λ s. (ioctl_lock copy_ok m s).sess.dma) e (ioctl_lock-Same copy_ok m s))
      o
Step-IsReceived {w = w} (sends hw copy_ok m s e) o =
    kept w (ioctl_dma_reader hw copy_ok m s).sess.dma
      (on_session w.dma s (λ s. (ioctl_dma_reader hw copy_ok m s).sess.dma) e
        (ioctl_dma_reader-Same hw copy_ok m s))
      o
Step-IsReceived {w = w} (asks hw copy_ok m s e same) o =
    kept w (ioctl_dma_writer hw copy_ok m s).sess.dma
      (on_session w.dma s (λ s. (ioctl_dma_writer hw copy_ok m s).sess.dma) e
        (ioctl_dma_writer-Same hw copy_ok m s (same ∙ sym (ap (λ d. d.writer_enable) e))))
      o
Step-IsReceived {w = w} (updates_reader m s e) o =
    kept w (ioctl_reader_update m s).sess.dma
      (on_session w.dma s (λ s. (ioctl_reader_update m s).sess.dma) e
        (ioctl_reader_update-Same m s))
      o
Step-IsReceived {w = w} (updates_writer m s e same) o =
    kept w (ioctl_writer_update m s).sess.dma
      (on_session w.dma s (λ s. (ioctl_writer_update m s).sess.dma) e
        (ioctl_writer_update-Same m s λ n h. same n h ∙ sym (ap (λ d. d.writer_sw_count) e)))
      o

Reach-IsReceived : {s w : World} → IsReceived s → Reach s w → IsReceived w
Reach-IsReceived o begin = o
Reach-IsReceived o (next r s) = Step-IsReceived s (Reach-IsReceived o r)

-- A channel just after LITEPCIE_IOCTL_DMA_WRITER: no buffer is complete and none was read.
abbrev pub started : Hw → Bool → EngineArgs → Session → World
started hw copy_ok m s = record {
  dma = (ioctl_dma_writer hw copy_ok m s).sess.dma;
  completed = 0;
  copied = [];
  lost = 0;
}

started-zero :
    (hw : Hw) (copy_ok : Bool) (m : EngineArgs) (s : Session)
    → m.enable ≢ 0
    → m.enable ≢ s.dma.writer_enable
    → let d = (ioctl_dma_writer hw copy_ok m s).sess.dma in
      (d.writer_enable ≡ m.enable)
      × (d.writer_hw_count ≡ 0)
      × (d.writer_hw_count_last ≡ 0)
      × (d.writer_sw_count ≡ 0)
unfolding ioctl_dma_writer switch_writer dma_writer_start
started-zero hw copy_ok m s on new =
    let a : (m.enable == s.dma.writer_enable) ≡ false = ne→== _ _ new in
    let b : nonzero m.enable ≡ true = ground arith in
    elim (Bool-cases copy_ok) [
      | inl e ↦ rw (a, b, e) (refl, refl, refl, refl)
      | inr e ↦ rw (a, b, e) (refl, refl, refl, refl)
    ]

started-IsReceived :
    (hw : Hw) (copy_ok : Bool) (m : EngineArgs) (s : Session)
    → m.enable ≢ 0
    → m.enable ≢ s.dma.writer_enable
    → IsReceived (started hw copy_ok m s)
started-IsReceived hw copy_ok m s on new =
    let (enable, hw_count, last, sw_count) = started-zero hw copy_ok m s on new in
    fresh-IsOrdered 0 (writer_of (ioctl_dma_writer hw copy_ok m s).sess.dma)
      (λ e. on (sym enable ∙ e)) hw_count last sw_count

-- A channel from the ioctl that starts its writer on, through any sequence of completed buffers,
-- runs of the interrupt handler, calls of `litepcie_read` for less than 2 ^ 31 bytes in which handlers
-- run, and calls of other files that leave the writer on and its software count as it is, with the
-- handler never 2 ^ 24 buffers late: the driver's count of completed buffers never exceeds the true
-- one nor falls 2 ^ 24 behind it; the buffers read are complete ones, each of them is delivered at
-- most once and in the order of completion, by a copy that succeeded, from the slot of the ring that
-- holds it, and those up to the software count that were not delivered are the ones counted as lost.
pub delivers_in_order :
    (hw : Hw) (copy_ok : Bool) (m : EngineArgs) (s : Session) (w : World)
    → m.enable ≢ 0
    → m.enable ≢ s.dma.writer_enable
    → Reach (started hw copy_ok m s) w
    → IsOrdered 0 w.completed (writer_of w.dma) w.copied w.lost
delivers_in_order hw copy_ok m s w on new reached =
    Reach-IsReceived (started-IsReceived hw copy_ok m s on new) reached
