-- ===== src/Sender/Order.antt =====
-- What holds of the history of a reader engine, whatever the order of the steps.
use litepcie_ptm_test.Base.{
  Bool, true, false, Bool-cases, ◌==◌, ne→==, ◌≡◌, ◌≢◌, refl, sym, ◌∙◌, inl, inr, [], ◌∷◌, arith,
  subst, ap,
}
use litepcie_ptm_test.Bus.{Hw}
use litepcie_ptm_test.Dma.{DmaChan, dma_reader_start}
use litepcie_ptm_test.File.Request.{EngineArgs, Session, nonzero}
use litepcie_ptm_test.File.Lock.{ioctl_lock}
use litepcie_ptm_test.File.Ioctl.{
  ioctl_writer_update, ioctl_reader_update, switch_reader, ioctl_dma_reader, ioctl_dma_writer,
}
use litepcie_ptm_test.Irq.{interrupt}
use litepcie_ptm_test.File.{open_chan, release}
use litepcie_ptm_test.Flow.{
  World, first_chan, reader_of, Same, IsOrdered, Same-IsOrdered, Handled-IsOrdered,
  completes-IsOrdered, Added-IsOrdered, fresh-IsOrdered,
}
use litepcie_ptm_test.Sender.{
  Step, completes, handles, writes, opens, closes, locks, receives, asks, updates_writer,
  updates_reader, Reach, begin, next,
}
use litepcie_ptm_test.Sender.Handler.{interrupt-Handled}
use litepcie_ptm_test.Sender.Loop.{write-Added}
use litepcie_ptm_test.Sender.Others.{
  ioctl_writer_update-Same, ioctl_reader_update-Same, open_chan-Same, release-Same, ioctl_lock-Same,
  ioctl_dma_writer-Same, ioctl_dma_reader-Same,
}

-- The software count is at most half the ring beyond the hardware count.
abbrev pub IsSent : World → Type 0
IsSent w = IsOrdered 128 w.completed (reader_of w.dma) w.copied w.lost

kept :
    (w : World) (d : DmaChan)
    → Same (reader_of w.dma) (reader_of d)
    → IsSent w
    → IsSent (record w { dma = d })
kept w d s o = Same-IsOrdered 128 w.completed (reader_of w.dma) (reader_of d) w.copied w.lost s o

-- A call on a session with this channel.
on_session :
    (d : DmaChan) (s : Session) (call : Session → DmaChan)
    → s.dma ≡ d
    → Same (reader_of s.dma) (reader_of (call s))
    → Same (reader_of d) (reader_of (call s))
on_session d s call e same = subst (λ d. Same (reader_of d) (reader_of (call s))) e same

Step-IsSent : {w w' : World} → Step w w' → IsSent w → IsSent w'
Step-IsSent {w = w} (completes a b) o =
    completes-IsOrdered 128 w.completed (reader_of w.dma) w.copied w.lost a b o
Step-IsSent {w = w} (handles hw msi vec irqs irq t status) o =
    Handled-IsOrdered 128 w.completed (reader_of w.dma)
      (reader_of (first_chan w.dma (interrupt hw msi vec irqs irq (w.dma ∷ []) t).0)) w.copied
      w.lost
      (interrupt-Handled hw msi vec irqs irq w.completed w.dma t o.last o.complete o.paced o.small
        status)
      o
Step-IsSent {w = w} (writes nonblock wait seen copied size hw_count r bound up known fits short e)
      o =
    Added-IsOrdered 128 copied w.completed hw_count r.sw_count (reader_of w.dma) w.copied w.lost
      r.copies r.lost up known
      (write-Added nonblock wait seen copied size hw_count w.dma w.copied r fits short bound
        (omega (arith, o.small)) o.order e)
      o
Step-IsSent {w = w} (opens alloc) o =
    kept w (open_chan alloc w.dma).1 (open_chan-Same alloc w.dma o.on) o
Step-IsSent {w = w} (closes hw p t e) o =
    kept w (release hw p w.dma t).1 (release-Same hw p w.dma t e) o
Step-IsSent {w = w} (locks copy_ok m s e) o =
    kept w (ioctl_lock copy_ok m s).sess.dma
      (on_session w.dma s (λ s. (ioctl_lock copy_ok m s).sess.dma) e (ioctl_lock-Same copy_ok m s))
      o
Step-IsSent {w = w} (receives hw copy_ok m s e) o =
    kept w (ioctl_dma_writer hw copy_ok m s).sess.dma
      (on_session w.dma s (λ s. (ioctl_dma_writer hw copy_ok m s).sess.dma) e
        (ioctl_dma_writer-Same hw copy_ok m s))
      o
Step-IsSent {w = w} (asks hw copy_ok m s e same) o =
    kept w (ioctl_dma_reader hw copy_ok m s).sess.dma
      (on_session w.dma s (λ s. (ioctl_dma_reader hw copy_ok m s).sess.dma) e
        (ioctl_dma_reader-Same hw copy_ok m s (same ∙ sym (ap (λ d. d.reader_enable) e))))
      o
Step-IsSent {w = w} (updates_writer m s e) o =
    kept w (ioctl_writer_update m s).sess.dma
      (on_session w.dma s (λ s. (ioctl_writer_update m s).sess.dma) e
        (ioctl_writer_update-Same m s))
      o
Step-IsSent {w = w} (updates_reader m s e same) o =
    kept w (ioctl_reader_update m s).sess.dma
      (on_session w.dma s (λ s. (ioctl_reader_update m s).sess.dma) e
        (ioctl_reader_update-Same m s λ n h. same n h ∙ sym (ap (λ d. d.reader_sw_count) e)))
      o

Reach-IsSent : {s w : World} → IsSent s → Reach s w → IsSent w
Reach-IsSent o begin = o
Reach-IsSent o (next r s) = Step-IsSent s (Reach-IsSent o r)

-- A channel just after LITEPCIE_IOCTL_DMA_READER: no buffer is complete and none was written.
abbrev pub started : Hw → Bool → EngineArgs → Session → World
started hw copy_ok m s = record {
  dma = (ioctl_dma_reader hw copy_ok m s).sess.dma;
  completed = 0;
  copied = [];
  lost = 0;
}

started-zero :
    (hw : Hw) (copy_ok : Bool) (m : EngineArgs) (s : Session)
    → m.enable ≢ 0
    → m.enable ≢ s.dma.reader_enable
    → let d = (ioctl_dma_reader hw copy_ok m s).sess.dma in
      (d.reader_enable ≡ m.enable)
      × (d.reader_hw_count ≡ 0)
      × (d.reader_hw_count_last ≡ 0)
      × (d.reader_sw_count ≡ 0)
unfolding ioctl_dma_reader switch_reader dma_reader_start
started-zero hw copy_ok m s on new =
    let a : (m.enable == s.dma.reader_enable) ≡ false = ne→== _ _ new in
    let b : nonzero m.enable ≡ true = ground arith in
    elim (Bool-cases copy_ok) [
      | inl e ↦ rw (a, b, e) (refl, refl, refl, refl)
      | inr e ↦ rw (a, b, e) (refl, refl, refl, refl)
    ]

started-IsSent :
    (hw : Hw) (copy_ok : Bool) (m : EngineArgs) (s : Session)
    → m.enable ≢ 0
    → m.enable ≢ s.dma.reader_enable
    → IsSent (started hw copy_ok m s)
started-IsSent hw copy_ok m s on new =
    let (enable, hw_count, last, sw_count) = started-zero hw copy_ok m s on new in
    fresh-IsOrdered 128 (reader_of (ioctl_dma_reader hw copy_ok m s).sess.dma)
      (λ e. on (sym enable ∙ e)) hw_count last sw_count

-- A channel from the ioctl that starts its reader on, through any sequence of completed buffers,
-- runs of the interrupt handler, calls of `litepcie_write` for less than 2 ^ 31 bytes in which
-- handlers run, and calls of other files that leave the reader on and its software count as it is,
-- with the handler never 2 ^ 24 buffers late: the driver's count of completed buffers never exceeds
-- the true one nor falls 2 ^ 24 behind it; the software count is at most 128 buffers, half the ring,
-- beyond that count, so that no buffer of the ring is filled again before the device has completed
-- it; each buffer is filled at most once for its count and in order, by a copy that succeeded, into
-- the slot of the ring for that count, and the counts up to the software count that were not filled
-- are the ones counted as lost.
pub sends_in_order :
    (hw : Hw) (copy_ok : Bool) (m : EngineArgs) (s : Session) (w : World)
    → m.enable ≢ 0
    → m.enable ≢ s.dma.reader_enable
    → Reach (started hw copy_ok m s) w
    → IsOrdered 128 w.completed (reader_of w.dma) w.copied w.lost
sends_in_order hw copy_ok m s w on new reached =
    Reach-IsSent (started-IsSent hw copy_ok m s on new) reached
