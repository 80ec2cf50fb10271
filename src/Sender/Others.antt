-- ===== src/Sender/Others.antt =====
-- What the other files of the channel do to its reader engine: nothing.
use litepcie_ptm_test.Base.{
  Option, none, some, refl, ℕ, Bool, true, false, ◌≡◌, ◌≢◌, arith, ◌==◌, Bool-cases, inl, inr,
}
use litepcie_ptm_test.Bus.{Trace, Hw}
use litepcie_ptm_test.Dma.{DmaChan, dma_writer_start, dma_writer_stop}
use litepcie_ptm_test.File.{ChanPriv, open_chan, release, release_writer, release_reader}
use litepcie_ptm_test.File.Request.{EngineArgs, LockArgs, Session, nonzero}
use litepcie_ptm_test.Flow.{reader_of, Same}
use litepcie_ptm_test.File.Lock.{lock_writer, lock_reader, ioctl_lock}
use litepcie_ptm_test.File.Lock.Moves.{sess-ioctl_lock}
use litepcie_ptm_test.File.Ioctl.{
  ioctl_writer_update, ioctl_reader_update, ioctl_dma_reader, ioctl_dma_writer, switch_reader,
  switch_writer,
}

pub open_chan-Same :
    (alloc : Bool) (d : DmaChan)
    → d.reader_enable ≢ 0
    → Same (reader_of d) (reader_of (open_chan alloc d).1)
unfolding open_chan
open_chan-Same false d on = ground arith
open_chan-Same true d on = ground arith

pub release-Same :
    (hw : Hw) (p : ChanPriv) (d : DmaChan) (t : Trace)
    → p.reader ≡ false
    → Same (reader_of d) (reader_of (release hw p d t).1)
unfolding release release_writer release_reader dma_writer_stop
release-Same hw p d t e = elim (Bool-cases p.writer) [
  | inl r ↦ rw (e, r) (ground arith)
  | inr r ↦ rw (e, r) (ground arith)
]

lock_writer-Same :
    (m : LockArgs) (s : Session) → Same (reader_of s.dma) (reader_of (lock_writer m s).0.dma)
unfolding lock_writer
lock_writer-Same m s = ground arith

lock_reader-Same :
    (m : LockArgs) (s : Session) → Same (reader_of s.dma) (reader_of (lock_reader m s).0.dma)
unfolding lock_reader
lock_reader-Same m s = ground arith

pub ioctl_lock-Same :
    (copy_ok : Bool) (m : LockArgs) (s : Session)
    → Same (reader_of s.dma) (reader_of (ioctl_lock copy_ok m s).sess.dma)
ioctl_lock-Same copy_ok m s =
    rw (sess-ioctl_lock copy_ok m s)
      (ground (arith, lock_reader-Same m s, lock_writer-Same m (lock_reader m s).0))

switch_writer-Same :
    (hw : Hw) (enable : ℕ) (d : DmaChan) (t : Trace)
    → Same (reader_of d) (reader_of (switch_writer hw enable d t).0)
unfolding switch_writer dma_writer_start dma_writer_stop
switch_writer-Same hw enable d t = elim (Bool-cases (enable == d.writer_enable)) [
  | inl same ↦ rw same (ground arith)
  | inr new ↦ elim (Bool-cases (nonzero enable)) [
    | inl on ↦ rw (new, on) (ground arith)
    | inr off ↦ rw (new, off) (ground arith)
  ]
]

pub ioctl_dma_writer-Same :
    (hw : Hw) (copy_ok : Bool) (m : EngineArgs) (s : Session)
    → Same (reader_of s.dma) (reader_of (ioctl_dma_writer hw copy_ok m s).sess.dma)
unfolding ioctl_dma_writer
ioctl_dma_writer-Same hw true m s = ground (arith, switch_writer-Same hw m.enable s.dma s.trace)
ioctl_dma_writer-Same hw false m s = ground (arith, switch_writer-Same hw m.enable s.dma s.trace)

pub ioctl_dma_reader-Same :
    (hw : Hw) (copy_ok : Bool) (m : EngineArgs) (s : Session)
    → m.enable ≡ s.dma.reader_enable
    → Same (reader_of s.dma) (reader_of (ioctl_dma_reader hw copy_ok m s).sess.dma)
unfolding ioctl_dma_reader switch_reader
ioctl_dma_reader-Same hw true m s e =
    let same : (m.enable == s.dma.reader_enable) ≡ true = ground arith in rw same (ground arith)
ioctl_dma_reader-Same hw false m s e =
    let same : (m.enable == s.dma.reader_enable) ≡ true = ground arith in rw same (ground arith)

pub ioctl_writer_update-Same :
    (m : Option ℕ) (s : Session)
    → Same (reader_of s.dma) (reader_of (ioctl_writer_update m s).sess.dma)
ioctl_writer_update-Same none s = ground arith
ioctl_writer_update-Same (some n) s = ground arith

pub ioctl_reader_update-Same :
    (m : Option ℕ) (s : Session)
    → ((sw_count : ℕ) → m ≡ some sw_count → sw_count ≡ s.dma.reader_sw_count)
    → Same (reader_of s.dma) (reader_of (ioctl_reader_update m s).sess.dma)
ioctl_reader_update-Same none s e = ground arith
ioctl_reader_update-Same (some n) s e = ground (arith, e n refl)
