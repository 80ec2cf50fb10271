-- ===== src/File.antt =====
-- software/kernel/main.c: the file operations of a channel's character device. Here are the types
-- that they share, and open, release and poll; the children have the rest.
pub mod Session
pub mod Transfer
pub mod Request
pub mod Lock
pub mod Ioctl
pub mod Mmap
use litepcie_ptm_test.Base.{ℕ, Bool, true, false, ◌==◌, ◌*◌, ◌/◌, if◌then◌else◌, bit_or}
use litepcie_ptm_test.Base.Word.{sub64, slt64}
use litepcie_ptm_test.Config.{dma_buffer_count}
use litepcie_ptm_test.Bus.{Trace, Hw, disable_interrupt}
use litepcie_ptm_test.Dma.{
  DmaChan, clear_reader_counts, clear_writer_counts, dma_reader_stop, dma_writer_stop,
}

-- The error numbers that the driver returns, each as -E….
pub data Errno : Type 0 where
  enodev enomem enoioctlcmd efault einval eagain eio erestartsys eopnotsupp etimedout eexist : Errno

-- The result of an operation: a count (0 on plain success) or an error.
pub data Ret : Type 0 where
  done : ℕ → Ret
  fail : Errno → Ret

-- `struct litepcie_chan_priv`, without its pointer to the channel.
pub record ChanPriv : Type 0 where
  pub reader : Bool
  pub writer : Bool

-- `litepcie_open`: `alloc` is whether kzalloc gives memory, which it fills with zeros.
unfoldable pub open_chan : Bool → DmaChan → Ret × DmaChan × ChanPriv
open_chan alloc d =
    let priv : ChanPriv = record { reader = false; writer = false } in
    let d1 = if d.reader_enable == 0 then clear_reader_counts d else d in
    let d2 = if d1.writer_enable == 0 then clear_writer_counts d1 else d1 in
    if alloc then (Ret.done 0, d2, priv) else (Ret.fail Errno.enomem, d, priv)

module _ (hw : Hw) where
  -- The first half of `litepcie_release`.
  unfoldable pub release_reader : ChanPriv → DmaChan → Trace → DmaChan × Trace
  release_reader priv d t =
      if priv.reader
      then (let t1 = disable_interrupt hw d.reader_interrupt t in
          let (d', t2) = dma_reader_stop d t1 in
          (record d' { reader_lock = 0; reader_enable = 0 }, t2))
      else (d, t)

  -- The second half.
  unfoldable pub release_writer : ChanPriv → DmaChan → Trace → DmaChan × Trace
  release_writer priv d t =
      if priv.writer
      then (let t1 = disable_interrupt hw d.writer_interrupt t in
          let (d', t2) = dma_writer_stop d t1 in
          (record d' { writer_lock = 0; writer_enable = 0 }, t2))
      else (d, t)

  -- `litepcie_release`
  unfoldable pub release : ChanPriv → DmaChan → Trace → Ret × DmaChan × Trace
  release priv d t =
      let (d1, t1) = release_reader priv d t in
      let (d2, t2) = release_writer priv d1 t1 in (Ret.done 0, d2, t2)

-- The event bits of poll(2).
abbrev pub pollin : ℕ
pollin = 0x0001

abbrev pub pollrdnorm : ℕ
pollrdnorm = 0x0040

abbrev pub pollout : ℕ
pollout = 0x0004

abbrev pub pollwrnorm : ℕ
pollwrnorm = 0x0100

-- `litepcie_poll`
unfoldable pub poll : DmaChan → ℕ
poll d =
    let mask : ℕ = 0 in
    let mask : ℕ =
      if slt64 2 (sub64 d.writer_hw_count d.writer_sw_count)
      then bit_or mask (bit_or pollin pollrdnorm)
      else mask in
    if slt64 (sub64 d.reader_sw_count d.reader_hw_count) (dma_buffer_count / 2)
    then bit_or mask (bit_or pollout pollwrnorm)
    else mask
