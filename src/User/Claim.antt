-- ===== src/User/Claim.antt =====
-- software/user/liblitepcie/litepcie_dma.c: what a program learns when it asks for the engines.
use litepcie_ptm_test.Base.{ℕ, ◌≡◌, ◌≢◌, refl, some, ne→==}
use litepcie_ptm_test.Bus.{Hw}
use litepcie_ptm_test.File.Request.{Build, Session}
use litepcie_ptm_test.File.Lock.{lock_reader, lock_writer, ioctl_lock}
use litepcie_ptm_test.File.Ioctl.{ioctl}
use litepcie_ptm_test.User.{checked_ioctl, request_dma}

-- A program that asks for the writer alone, on a channel whose writer is locked, gets nothing: the
-- driver and the file stay as they were; yet `litepcie_request_dma` returns 1, the status of the
-- reader, and not 0, by which `litepcie_dma_init` would notice.
pub request_dma_overlooks :
    (hw : Hw) (b : Build) (writer : ℕ) (s : Session)
    → writer ≢ 0
    → s.dma.writer_lock ≢ 0
    → request_dma hw b 0 writer s ≡ some (s, 1)
unfolding request_dma checked_ioctl ioctl ioctl_lock lock_reader lock_writer
request_dma_overlooks hw b writer s asked locked =
    rw (ne→== writer 0 asked, ne→== s.dma.writer_lock 0 locked) refl
