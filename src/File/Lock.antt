-- ===== src/File/Lock.antt =====
-- software/kernel/main.c: LITEPCIE_IOCTL_LOCK, by which a file takes and gives back the two engines.
pub mod Moves
pub mod Owners
pub mod Requests
use litepcie_ptm_test.Base.{ℕ, Bool, true, false, if◌then◌else◌}
use litepcie_ptm_test.File.Request.{LockArgs, Reply, Session, Answer, give_back, nonzero}

-- LITEPCIE_IOCTL_LOCK, the reader's half: the new session and `dma_reader_status`.
unfoldable pub lock_reader : LockArgs → Session → Session × ℕ
lock_reader m s =
    let (s1, status) : Session × ℕ =
      if nonzero m.dma_reader_request
      then (if nonzero s.dma.reader_lock then (s, 0) else (
        record s {
          dma = record (s.dma) { reader_lock = 1 };
          priv = record (s.priv) { reader = true };
        },
        1,
      ))
      else (s, 1) in
    if nonzero m.dma_reader_release
    then (
      record s1 {
        dma = record (s1.dma) { reader_lock = 0 };
        priv = record (s1.priv) { reader = false };
      },
      status,
    )
    else (s1, status)

-- The writer's half.
unfoldable pub lock_writer : LockArgs → Session → Session × ℕ
lock_writer m s =
    let (s1, status) : Session × ℕ =
      if nonzero m.dma_writer_request
      then (if nonzero s.dma.writer_lock then (s, 0) else (
        record s {
          dma = record (s.dma) { writer_lock = 1 };
          priv = record (s.priv) { writer = true };
        },
        1,
      ))
      else (s, 1) in
    if nonzero m.dma_writer_release
    then (
      record s1 {
        dma = record (s1.dma) { writer_lock = 0 };
        priv = record (s1.priv) { writer = false };
      },
      status,
    )
    else (s1, status)

unfoldable pub ioctl_lock : Bool → LockArgs → Session → Answer
ioctl_lock copy_ok m s =
    let (s1, reader_status) = lock_reader m s in
    let (s2, writer_status) = lock_writer m s1 in
    give_back copy_ok
      (Reply.lock
        (record m { dma_reader_status = reader_status; dma_writer_status = writer_status }))
      s2
