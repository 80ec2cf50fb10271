-- ===== src/File/Lock/Requests.antt =====
-- software/kernel/main.c: what a single file gets from LITEPCIE_IOCTL_LOCK.
use litepcie_ptm_test.Base.{
  ℕ, Bool, true, ◌≡◌, ◌≢◌, refl, arith, ◌==◌, if◌then◌else◌, ne→==, ==_refl,
}
use litepcie_ptm_test.File.Request.{LockArgs, Session}
use litepcie_ptm_test.File.Lock.{lock_reader}
use litepcie_ptm_test.File.Lock.Moves.{OneOwner}

-- A request for the reader that does not release it is granted exactly if the lock is free; the
-- file then holds it, and a refused request changes nothing.
pub lock_reader-request :
    (m : LockArgs) (s : Session)
    → m.dma_reader_request ≢ 0
    → m.dma_reader_release ≡ 0
    → lock_reader m s ≡ (
        if s.dma.reader_lock == 0
        then (
          record s {
            dma = record (s.dma) { reader_lock = 1 };
            priv = record (s.priv) { reader = true };
          },
          1,
        )
        else (s, 0))
unfolding lock_reader
lock_reader-request m s h k = ground arith

lock_reader-release :
    (m : LockArgs) (s : Session)
    → m.dma_reader_release ≢ 0
    → (lock_reader m s).0.dma.reader_lock ≡ 0
unfolding lock_reader
lock_reader-release m s h = ground arith

lock_reader-granted :
    (m : LockArgs) (s : Session)
    → s.dma.reader_lock ≡ 0
    → m.dma_reader_request ≢ 0
    → m.dma_reader_release ≡ 0
    → ((lock_reader m s).1 ≡ 1) × ((lock_reader m s).0.priv.reader ≡ true)
lock_reader-granted m s free ask norel =
    let now : (s.dma.reader_lock == 0) ≡ true = rw free (==_refl 0) in
    rw (lock_reader-request m s ask norel, now) (refl, refl)

-- File `i` gets the reader while another file `j` holds it, by one call that releases it and one
-- that requests it: the second call is granted, and now two files hold the reader.
pub lock_reader_steals :
    (m n : LockArgs) (s : Session) (h : ℕ → Bool) (i j : ℕ)
    → m.dma_reader_release ≢ 0
    → n.dma_reader_request ≢ 0
    → n.dma_reader_release ≡ 0
    → h j ≡ true
    → j ≢ i
    → let (s', status) = lock_reader n (lock_reader m s).0 in
      (status ≡ 1)
      × (s'.priv.reader ≡ true)
      × ¬ OneOwner s'.dma.reader_lock (λ k. if k == i then s'.priv.reader else h k)
lock_reader_steals m n s h i j rel ask norel held other =
    let free = lock_reader-release m s rel in
    let (status, mine) = lock_reader-granted n (lock_reader m s).0 free ask norel in
    (status, mine, λ o. other (o.exclusive j i (rw (ne→== j i other) held) (rw (==_refl i) mine)))
