-- ===== src/File/Lock/Moves.antt =====
-- What open, release and the lock ioctl do to one lock of a channel and to its holders.
use litepcie_ptm_test.Base.{
  ℕ, Bool, true, false, ◌≡◌, refl, sym, subst, fun_ext, ◌⊎◌, inl, inr, arith, ◌==◌, if◌then◌else◌,
  Bool-cases,
}
use litepcie_ptm_test.Bus.{Trace, Hw}
use litepcie_ptm_test.Dma.{DmaChan, dma_reader_stop, dma_writer_stop}
use litepcie_ptm_test.File.{ChanPriv, release, release_reader, release_writer, open_chan}
use litepcie_ptm_test.File.Request.{LockArgs, Session, nonzero}
use litepcie_ptm_test.File.Lock.{lock_reader, lock_writer, ioctl_lock}

-- What one lock and the family of its holders do in a step of file `i`.
pub data Move (lock : ℕ) (h : ℕ → Bool) (i lock' : ℕ) (b : Bool) : Type 0 where
  keep : lock' ≡ lock → b ≡ h i → Move lock h i lock' b
  grab : lock ≡ 0 → lock' ≡ 1 → b ≡ true → Move lock h i lock' b
  drop : h i ≡ true → lock' ≡ 0 → b ≡ false → Move lock h i lock' b

-- The lock is 1 while one file holds it, and 0 while none does; no two files hold it.
pub record OneOwner (lock : ℕ) (h : ℕ → Bool) : Type 0 where
  pub exclusive : (i j : ℕ) → h i ≡ true → h j ≡ true → i ≡ j
  pub locked : (i : ℕ) → h i ≡ true → lock ≡ 1
  pub owned : (lock ≡ 0) ⊎ ((lock ≡ 1) × ((i : ℕ) × (h i ≡ true)))

same_holders : (h : ℕ → Bool) (i j : ℕ) (b : Bool) → b ≡ h i → (if j == i then b else h j) ≡ h j
same_holders h i j b f = ground arith

pub Move-OneOwner :
    (lock : ℕ) (h : ℕ → Bool) (i lock' : ℕ) (b : Bool)
    → OneOwner lock h
    → Move lock h i lock' b
    → OneOwner lock' (λ j. if j == i then b else h j)
Move-OneOwner lock h i lock' b o (keep e f) =
    rw e (subst (OneOwner lock) (sym (fun_ext λ j. same_holders h i j b f)) o)
Move-OneOwner lock h i lock' b o (grab e f g) = record {
  exclusive = λ j k p q. ground (arith, o.locked j, o.locked k);
  locked = λ j p. f;
  owned = inr (f, (i, ground arith));
}
Move-OneOwner lock h i lock' b o (drop e f g) = record {
  exclusive = λ j k p q. ground (arith, o.exclusive j k);
  locked = λ j p. absurd (ground (arith, o.exclusive i j));
  owned = inl f;
}

pub lock_reader-Move :
    (h : ℕ → Bool) (i : ℕ) (m : LockArgs) (s : Session)
    → OneOwner s.dma.reader_lock h
    → h i ≡ s.priv.reader
    → (m.dma_reader_release ≡ 0) ⊎ (s.priv.reader ≡ true)
    → let s' = (lock_reader m s).0 in
      Move s.dma.reader_lock h i s'.dma.reader_lock s'.priv.reader
      × (s'.dma.writer_lock ≡ s.dma.writer_lock)
      × (s'.priv.writer ≡ s.priv.writer)
unfolding lock_reader
lock_reader-Move h i m s o e polite = elim (Bool-cases (nonzero m.dma_reader_release)) [
  | inl r ↦
      let held : h i ≡ true = ground arith in
      let l : nonzero s.dma.reader_lock ≡ true = ground (arith, o.locked i held) in
      elim (Bool-cases (nonzero m.dma_reader_request)) [
        | inl q ↦ rw (r, q, l) (drop held refl refl, refl, refl)
        | inr q ↦ rw (r, q) (drop held refl refl, refl, refl)
      ]
  | inr r ↦ elim (Bool-cases (nonzero m.dma_reader_request)) [
    | inl q ↦ elim (Bool-cases (nonzero s.dma.reader_lock)) [
      | inl l ↦ rw (r, q, l) (keep refl (sym e), refl, refl)
      | inr l ↦ rw (r, q, l) (grab (ground arith) refl refl, refl, refl)
    ]
    | inr q ↦ rw (r, q) (keep refl (sym e), refl, refl)
  ]
]

pub lock_writer-Move :
    (h : ℕ → Bool) (i : ℕ) (m : LockArgs) (s : Session)
    → OneOwner s.dma.writer_lock h
    → h i ≡ s.priv.writer
    → (m.dma_writer_release ≡ 0) ⊎ (s.priv.writer ≡ true)
    → let s' = (lock_writer m s).0 in
      Move s.dma.writer_lock h i s'.dma.writer_lock s'.priv.writer
      × (s'.dma.reader_lock ≡ s.dma.reader_lock)
      × (s'.priv.reader ≡ s.priv.reader)
unfolding lock_writer
lock_writer-Move h i m s o e polite = elim (Bool-cases (nonzero m.dma_writer_release)) [
  | inl r ↦
      let held : h i ≡ true = ground arith in
      let l : nonzero s.dma.writer_lock ≡ true = ground (arith, o.locked i held) in
      elim (Bool-cases (nonzero m.dma_writer_request)) [
        | inl q ↦ rw (r, q, l) (drop held refl refl, refl, refl)
        | inr q ↦ rw (r, q) (drop held refl refl, refl, refl)
      ]
  | inr r ↦ elim (Bool-cases (nonzero m.dma_writer_request)) [
    | inl q ↦ elim (Bool-cases (nonzero s.dma.writer_lock)) [
      | inl l ↦ rw (r, q, l) (keep refl (sym e), refl, refl)
      | inr l ↦ rw (r, q, l) (grab (ground arith) refl refl, refl, refl)
    ]
    | inr q ↦ rw (r, q) (keep refl (sym e), refl, refl)
  ]
]

pub sess-ioctl_lock :
    (copy_ok : Bool) (m : LockArgs) (s : Session)
    → (ioctl_lock copy_ok m s).sess ≡ (lock_writer m (lock_reader m s).0).0
unfolding ioctl_lock
sess-ioctl_lock true m s = refl
sess-ioctl_lock false m s = refl

pub opens_locks :
    (d : DmaChan)
    → ((open_chan true d).1.reader_lock ≡ d.reader_lock)
      × ((open_chan true d).1.writer_lock ≡ d.writer_lock)
      × ((open_chan true d).2 ≡ record { reader = false; writer = false })
unfolding open_chan
opens_locks d = elim (Bool-cases (d.reader_enable == 0)) [
  | inl r ↦ elim (Bool-cases (d.writer_enable == 0)) [
    | inl w ↦ rw (r, w) (refl, refl, refl)
    | inr w ↦ rw (r, w) (refl, refl, refl)
  ]
  | inr r ↦ elim (Bool-cases (d.writer_enable == 0)) [
    | inl w ↦ rw (r, w) (refl, refl, refl)
    | inr w ↦ rw (r, w) (refl, refl, refl)
  ]
]

-- Releasing a file gives back the locks that it holds and leaves the others.
pub releases :
    (hw : Hw) (p : ChanPriv) (d : DmaChan) (t : Trace)
    → let d' = (release hw p d t).1 in
      (d'.reader_lock ≡ (if p.reader then 0 else d.reader_lock))
      × (d'.writer_lock ≡ (if p.writer then 0 else d.writer_lock))
unfolding release release_reader release_writer dma_reader_stop dma_writer_stop
releases hw p d t = elim (Bool-cases p.reader) [
  | inl r ↦ elim (Bool-cases p.writer) [
    | inl w ↦ rw (r, w) (refl, refl)
    | inr w ↦ rw (r, w) (refl, refl)
  ]
  | inr r ↦ elim (Bool-cases p.writer) [
    | inl w ↦ rw (r, w) (refl, refl)
    | inr w ↦ rw (r, w) (refl, refl)
  ]
]

pub release-Move :
    (lock : ℕ) (h : ℕ → Bool) (i lock' : ℕ) (b : Bool)
    → h i ≡ b
    → lock' ≡ (if b then 0 else lock)
    → Move lock h i lock' false
release-Move lock h i lock' true e f = drop e f refl
release-Move lock h i lock' false e f = keep f (sym e)
