-- ===== src/File/Lock/Owners.antt =====
-- The lock ioctl as a protocol between the open files of one channel.
use litepcie_ptm_test.Base.{
  Option, none, some, ℕ, Bool, true, false, ◌≡◌, sym, ◌∙◌, ap, subst, fun_ext, ◌⊎◌, inl, arith,
  ◌==◌, if◌then◌else◌,
}
use litepcie_ptm_test.Bus.{Trace, Hw}
use litepcie_ptm_test.Dma.{DmaChan}
use litepcie_ptm_test.File.{ChanPriv, release, open_chan}
use litepcie_ptm_test.File.Request.{LockArgs, Session}
use litepcie_ptm_test.File.Lock.{lock_reader, lock_writer, ioctl_lock}
use litepcie_ptm_test.File.Lock.Moves.{
  Move, keep, OneOwner, Move-OneOwner, lock_reader-Move, lock_writer-Move, sess-ioctl_lock,
  opens_locks, releases, release-Move,
}

-- Who holds what.
abbrev pub reads : Option ChanPriv → Bool
reads none = false
reads (some p) = p.reader

abbrev pub writes : Option ChanPriv → Bool
writes none = false
writes (some p) = p.writer

-- A channel with its open files; a file that is not open has no private data.
pub record World : Type 0 where
  pub dma : DmaChan
  pub trace : Trace
  pub files : ℕ → Option ChanPriv

abbrev pub update : (ℕ → Option ChanPriv) → ℕ → Option ChanPriv → ℕ → Option ChanPriv
update f i o j = if j == i then o else f j

abbrev pub session : World → ChanPriv → Session
session w p = record { dma = w.dma; priv = p; trace = w.trace }

-- The files take turns in any order. A file releases only what it holds. `work` is anything else
-- that goes on: it may change the channel and the registers, but not the two locks.
pub data Step (hw : Hw) (w : World) : World → Type 0 where
  opens :
      (i : ℕ)
      → w.files i ≡ none
      → Step hw w (record w {
        dma = (open_chan true (w.dma)).1;
        files = update (w.files) i (some (open_chan true (w.dma)).2);
      })
  asks :
      (i : ℕ) (p : ChanPriv) (m : LockArgs) (copy_ok : Bool)
      → w.files i ≡ some p
      → (m.dma_reader_release ≡ 0) ⊎ (p.reader ≡ true)
      → (m.dma_writer_release ≡ 0) ⊎ (p.writer ≡ true)
      → Step hw w (record w {
        dma = (ioctl_lock copy_ok m (session w p)).sess.dma;
        files = update (w.files) i (some (ioctl_lock copy_ok m (session w p)).sess.priv);
      })
  closes :
      (i : ℕ) (p : ChanPriv)
      → w.files i ≡ some p
      → Step hw w (record {
        dma = (release hw p (w.dma) (w.trace)).1;
        trace = (release hw p (w.dma) (w.trace)).2;
        files = update (w.files) i none;
      })
  work :
      (d : DmaChan) (t : Trace)
      → d.reader_lock ≡ w.dma.reader_lock
      → d.writer_lock ≡ w.dma.writer_lock
      → Step hw w (record w { dma = d; trace = t })

reads-update :
    (f : ℕ → Option ChanPriv) (i : ℕ) (o : Option ChanPriv)
    → ◌≡◌ {A = ℕ → Bool}
        (λ j. reads (update f i o j))
        (λ j. if j == i then reads o else reads (f j))
reads-update f i o = fun_ext λ j. ground arith

writes-update :
    (f : ℕ → Option ChanPriv) (i : ℕ) (o : Option ChanPriv)
    → ◌≡◌ {A = ℕ → Bool}
        (λ j. writes (update f i o j))
        (λ j. if j == i then writes o else writes (f j))
writes-update f i o = fun_ext λ j. ground arith

-- Both locks of a channel have at most one owner.
pub record IsOwned (w : World) : Type 0 where
  pub reader : OneOwner w.dma.reader_lock (λ i. reads (w.files i))
  pub writer : OneOwner w.dma.writer_lock (λ i. writes (w.files i))

-- The two locks move together with the file that acts.
Moves-IsOwned :
    (w : World) (i : ℕ) (o : Option ChanPriv) (d : DmaChan) (t : Trace)
    → IsOwned w
    → Move w.dma.reader_lock (λ j. reads (w.files j)) i d.reader_lock (reads o)
    → Move w.dma.writer_lock (λ j. writes (w.files j)) i d.writer_lock (writes o)
    → IsOwned (record { dma = d; trace = t; files = update (w.files) i o })
Moves-IsOwned w i o d t own r s = record {
  reader = rw (reads-update w.files i o) (Move-OneOwner _ _ i _ _ own.reader r);
  writer = rw (writes-update w.files i o) (Move-OneOwner _ _ i _ _ own.writer s);
}

asks-IsOwned :
    (w : World) (i : ℕ) (p : ChanPriv) (m : LockArgs) (copy_ok : Bool)
    → w.files i ≡ some p
    → (m.dma_reader_release ≡ 0) ⊎ (p.reader ≡ true)
    → (m.dma_writer_release ≡ 0) ⊎ (p.writer ≡ true)
    → IsOwned w
    → let s = (ioctl_lock copy_ok m (session w p)).sess in
      IsOwned (record w { dma = s.dma; files = update (w.files) i (some s.priv) })
asks-IsOwned w i p m copy_ok e rp wp own =
    let s1 = (lock_reader m (session w p)).0 in
    let (r, kept, same) = lock_reader-Move _ i m (session w p) own.reader (ap reads e) rp in
    let (l, kept', same') =
      lock_writer-Move (λ j. writes (w.files j)) i m s1 (rw kept own.writer)
        (ap writes e ∙ sym same) (rw same wp) in
    rw (sess-ioctl_lock copy_ok m (session w p)) (
      Moves-IsOwned w i (some (lock_writer m s1).0.priv) _ w.trace own (rw (kept', same') r) (
        subst
          (λ x.
            Move x (λ j. writes (w.files j)) i (lock_writer m s1).0.dma.writer_lock
              (lock_writer m s1).0.priv.writer)
          kept l))

-- A step keeps both locks owned.
Step-IsOwned : {hw : Hw} {w w' : World} → Step hw w w' → IsOwned w → IsOwned w'
Step-IsOwned {w = w} (opens i e) own =
    let (r, l, p) = opens_locks w.dma in
    Moves-IsOwned w i (some (open_chan true (w.dma)).2) _ _ own
      (keep r (ap (λ q. q.reader) p ∙ sym (ap reads e)))
      (keep l (ap (λ q. q.writer) p ∙ sym (ap writes e)))
Step-IsOwned {w = w} (asks i p m copy_ok e rp wp) own = asks-IsOwned w i p m copy_ok e rp wp own
Step-IsOwned {hw} {w = w} (closes i p e) own =
    let (r, l) = releases hw p w.dma w.trace in
    Moves-IsOwned w i none _ _ own (release-Move _ _ i _ p.reader (ap reads e) r)
      (release-Move _ _ i _ p.writer (ap writes e) l)
Step-IsOwned (work d t e f) own = record { reader = rw e own.reader; writer = rw f own.writer }

-- The worlds that any number of steps leads to.
pub data Reach (hw : Hw) (start : World) : World → Type 0 where
  begin : Reach hw start start
  next : {w w' : World} → Reach hw start w → Step hw w w' → Reach hw start w'

pub Reach-IsOwned : {hw : Hw} {s w : World} → IsOwned s → Reach hw s w → IsOwned w
Reach-IsOwned own begin = own
Reach-IsOwned own (next r s) = Step-IsOwned s (Reach-IsOwned own r)

-- Start with all files closed and both locks 0, and let any number of files open, ask for and give
-- back the engines, and close, in any order, each releasing only what it holds, with any steps
-- between that leave the two locks alone. Then each of the two locks is 1 or 0, no two files hold
-- the same engine, its lock is 1 while a file holds it, and a lock that is 1 has a file that holds
-- the engine.
pub mutual_exclusion :
    (hw : Hw) (s w : World)
    → s.dma.reader_lock ≡ 0
    → s.dma.writer_lock ≡ 0
    → ((i : ℕ) → s.files i ≡ none)
    → Reach hw s w
    → IsOwned w
mutual_exclusion hw s w r l closed = Reach-IsOwned (record {
  reader = record {
    exclusive = λ i j p q. absurd (ground (arith, ap reads (closed i)));
    locked = λ i p. absurd (ground (arith, ap reads (closed i)));
    owned = inl r;
  };
  writer = record {
    exclusive = λ i j p q. absurd (ground (arith, ap writes (closed i)));
    locked = λ i p. absurd (ground (arith, ap writes (closed i)));
    owned = inl l;
  };
})
