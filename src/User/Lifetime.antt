-- ===== src/User/Lifetime.antt =====
-- software/user/liblitepcie/litepcie_dma.c: from `litepcie_dma_init` to `litepcie_dma_cleanup`.
use litepcie_ptm_test.Base.{
  ℕ, Bool, true, false, ◌+◌, ◌≡◌, ◌≢◌, refl, some, ne→==, ◌==◌, ◌∙◌, Bool-cases, inl, inr, bit_or,
}
use litepcie_ptm_test.Config.{dma_buffer_total_size, loopback_enable_offset}
use litepcie_ptm_test.Bus.{Hw, Trace, writel}
use litepcie_ptm_test.Dma.{dma_reader_stop, dma_writer_stop, DmaChan}
use litepcie_ptm_test.File.{pollin, pollout}
use litepcie_ptm_test.File.Request.{MmapDmaInfo, Build, Session}
use litepcie_ptm_test.File.Lock.{lock_reader, lock_writer, ioctl_lock}
use litepcie_ptm_test.File.Ioctl.{
  ioctl, ioctl_dma_writer, ioctl_dma_reader, switch_writer, switch_reader,
}
use litepcie_ptm_test.User.{
  DmaCtrl, checked_ioctl, request_dma, release_dma, dma_writer, dma_reader, cleanup,
}
use litepcie_ptm_test.User.Setup.{
  Area, Areas, no_areas, Start, set_up, get_areas, dma_set_loopback, dma_init, give_up_areas,
  dma_cleanup,
}

-- A file that holds both engines.
abbrev pub holding : Session → Session
holding s = record s {
  dma = record (s.dma) { writer_lock = 1; reader_lock = 1 };
  priv = record { reader = true; writer = true };
}

-- The write of `litepcie_dma_set_loopback`.
abbrev pub looped_back : ℕ → Session → Session
looped_back loopback s = record s {
  trace = writel (s.dma.base + loopback_enable_offset) loopback s.trace;
}

-- The control block of a program that uses both engines, after `litepcie_dma_init`.
abbrev pub both_set_up : ℕ → DmaCtrl → DmaCtrl
both_set_up zero_copy c = record c {
  reader_hw_count = 0;
  reader_sw_count = 0;
  writer_hw_count = 0;
  writer_sw_count = 0;
  zero_copy = zero_copy;
  events = bit_or (bit_or c.events pollout) pollin;
}

set_up-both :
    (zero_copy : ℕ) (c : DmaCtrl)
    → c.use_reader ≢ 0
    → c.use_writer ≢ 0
    → set_up zero_copy c ≡ both_set_up zero_copy c
unfolding set_up
set_up-both zero_copy c use_r use_w =
    rw (ne→== c.use_reader 0 use_r, ne→== c.use_writer 0 use_w) refl

get_areas-both :
    (c : DmaCtrl) (info : MmapDmaInfo) (s : Session)
    → c.use_reader ≢ 0
    → c.use_writer ≢ 0
    → c.zero_copy ≢ 0
    → get_areas c info true true s
      ≡ Start.ready c
          (record {
            buf_rd = Area.mapped info.dma_rx_buf_offset;
            buf_wr = Area.mapped info.dma_tx_buf_offset;
          })
          s
unfolding get_areas
get_areas-both c info s use_r use_w zc =
    rw (get_areas, ne→== c.use_writer 0 use_w, ne→== c.use_reader 0 use_r, ne→== c.zero_copy 0 zc)
      refl

module _ (hw : Hw) (b : Build) where
  request_both :
      (s : Session)
      → s.dma.reader_lock ≡ 0
      → s.dma.writer_lock ≡ 0
      → (r w : ℕ) → r ≢ 0
      → w ≢ 0
      → request_dma hw b r w s ≡ some (holding s, 1)
  unfolding request_dma checked_ioctl ioctl ioctl_lock lock_reader lock_writer
  request_both s free_r free_w r w use_r use_w =
      rw (ne→== r 0 use_r, ne→== w 0 use_w, free_r, free_w) refl

  -- `litepcie_dma_init` of a zero-copy program that uses both engines, with a file that holds none
  -- of them, on a channel whose locks are free, where both calls of mmap succeed: both locks are
  -- taken by this file, the loopback register is written, the buffers to read are the mapping at
  -- the end of the buffers to write, and those are at 0; the counts are 0.
  pub dma_init_lem :
      (zero_copy : ℕ) (c : DmaCtrl) (s : Session)
      → c.use_reader ≢ 0
      → c.use_writer ≢ 0
      → zero_copy ≢ 0
      → s.dma.reader_lock ≡ 0
      → s.dma.writer_lock ≡ 0
      → dma_init hw b (some s) zero_copy true true c
        ≡ some (
            Start.ready
              (both_set_up zero_copy c)
              (record { buf_rd = Area.mapped dma_buffer_total_size; buf_wr = Area.mapped 0 })
              (looped_back c.loopback (holding s)))
  unfolding dma_init dma_set_loopback checked_ioctl ioctl
  dma_init_lem zero_copy c s use_r use_w zc free_r free_w =
      rw
        (
          set_up-both zero_copy c use_r use_w,
          request_both s free_r free_w c.use_reader c.use_writer use_r use_w,
          ne→== zero_copy 0 zc,
          get_areas-both (both_set_up zero_copy c) _ _ use_r use_w zc,
        )
        refl

  -- `litepcie_dma_init` on a channel whose reader is locked, by whatever file: -1, with the file left
  -- open, with nothing mapped, with no register written; of the two locks the writer's is taken if
  -- it was free.
  pub dma_init_refused :
      (zero_copy : ℕ) (rd_ok wr_ok : Bool) (c : DmaCtrl) (s : Session)
      → c.use_reader ≢ 0
      → c.use_writer ≢ 0
      → s.dma.reader_lock ≢ 0
      → s.dma.writer_lock ≡ 0
      → dma_init hw b (some s) zero_copy rd_ok wr_ok c
        ≡ some (
            Start.failed
              (some (record s {
                dma = record (s.dma) { writer_lock = 1 };
                priv = record (s.priv) { writer = true };
              }))
              no_areas)
  unfolding dma_init request_dma checked_ioctl ioctl ioctl_lock lock_reader lock_writer
  dma_init_refused zero_copy rd_ok wr_ok c s use_r use_w locked free =
      rw
        (
          set_up-both zero_copy c use_r use_w,
          ne→== c.use_reader 0 use_r,
          ne→== c.use_writer 0 use_w,
          ne→== s.dma.reader_lock 0 locked,
          free,
        )
        refl

  -- The session after the reader was turned off, or found off; the writer is not touched.
  record ReaderOff (s s' : Session) : Type 0 where
    off : s'.dma.reader_enable ≡ 0
    writer : s'.dma.writer_enable ≡ s.dma.writer_enable

  switch_reader-writer :
      (d : DmaChan) (t : Trace) → (switch_reader hw 0 d t).0.writer_enable ≡ d.writer_enable
  unfolding switch_reader dma_reader_stop
  switch_reader-writer d t = elim (Bool-cases (0 == d.reader_enable)) [
    | inl same ↦ rw same refl
    | inr new ↦ rw new refl
  ]

  dma_reader-off :
      (s : Session)
      → (s' : Session) × (n : ℕ × ℕ) × (dma_reader hw b 0 s ≡ some (s', n)) × ReaderOff s s'
  unfolding dma_reader checked_ioctl ioctl ioctl_dma_reader
  dma_reader-off s =
      (_, _, refl, record { off = refl; writer = switch_reader-writer s.dma s.trace })

  -- The session after the writer was turned off, or found off; the reader is not touched.
  record WriterOff (s s' : Session) : Type 0 where
    off : s'.dma.writer_enable ≡ 0
    reader : s'.dma.reader_enable ≡ s.dma.reader_enable

  switch_writer-reader :
      (d : DmaChan) (t : Trace) → (switch_writer hw 0 d t).0.reader_enable ≡ d.reader_enable
  unfolding switch_writer dma_writer_stop
  switch_writer-reader d t = elim (Bool-cases (0 == d.writer_enable)) [
    | inl same ↦ rw same refl
    | inr new ↦ rw new refl
  ]

  dma_writer-off :
      (s : Session)
      → (s' : Session) × (n : ℕ × ℕ) × (dma_writer hw b 0 s ≡ some (s', n)) × WriterOff s s'
  unfolding dma_writer checked_ioctl ioctl ioctl_dma_writer
  dma_writer-off s =
      (_, _, refl, record { off = refl; reader = switch_writer-reader s.dma s.trace })

  -- The session that holds nothing any more.
  abbrev let_go : Session → Session
  let_go s = record s {
    dma = record (s.dma) { writer_lock = 0; reader_lock = 0 };
    priv = record { reader = false; writer = false };
  }

  release_both : (s : Session) (r w : ℕ) → r ≢ 0 → w ≢ 0 → release_dma hw b r w s ≡ some (let_go s)
  unfolding release_dma checked_ioctl ioctl ioctl_lock lock_reader lock_writer
  release_both s r w use_r use_w = rw (ne→== r 0 use_r, ne→== w 0 use_w) refl

  give_up_both :
      (c : DmaCtrl) (m : Areas) → c.use_reader ≢ 0 → c.use_writer ≢ 0 → give_up_areas c m ≡ no_areas
  unfolding give_up_areas
  give_up_both c m use_r use_w = elim (Bool-cases (c.zero_copy == 0)) [
    | inl copies ↦ rw copies refl
    | inr maps ↦ rw (maps, ne→== c.use_reader 0 use_r, ne→== c.use_writer 0 use_w) refl
  ]

  -- `litepcie_dma_cleanup` of a program that uses both engines, from any session: it does not abort;
  -- after it both engines are off, both locks are free and held by this file no more, and no area
  -- of memory is left.
  pub dma_cleanup_lem :
      (c : DmaCtrl) (m : Areas) (s : Session)
      → c.use_reader ≢ 0
      → c.use_writer ≢ 0
      → (s' : Session) × (dma_cleanup hw b c m s ≡ some (s', no_areas))
        × (s'.dma.reader_enable ≡ 0)
        × (s'.dma.writer_enable ≡ 0)
        × (s'.dma.reader_lock ≡ 0)
        × (s'.dma.writer_lock ≡ 0)
        × (s'.priv ≡ record { reader = false; writer = false })
  unfolding dma_cleanup cleanup
  dma_cleanup_lem c m s use_r use_w =
      let (s1, n1, e1, off1) = dma_reader-off s in
      let (s2, n2, e2, off2) = dma_writer-off s1 in
      (
        let_go s2,
        rw
            (
              ne→== c.use_reader 0 use_r,
              ne→== c.use_writer 0 use_w,
              e1,
              e2,
              release_both s2 c.use_reader c.use_writer use_r use_w,
              give_up_both c m use_r use_w,
            )
            refl,
        off2.reader ∙ off1.off,
        off2.off,
        refl,
        refl,
        refl,
      )
