-- ===== src/File/Session.antt =====
-- software/kernel/main.c: what open, release and poll do to a channel.
use litepcie_ptm_test.Base.{
  ℕ, Bool, true, false, ◌≡◌, refl, ◌∙◌, ap, subst, ◌+◌, ◌-◌, ◌/◌, ◌^◌, ◌<◌, ◌≤◌, [], some, arith,
  ◌==◌, if◌then◌else◌, Bool-cases, ltb, ==_refl, inl, inr,
}
use litepcie_ptm_test.Base.Bits.{bit}
use litepcie_ptm_test.Base.Word.{sub64, slt64}
use litepcie_ptm_test.Config.{
  Regs, reader_regs, writer_regs, dma_buffer_count, csr_pcie_msi_enable_addr,
}
use litepcie_ptm_test.Bus.{Trace, Hw, disable_interrupt}
use litepcie_ptm_test.Dma.{
  DmaChan, clear_reader_counts, clear_writer_counts, dma_reader_stop, dma_writer_stop,
}
use litepcie_ptm_test.Dma.Engine.{Engine, engine, on_write}
use litepcie_ptm_test.File.{
  Ret, Errno, ChanPriv, open_chan, release, release_reader, release_writer, poll, pollin,
  pollrdnorm, pollout, pollwrnorm,
}
use litepcie_ptm_test.File.Transfer.{Wait, early, write}

-- A file's opening as the specification has it: an engine that is off starts with counts of 0, an
-- engine that runs keeps its counts.
abbrev pub fresh : DmaChan → DmaChan
fresh d = record d {
  reader_hw_count = if d.reader_enable == 0 then 0 else d.reader_hw_count;
  reader_hw_count_last = if d.reader_enable == 0 then 0 else d.reader_hw_count_last;
  reader_sw_count = if d.reader_enable == 0 then 0 else d.reader_sw_count;
  writer_hw_count = if d.writer_enable == 0 then 0 else d.writer_hw_count;
  writer_hw_count_last = if d.writer_enable == 0 then 0 else d.writer_hw_count_last;
  writer_sw_count = if d.writer_enable == 0 then 0 else d.writer_sw_count;
}

-- `litepcie_open` fails with ENOMEM and leaves the channel alone if there is no memory. Otherwise
-- it succeeds, the file holds neither engine, the counts of an engine that is off are 0 and
-- nothing else of the channel changes.
pub open_chan_lem :
    (alloc : Bool) (d : DmaChan)
    → open_chan alloc d ≡ (
      if alloc then Ret.done 0 else Ret.fail Errno.enomem,
      if alloc then fresh d else d,
      record { reader = false; writer = false },
    )
unfolding open_chan
open_chan_lem false d = refl
open_chan_lem true d = elim (Bool-cases (d.reader_enable == 0)) [
  | inl r ↦ elim (Bool-cases (d.writer_enable == 0)) [
    | inl w ↦ rw (r, w) refl
    | inr w ↦ rw (r, w) refl
  ]
  | inr r ↦ elim (Bool-cases (d.writer_enable == 0)) [
    | inl w ↦ rw (r, w) refl
    | inr w ↦ rw (r, w) refl
  ]
]

abbrev pub halted : Engine → Engine
halted e = record e { enabled = 0; looping = 0; table = [] }

module _ (hw : Hw) where
  disable-engine :
      (r : Regs) (base irq : ℕ) (t : Trace)
      → csr_pcie_msi_enable_addr < base
      → engine r base (disable_interrupt hw irq t) ≡ engine r base t
  unfolding disable_interrupt engine on_write
  disable-engine r base irq t low = ground arith

  reader_stop_engines :
      (d : DmaChan) (t : Trace)
      → (engine reader_regs d.base (dma_reader_stop d t).1 ≡ halted (engine reader_regs d.base t))
        × (engine writer_regs d.base (dma_reader_stop d t).1 ≡ engine writer_regs d.base t)
        × ((dma_reader_stop d t).0 ≡ clear_reader_counts d)
  unfolding dma_reader_stop engine on_write
  reader_stop_engines d t = (ground arith, ground arith, refl)

  writer_stop_engines :
      (d : DmaChan) (t : Trace)
      → (engine writer_regs d.base (dma_writer_stop d t).1 ≡ halted (engine writer_regs d.base t))
        × (engine reader_regs d.base (dma_writer_stop d t).1 ≡ engine reader_regs d.base t)
        × ((dma_writer_stop d t).0 ≡ clear_writer_counts d)
  unfolding dma_writer_stop engine on_write
  writer_stop_engines d t = (ground arith, ground arith, refl)

  release_reader_lem :
      (p : ChanPriv) (d : DmaChan) (t : Trace)
      → csr_pcie_msi_enable_addr < d.base
      → let (d', t') = release_reader hw p d t in
        let e = engine reader_regs d.base t in
        (engine reader_regs d.base t' ≡ (if p.reader then halted e else e))
        × (engine writer_regs d.base t' ≡ engine writer_regs d.base t)
        × (d' ≡ (
            if p.reader
            then record (clear_reader_counts d) { reader_lock = 0; reader_enable = 0 }
            else d))
  unfolding release_reader
  release_reader_lem p d t low =
      let t1 = disable_interrupt hw d.reader_interrupt t in
      let (r, w, c) = reader_stop_engines d t1 in
      let same = disable-engine reader_regs d.base d.reader_interrupt t low in
      elim (Bool-cases p.reader) [
        | inl e ↦
            rw (e, c)
              (
                r ∙ ap halted same,
                w ∙ disable-engine writer_regs d.base d.reader_interrupt t low,
                refl,
              )
        | inr e ↦ rw e (refl, refl, refl)
      ]

  release_writer_lem :
      (p : ChanPriv) (d : DmaChan) (t : Trace)
      → csr_pcie_msi_enable_addr < d.base
      → let (d', t') = release_writer hw p d t in
        let e = engine writer_regs d.base t in
        (engine writer_regs d.base t' ≡ (if p.writer then halted e else e))
        × (engine reader_regs d.base t' ≡ engine reader_regs d.base t)
        × (d' ≡ (
            if p.writer
            then record (clear_writer_counts d) { writer_lock = 0; writer_enable = 0 }
            else d))
  unfolding release_writer
  release_writer_lem p d t low =
      let t1 = disable_interrupt hw d.writer_interrupt t in
      let (w, r, c) = writer_stop_engines d t1 in
      let same = disable-engine writer_regs d.base d.writer_interrupt t low in
      elim (Bool-cases p.writer) [
        | inl e ↦
            rw (e, c)
              (
                w ∙ ap halted same,
                r ∙ disable-engine reader_regs d.base d.writer_interrupt t low,
                refl,
              )
        | inr e ↦ rw e (refl, refl, refl)
      ]

  -- `litepcie_release`, on a channel whose registers lie above the MSI registers: it succeeds; each
  -- engine that the file holds ends disabled, out of loop mode and with an empty table, with its
  -- lock, its enable flag and its counts 0; an engine that the file does not hold is left as it
  -- was.
  pub release_lem :
      (p : ChanPriv) (d : DmaChan) (t : Trace)
      → csr_pcie_msi_enable_addr < d.base
      → let (ret, d', t') = release hw p d t in
        let r = engine reader_regs d.base t in
        let w = engine writer_regs d.base t in
        let d1 =
          if p.reader
          then record (clear_reader_counts d) { reader_lock = 0; reader_enable = 0 }
          else d in
        (ret ≡ Ret.done 0)
        × (engine reader_regs d.base t' ≡ (if p.reader then halted r else r))
        × (engine writer_regs d.base t' ≡ (if p.writer then halted w else w))
        × (d' ≡ (
            if p.writer
            then record (clear_writer_counts d1) { writer_lock = 0; writer_enable = 0 }
            else d1))
  unfolding release
  release_lem p d t low =
      let (d1, t1) = release_reader hw p d t in
      let (d2, t2) = release_writer hw p d1 t1 in
      let (r, w, c) = release_reader_lem p d t low in
      let base : d1.base ≡ d.base =
        ap (λ x. x.base) c
        ∙ (elim (Bool-cases p.reader) [ inl e ↦ rw e refl | inr e ↦ rw e refl ]) in
      let (w', r', c') = release_writer_lem p d1 t1 (rw base low) in
      let idle_reader = subst (λ n. engine reader_regs n t2 ≡ engine reader_regs n t1) base r' in
      let held : Engine → Engine = λ e. if p.writer then halted e else e in
      let writer = subst (λ n. engine writer_regs n t2 ≡ held (engine writer_regs n t1)) base w' in
      (
        refl,
        idle_reader ∙ r,
        writer ∙ ap held w,
        c'
            ∙ ap
                (λ x.
                  if p.writer
                  then record (clear_writer_counts x) { writer_lock = 0; writer_enable = 0 }
                  else x)
                c,
      )

-- `litepcie_poll`, where the writer's software count is not past its hardware count and the
-- reader's hardware count not past its software count, all below 2^63: POLLIN | POLLRDNORM exactly
-- if more than 2 buffers are ready, POLLOUT | POLLWRNORM exactly if fewer than half of the ring's
-- buffers wait to be sent.
pub poll_events :
    (d : DmaChan)
    → d.writer_sw_count ≤ d.writer_hw_count
    → d.writer_hw_count < 2 ^ 63
    → d.reader_hw_count ≤ d.reader_sw_count
    → d.reader_sw_count < 2 ^ 63
    → poll d
      ≡ (if ltb 2 (d.writer_hw_count - d.writer_sw_count) then pollin + pollrdnorm else 0)
        + (if ltb (d.reader_sw_count - d.reader_hw_count) (dma_buffer_count / 2)
            then pollout + pollwrnorm
            else 0)
unfolding poll
poll_events d a b c e =
    let w : slt64 2 (sub64 d.writer_hw_count d.writer_sw_count)
        ≡ ltb 2 (d.writer_hw_count - d.writer_sw_count) =
      ground arith in
    let r : slt64 (sub64 d.reader_sw_count d.reader_hw_count) (dma_buffer_count / 2)
        ≡ ltb (d.reader_sw_count - d.reader_hw_count) (dma_buffer_count / 2) =
      ground arith in
    rw (w, r)
      (elim (Bool-cases (ltb 2 (d.writer_hw_count - d.writer_sw_count))) [
        | inl x ↦
            elim (Bool-cases (ltb (d.reader_sw_count - d.reader_hw_count) (dma_buffer_count / 2))) [
              | inl y ↦ rw (x, y) refl
              | inr y ↦ rw (x, y) refl
            ]
        | inr x ↦
            elim (Bool-cases (ltb (d.reader_sw_count - d.reader_hw_count) (dma_buffer_count / 2))) [
              | inl y ↦ rw (x, y) refl
              | inr y ↦ rw (x, y) refl
            ]
      ])

write_idle :
    (d : DmaChan) (size : ℕ) (wait : Wait) (seen : ℕ → ℕ) (copied : ℕ → Bool) (block_size : ℕ)
    → d.reader_hw_count ≡ d.reader_sw_count
    → write true wait seen copied block_size size d ≡ some (early Errno.eagain d.reader_sw_count)
unfolding write
write_idle d size wait seen copied block_size e =
    let idle : (d.reader_hw_count == d.reader_sw_count) ≡ true = rw e (==_refl _) in
    rw (write, idle) refl

-- On a channel whose reader has sent all that was written, the counts being equal and below 2 ^ 63,
-- poll reports POLLOUT, and yet a non-blocking write of any size returns EAGAIN and copies nothing.
pub poll-write_eagain :
    (d : DmaChan) (size : ℕ) (wait : Wait) (seen : ℕ → ℕ) (copied : ℕ → Bool) (block_size : ℕ)
    → d.reader_sw_count < 2 ^ 63
    → d.reader_hw_count ≡ d.reader_sw_count
    → (bit 2 (poll d) ≡ 1)
      × (write true wait seen copied block_size size d
          ≡ some (early Errno.eagain d.reader_sw_count))
unfolding poll
poll-write_eagain d size wait seen copied block_size b e =
    let room : slt64 (sub64 d.reader_sw_count d.reader_hw_count) (dma_buffer_count / 2) ≡ true =
      ground arith in
    (
      rw room (elim (Bool-cases (slt64 2 (sub64 d.writer_hw_count d.writer_sw_count))) [
        | inl x ↦ rw x refl
        | inr x ↦ rw x refl
      ]),
      write_idle d size wait seen copied block_size e,
    )
