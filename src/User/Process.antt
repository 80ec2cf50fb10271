-- ===== src/User/Process.antt =====
-- software/user/liblitepcie/litepcie_dma.c: a round of `litepcie_dma_process` against the driver.
use litepcie_ptm_test.Base.{
  ℕ, true, false, ◌-◌, ◌%◌, ◌^◌, ◌<◌, ◌≤◌, ◌≡◌, ◌≢◌, refl, sym, Option, none, some, arith, ne→==,
  bit_and,
}
use litepcie_ptm_test.Base.Word.{u32, add64, sub64}
use litepcie_ptm_test.Config.{dma_buffer_count}
use litepcie_ptm_test.Bus.{Hw}
use litepcie_ptm_test.File.{pollin, pollout}
use litepcie_ptm_test.File.Request.{EngineArgs, Request, Reply, give_back, Build, Session, nonzero}
use litepcie_ptm_test.File.Ioctl.{ioctl}
use litepcie_ptm_test.File.Ioctl.WriterEngine.{ioctl_dma_writer-asks}
use litepcie_ptm_test.User.{
  DmaCtrl, next_read_buffer, buf_offset, Polled, checked_ioctl, dma_writer, poll_writer,
  poll_reader, read_event, process,
}
use litepcie_ptm_test.User.Cursors.{calls, ring_buffers, ring_buffers-mod, calls-next_read_buffer}

abbrev pub args : ℕ → EngineArgs
args enable = record { enable = enable; hw_count = 0; sw_count = 0 }

pub nonzero_lem : (n : ℕ) → n ≢ 0 → nonzero n ≡ true
nonzero_lem n h = rw (ne→== n 0 h) refl

pub zero_lem : (n : ℕ) → n ≡ 0 → nonzero n ≡ false
zero_lem n h = rw h refl

module _ (hw : Hw) (b : Build) where
  ioctl_asks :
      (s : Session)
      → s.dma.writer_enable ≡ 1
      → ioctl hw b true (Request.dma_writer (some (args 1))) s
        ≡ give_back true
            (Reply.engine (record {
              enable = 1;
              hw_count = s.dma.writer_hw_count;
              sw_count = s.dma.writer_sw_count;
            }))
            s
  unfolding ioctl
  ioctl_asks s on = ioctl_dma_writer-asks hw true (args 1) s (sym on)

  -- Asking for the counts of a writer that is on.
  dma_writer_asks :
      (s : Session)
      → s.dma.writer_enable ≡ 1
      → dma_writer hw b 1 s ≡ some (s, (s.dma.writer_hw_count, s.dma.writer_sw_count))
  unfolding dma_writer checked_ioctl
  dma_writer_asks s on = rw (dma_writer, checked_ioctl, ioctl_asks s on, ioctl_asks s on) refl

  update_writer :
      (n : ℕ) (s : Session)
      → checked_ioctl hw b (Request.mmap_dma_writer_update (some n)) s
        ≡ some (record s { dma = record (s.dma) { writer_sw_count = n } }, none)
  unfolding checked_ioctl ioctl
  update_writer n s = refl

  -- The control block once it has the driver's counts of the writer.
  abbrev informed : DmaCtrl → Session → DmaCtrl
  informed c s = record c {
    writer_hw_count = s.dma.writer_hw_count;
    writer_sw_count = s.dma.writer_sw_count;
  }

  poll_writer_lem :
      (c : DmaCtrl) (s : Session)
      → c.use_writer ≢ 0
      → s.dma.writer_enable ≡ 1
      → poll_writer hw b c s ≡ some (informed c s, s)
  unfolding poll_writer
  poll_writer_lem c s uw on =
      rw (poll_writer, nonzero_lem c.use_writer uw, dma_writer_asks s on) refl

  poll_reader_off :
      (c : DmaCtrl) (s : Session) → c.use_reader ≡ 0 → poll_reader hw b c s ≡ some (c, s)
  unfolding poll_reader
  poll_reader_off c s ur = rw (poll_reader, zero_lem c.use_reader ur) refl

  -- The control block after a read event without copies.
  abbrev offered : DmaCtrl → DmaCtrl
  offered c = record c {
    buffers_available_read = c.writer_hw_count - c.writer_sw_count;
    usr_read_buf_offset = c.writer_sw_count % dma_buffer_count;
  }

  read_event_lem :
      (len : Option ℕ) (c : DmaCtrl) (s : Session)
      → c.zero_copy ≢ 0
      → c.writer_sw_count ≤ c.writer_hw_count
      → c.writer_hw_count < 2 ^ 63
      → c.writer_hw_count - c.writer_sw_count < 2 ^ 32
      → read_event hw b len c s
        ≡ some
            (offered c, record s { dma = record (s.dma) { writer_sw_count = c.writer_hw_count } })
  unfolding read_event
  read_event_lem len c s zc order small few =
      let count : u32 (sub64 c.writer_hw_count c.writer_sw_count)
          ≡ c.writer_hw_count - c.writer_sw_count =
        omega arith in
      let caught_up : add64 c.writer_sw_count (c.writer_hw_count - c.writer_sw_count)
          ≡ c.writer_hw_count =
        omega arith in
      let slot : buf_offset c.writer_sw_count ≡ c.writer_sw_count % dma_buffer_count =
        ground arith in
      rw (read_event, nonzero_lem c.zero_copy zc, count, caught_up, slot, update_writer) refl

  -- A round of `litepcie_dma_process` in a zero-copy program that uses the writer only, after poll
  -- has reported POLLIN and not POLLOUT, where the writer is on and its software count is at most
  -- its hardware count, that below 2 ^ 63 and the two fewer than 2 ^ 32 apart: the driver's software
  -- count catches up with its hardware count, nothing else of the driver changes, and the program
  -- then gets from `litepcie_dma_next_read_buffer` the buffers of the ring between the two counts, in
  -- order, and has none left.
  pub process_reads :
      (read_len write_len : Option ℕ) (revents : ℕ) (c : DmaCtrl) (s : Session)
      → c.use_writer ≢ 0
      → c.use_reader ≡ 0
      → c.zero_copy ≢ 0
      → s.dma.writer_enable ≡ 1
      → s.dma.writer_sw_count ≤ s.dma.writer_hw_count
      → s.dma.writer_hw_count < 2 ^ 63
      → s.dma.writer_hw_count - s.dma.writer_sw_count < 2 ^ 32
      → bit_and revents pollin ≢ 0
      → bit_and revents pollout ≡ 0
      → let n = s.dma.writer_hw_count - s.dma.writer_sw_count in
        (c' : DmaCtrl) × (process hw b (Polled.events revents) read_len write_len c s
          ≡ some
              (c', record s { dma = record (s.dma) { writer_sw_count = s.dma.writer_hw_count } }))
        × ((calls next_read_buffer n c').0 ≡ ring_buffers s.dma.writer_sw_count n)
        × ((calls next_read_buffer n c').1.buffers_available_read ≡ 0)
  unfolding process
  process_reads read_len write_len revents c s uw ur zc on order small few pin pout =
      let n = s.dma.writer_hw_count - s.dma.writer_sw_count in
      let c1 = informed c s in
      let c' = record (offered c1) { buffers_available_write = 0 } in
      let handed = calls-next_read_buffer n c' (omega arith) (omega arith) in
      let all : n - n ≡ 0 = omega arith in
      (
        c',
        rw
            (
              process,
              poll_writer_lem c s uw on,
              poll_reader_off c1 s ur,
              nonzero_lem (bit_and revents pollin) pin,
              read_event_lem read_len c1 s zc order small few,
              zero_lem (bit_and revents pollout) pout,
            )
            refl,
        rw handed (
            ring_buffers-mod (s.dma.writer_sw_count % dma_buffer_count) s.dma.writer_sw_count n
              (omega arith)),
        rw handed all,
      )
