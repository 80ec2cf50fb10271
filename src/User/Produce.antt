-- ===== src/User/Produce.antt =====
-- software/user/liblitepcie/litepcie_dma.c: the write side of a round of `litepcie_dma_process`.
use litepcie_ptm_test.Base.{
  ℕ, ◌+◌, ◌-◌, ◌/◌, ◌%◌, ◌^◌, ◌<◌, ◌≤◌, ◌≡◌, ◌≢◌, refl, sym, true, Option, none, some, arith,
  bit_and,
}
use litepcie_ptm_test.Base.Word.{u32, add64, sub64}
use litepcie_ptm_test.Config.{dma_buffer_count}
use litepcie_ptm_test.Bus.{Hw}
use litepcie_ptm_test.File.{pollin, pollout}
use litepcie_ptm_test.File.Request.{Request, Reply, give_back, Build, Session}
use litepcie_ptm_test.File.Ioctl.{ioctl}
use litepcie_ptm_test.File.Ioctl.ReaderEngine.{ioctl_dma_reader-asks}
use litepcie_ptm_test.User.{
  DmaCtrl, next_write_buffer, buf_offset, Polled, checked_ioctl, dma_reader, poll_writer,
  poll_reader, write_event, process,
}
use litepcie_ptm_test.User.Cursors.{calls, ring_buffers, ring_buffers-mod, calls-next_write_buffer}
use litepcie_ptm_test.User.Process.{args, nonzero_lem, zero_lem}

module _ (hw : Hw) (b : Build) where
  ioctl_asks :
      (s : Session)
      → s.dma.reader_enable ≡ 1
      → ioctl hw b true (Request.dma_reader (some (args 1))) s
        ≡ give_back true
            (Reply.engine (record {
              enable = 1;
              hw_count = s.dma.reader_hw_count;
              sw_count = s.dma.reader_sw_count;
            }))
            s
  unfolding ioctl
  ioctl_asks s on = ioctl_dma_reader-asks hw true (args 1) s (sym on)

  -- Asking for the counts of a reader that is on.
  dma_reader_asks :
      (s : Session)
      → s.dma.reader_enable ≡ 1
      → dma_reader hw b 1 s ≡ some (s, (s.dma.reader_hw_count, s.dma.reader_sw_count))
  unfolding dma_reader checked_ioctl
  dma_reader_asks s on = rw (dma_reader, checked_ioctl, ioctl_asks s on, ioctl_asks s on) refl

  update_reader :
      (n : ℕ) (s : Session)
      → checked_ioctl hw b (Request.mmap_dma_reader_update (some n)) s
        ≡ some (record s { dma = record (s.dma) { reader_sw_count = n } }, none)
  unfolding checked_ioctl ioctl
  update_reader n s = refl

  -- The control block once it has the driver's counts of the reader.
  abbrev informed : DmaCtrl → Session → DmaCtrl
  informed c s = record c {
    reader_hw_count = s.dma.reader_hw_count;
    reader_sw_count = s.dma.reader_sw_count;
  }

  poll_reader_lem :
      (c : DmaCtrl) (s : Session)
      → c.use_reader ≢ 0
      → s.dma.reader_enable ≡ 1
      → poll_reader hw b c s ≡ some (informed c s, s)
  unfolding poll_reader
  poll_reader_lem c s ur on =
      rw (poll_reader, nonzero_lem c.use_reader ur, dma_reader_asks s on) refl

  poll_writer_off :
      (c : DmaCtrl) (s : Session) → c.use_writer ≡ 0 → poll_writer hw b c s ≡ some (c, s)
  unfolding poll_writer
  poll_writer_off c s uw = rw (poll_writer, zero_lem c.use_writer uw) refl

  -- The control block after a write event without copies.
  abbrev offered : DmaCtrl → DmaCtrl
  offered c = record c {
    buffers_available_write = c.reader_hw_count + dma_buffer_count / 2 - c.reader_sw_count;
    usr_write_buf_offset = c.reader_sw_count % dma_buffer_count;
  }

  write_event_lem :
      (len : Option ℕ) (c : DmaCtrl) (s : Session)
      → c.zero_copy ≢ 0
      → c.reader_hw_count ≤ c.reader_sw_count
      → c.reader_sw_count ≤ c.reader_hw_count + dma_buffer_count / 2
      → c.reader_hw_count + dma_buffer_count / 2 < 2 ^ 63
      → write_event hw b len c s
        ≡ some (
          offered c,
          record s {
            dma = record (s.dma) { reader_sw_count = c.reader_hw_count + dma_buffer_count / 2 };
          },
        )
  unfolding write_event
  write_event_lem len c s zc order room small =
      let n = c.reader_hw_count + dma_buffer_count / 2 - c.reader_sw_count in
      let count : u32 (sub64 (dma_buffer_count / 2) (sub64 c.reader_sw_count c.reader_hw_count))
          ≡ n =
        omega arith in
      let filled : add64 c.reader_sw_count n ≡ c.reader_hw_count + dma_buffer_count / 2 =
        omega arith in
      let slot : buf_offset c.reader_sw_count ≡ c.reader_sw_count % dma_buffer_count =
        ground arith in
      rw (write_event, nonzero_lem c.zero_copy zc, count, filled, slot, update_reader) refl

  -- A round of `litepcie_dma_process` in a zero-copy program that uses the reader only, after poll
  -- has reported POLLOUT and not POLLIN, where the reader is on and at most half of the ring's
  -- buffers are in flight, with counts below 2 ^ 63: the driver's software count moves to half the
  -- ring beyond its hardware count, nothing else of the driver changes, and the program then gets
  -- from `litepcie_dma_next_write_buffer` the buffers of the ring from the old software count to the
  -- new one, in order, and has none left.
  pub process_writes :
      (read_len write_len : Option ℕ) (revents : ℕ) (c : DmaCtrl) (s : Session)
      → c.use_writer ≡ 0
      → c.use_reader ≢ 0
      → c.zero_copy ≢ 0
      → s.dma.reader_enable ≡ 1
      → s.dma.reader_hw_count ≤ s.dma.reader_sw_count
      → s.dma.reader_sw_count ≤ s.dma.reader_hw_count + dma_buffer_count / 2
      → s.dma.reader_hw_count + dma_buffer_count / 2 < 2 ^ 63
      → bit_and revents pollin ≡ 0
      → bit_and revents pollout ≢ 0
      → let ahead = s.dma.reader_hw_count + dma_buffer_count / 2 in
        let n = ahead - s.dma.reader_sw_count in
        (c' : DmaCtrl) × (process hw b (Polled.events revents) read_len write_len c s
          ≡ some (c', record s { dma = record (s.dma) { reader_sw_count = ahead } }))
        × ((calls next_write_buffer n c').0 ≡ ring_buffers s.dma.reader_sw_count n)
        × ((calls next_write_buffer n c').1.buffers_available_write ≡ 0)
  unfolding process
  process_writes read_len write_len revents c s uw ur zc on order room small pin pout =
      let n = s.dma.reader_hw_count + dma_buffer_count / 2 - s.dma.reader_sw_count in
      let c1 = informed c s in
      let c2 = record c1 { buffers_available_read = 0 } in
      let c' = offered c2 in
      let handed = calls-next_write_buffer n c' (omega arith) (omega arith) in
      let all : n - n ≡ 0 = omega arith in
      (
        c',
        rw
            (
              process,
              poll_writer_off c s uw,
              poll_reader_lem c s ur on,
              zero_lem (bit_and revents pollin) pin,
              nonzero_lem (bit_and revents pollout) pout,
              write_event_lem write_len c2 s zc order room small,
            )
            refl,
        rw handed (
            ring_buffers-mod (s.dma.reader_sw_count % dma_buffer_count) s.dma.reader_sw_count n
              (omega arith)),
        rw handed all,
      )
