-- ===== src/Tests/User.antt =====
-- The user library at concrete inputs.
use litepcie_ptm_test.Base.{◌≡◌, refl, arith, none, some, true}
use litepcie_ptm_test.File.Request.{Build, Session}
use litepcie_ptm_test.User.{DmaCtrl, Polled, next_read_buffer, next_write_buffer, process}
use litepcie_ptm_test.User.Cursors.{calls, ring_buffers}
use litepcie_ptm_test.User.Process.{process_reads}
use litepcie_ptm_test.User.Produce.{process_writes}
use litepcie_ptm_test.Config.{dma_buffer_total_size}
use litepcie_ptm_test.User.Setup.{Area, Start, no_areas, dma_init, dma_cleanup}
use litepcie_ptm_test.User.Lifetime.{
  holding, looped_back, both_set_up, dma_init_lem, dma_cleanup_lem,
}
use litepcie_ptm_test.Tests.Data.{idle_session, holds_none, busy_session, busy_chan, ones}

abbrev pub build : Build
build = record { flash_csr = none; icap_csr = none }

-- A zero-copy program that uses the writer, with 3 buffers left from slot 254 on.
abbrev pub ctrl : DmaCtrl
ctrl = record {
  use_reader = 0;
  use_writer = 1;
  loopback = 1;
  zero_copy = 1;
  events = 0;
  reader_hw_count = 0;
  reader_sw_count = 0;
  writer_hw_count = 0;
  writer_sw_count = 0;
  buffers_available_read = 3;
  buffers_available_write = 0;
  usr_read_buf_offset = 254;
  usr_write_buf_offset = 0;
}

abbrev both_ctrl : DmaCtrl
both_ctrl = record ctrl { use_reader = 1 }

process_reads_example :
    (c' : DmaCtrl) × (process ones build (Polled.events 0x41) none none ctrl busy_session
      ≡ some (c', record busy_session { dma = record busy_chan { writer_sw_count = 700 } }))
    × ((calls next_read_buffer 10 c').0 ≡ ring_buffers 690 10)
    × ((calls next_read_buffer 10 c').1.buffers_available_read ≡ 0)
process_reads_example =
    process_reads ones build none none 0x41 ctrl busy_session (λ e. absurd (omega (arith, e))) refl
      (λ e. absurd (omega (arith, e))) refl (omega arith) (omega arith) (omega arith)
      (λ e. absurd (omega (arith, e))) refl

-- The same program with the reader: 10 buffers are in flight, 118 more can be filled.
process_writes_example :
    (c' : DmaCtrl) × (process ones build
        (Polled.events 0x104)
        none
        none
        (record ctrl { use_reader = 1; use_writer = 0 })
        busy_session
      ≡ some (c', record busy_session { dma = record busy_chan { reader_sw_count = 428 } }))
    × ((calls next_write_buffer 118 c').0 ≡ ring_buffers 310 118)
    × ((calls next_write_buffer 118 c').1.buffers_available_write ≡ 0)
process_writes_example =
    process_writes ones build none none 0x104 (record ctrl { use_reader = 1; use_writer = 0 })
      busy_session refl (λ e. absurd (omega (arith, e))) (λ e. absurd (omega (arith, e))) refl
      (omega arith) (omega arith) (omega arith) refl (λ e. absurd (omega (arith, e)))

dma_init_lem_example :
    dma_init ones build (some idle_session) 1 true true both_ctrl
    ≡ some (
        Start.ready
          (both_set_up 1 both_ctrl)
          (record { buf_rd = Area.mapped dma_buffer_total_size; buf_wr = Area.mapped 0 })
          (looped_back 1 (holding idle_session)))
dma_init_lem_example =
    dma_init_lem ones build 1 both_ctrl idle_session (λ e. absurd (omega (arith, e)))
      (λ e. absurd (omega (arith, e))) (λ e. absurd (omega (arith, e))) refl refl

dma_cleanup_lem_example :
    (s' : Session) × (dma_cleanup ones build both_ctrl no_areas busy_session ≡ some (s', no_areas))
    × (s'.dma.reader_enable ≡ 0)
    × (s'.dma.writer_enable ≡ 0)
    × (s'.dma.reader_lock ≡ 0)
    × (s'.dma.writer_lock ≡ 0)
    × (s'.priv ≡ holds_none)
dma_cleanup_lem_example =
    dma_cleanup_lem ones build both_ctrl no_areas busy_session (λ e. absurd (omega (arith, e)))
      (λ e. absurd (omega (arith, e)))
