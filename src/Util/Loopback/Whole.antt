-- ===== src/Util/Loopback/Whole.antt =====
-- software/user/litepcie_util.c: `dma_test` from `litepcie_dma_init` to `litepcie_dma_cleanup`.
use litepcie_ptm_test.Base.{
  ℕ, true, false, ◌≤◌, ◌<◌, ◌≡◌, ◌≢◌, refl, List, some, arith, ◌||◌, ◌==◌, if◌then◌else◌, sym,
}
use litepcie_ptm_test.Util.Mask.{==→eq}
use litepcie_ptm_test.Base.Word.{slt32}
use litepcie_ptm_test.Config.{dma_buffer_total_size}
use litepcie_ptm_test.Bus.{Hw}
use litepcie_ptm_test.File.Request.{Build, Session}
use litepcie_ptm_test.User.{DmaCtrl}
use litepcie_ptm_test.User.Setup.{Area, Areas, no_areas}
use litepcie_ptm_test.User.Lifetime.{
  holding, looped_back, both_set_up, dma_init_lem, dma_cleanup_lem,
}
use litepcie_ptm_test.Util.Pattern.{buffer_words}
use litepcie_ptm_test.Util.Loopback.{LoopTest, Pass, dma_test}
use litepcie_ptm_test.Util.Loopback.Passes.{AllGood, test_loop-Between}

-- The control block before `litepcie_dma_init`.
abbrev pub asked : ℕ → DmaCtrl → DmaCtrl
asked external_loopback c = record c {
  use_reader = 1;
  use_writer = 1;
  loopback = if external_loopback == 0 then 1 else 0;
}

-- The control block that `dma_test` sets up, and the variables before its loop.
abbrev pub first_ctrl : (zero_copy external_loopback : ℕ) → DmaCtrl → DmaCtrl
first_ctrl zero_copy external_loopback c = both_set_up zero_copy (asked external_loopback c)

abbrev pub first_vars : (zero_copy external_loopback auto_rx_delay : ℕ) → LoopTest → LoopTest
first_vars zero_copy external_loopback auto_rx_delay t = record t {
  ctrl = first_ctrl zero_copy external_loopback t.ctrl;
  seed_wr = 0;
  seed_rd = 0;
  errors = 0;
  run = auto_rx_delay == 0;
  line = 0;
  reader_sw_count_last = 0;
}

-- The session at the start of its loop.
abbrev pub first_session : ℕ → Session → Session
first_session external_loopback s =
    looped_back (if external_loopback == 0 then 1 else 0) (holding s)

abbrev both_mapped : Areas
both_mapped = record { buf_rd = Area.mapped dma_buffer_total_size; buf_wr = Area.mapped 0 }

width_ok :
    (data_width : ℕ)
    → 11 ≤ data_width
    → data_width ≤ 30
    → slt32 32 data_width || slt32 data_width 1 ≡ false
width_ok w a b = ground arith

-- `dma_test` of a zero-copy program, for a width from 11 to 30 bits, on a channel whose locks are
-- free and a loopback that gives back, in each buffer that the test checks, the words from `delay` on
-- of a buffer that an earlier pass filled and the first `delay` words of another, where `delay` has
-- to be 0 if it is not searched for: where both mappings succeed and the driver's calls in each pass
-- do, with at most 256 buffers available at a time, it finds the words as they should be: after any
-- number of passes its count of errors, which each line of the statistics sets back, is 0. It ends
-- with both engines off, both locks free and no area mapped.
pub dma_test_lem :
    (hw : Hw) (b : Build) (undef data_width delay : ℕ)
    (zero_copy external_loopback auto_rx_delay : ℕ) (ps : List Pass) (t : LoopTest) (s : Session)
    → 11 ≤ data_width
    → data_width ≤ 30
    → delay < buffer_words
    → (auto_rx_delay ≡ 0 → delay ≡ 0)
    → zero_copy ≢ 0
    → s.dma.reader_lock ≡ 0
    → s.dma.writer_lock ≡ 0
    → AllGood undef data_width hw b delay
        (λ at. ⊥)
        ps
        (first_vars zero_copy external_loopback auto_rx_delay t)
        (first_session external_loopback s)
    → (u : LoopTest) × (s' : Session) × (dma_test undef data_width hw b
          (some s)
          true
          true
          zero_copy
          external_loopback
          auto_rx_delay
          ps
          t
        ≡ some (u, s', no_areas))
      × (u.errors ≡ 0)
      × (s'.dma.reader_enable ≡ 0)
      × (s'.dma.writer_enable ≡ 0)
      × (s'.dma.reader_lock ≡ 0)
      × (s'.dma.writer_lock ≡ 0)
unfolding dma_test
dma_test_lem hw b undef w delay zc ext auto ps t s wide narrow low known maps free_r free_w good =
    let (u, s1, loops, no_errors, uses_reader, uses_writer) =
      test_loop-Between undef w hw b delay (λ at. ⊥) ps (first_vars zc ext auto t)
        (first_session ext s) wide narrow low good
        (record {
          in_step = record { no_errors = refl; tuned = λ on. sym (known (==→eq auto 0 on)) };
          seed_zero = refl;
          filled = λ at was. absurd was;
          uses_reader = λ e. absurd (omega (arith, e));
          uses_writer = λ e. absurd (omega (arith, e));
        }) in
    let (s2, cleans, r_off, w_off, r_free, w_free, priv) =
      dma_cleanup_lem hw b u.ctrl both_mapped s1 uses_reader uses_writer in
    (
      u,
      s2,
      rw
          (
            width_ok w wide narrow,
            dma_init_lem hw b zc (asked ext t.ctrl) s (λ e. absurd (omega (arith, e)))
                (λ e. absurd (omega (arith, e))) maps free_r free_w,
            loops,
            cleans,
          )
          refl,
      no_errors,
      r_off,
      w_off,
      r_free,
      w_free,
    )
