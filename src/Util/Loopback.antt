-- ===== src/Util/Loopback.antt =====
-- software/user/litepcie_util.c: `dma_test`, the loopback test of the DMA engines.
pub mod Receive
pub mod Transmit
pub mod Shift
pub mod Passes
pub mod Whole
use litepcie_ptm_test.Base.{
  ℕ, zero, suc, Bool, true, false, ◌+◌, ◌-◌, ◌*◌, ◌/◌, ◌^◌, List, [], ◌∷◌, Option, none, some, ◌==◌,
  ◌&&◌, ◌||◌, ltb, if◌then◌else◌,
}
use litepcie_ptm_test.Base.Word.{u32, slt32, slt64}
use litepcie_ptm_test.Config.{dma_buffer_count}
use litepcie_ptm_test.Bus.{Hw}
use litepcie_ptm_test.File.Request.{Build, Session}
use litepcie_ptm_test.User.{DmaCtrl, Polled, next_read_buffer, next_write_buffer, process, ◌>>=◌}
use litepcie_ptm_test.User.Setup.{Areas, Start, ready, failed, dma_init, dma_cleanup}
use litepcie_ptm_test.Util.Pattern.{buffer_words, write_pn_data, check_pn_data}

-- An area of DMA memory: the words of the buffer at each offset.
abbrev pub Memory : Type 0
Memory = ℕ → List ℕ

abbrev pub put : Memory → ℕ → List ℕ → Memory
put mem at buf off = if off == at then buf else mem off

-- `n` words 0
abbrev pub cleared : ℕ → List ℕ
cleared zero = []
cleared (suc n) = 0 ∷ cleared n

-- The variables of `dma_test`; `line` is `i`.
pub record LoopTest : Type 0 where
  pub ctrl : DmaCtrl
  pub buf_wr : Memory
  pub buf_rd : Memory
  pub seed_wr : ℕ
  pub seed_rd : ℕ
  pub errors : ℕ
  pub run : Bool
  pub line : ℕ
  pub reader_sw_count_last : ℕ

-- The statistics, `duration` milliseconds after the last ones.
unfoldable pub statistics : ℕ → LoopTest → LoopTest
statistics duration t =
    if t.run && slt64 200 duration
    then record t {
      line = u32 (t.line + 1);
      errors = 0;
      reader_sw_count_last = t.ctrl.reader_sw_count;
    }
    else t

-- What the world brings to one pass of the test loop: the result of poll(2), read(2) and
-- write(2), the memory that the device has filled, the time.
pub record Pass : Type 0 where
  pub polled : Polled
  pub read_len : Option ℕ
  pub write_len : Option ℕ
  pub received : Memory
  pub duration : ℕ

module _ (undef data_width : ℕ) where
  -- The DMA-TX loop: fill every buffer that is available for writing.
  unfoldable pub tx_loop : ℕ → LoopTest → Option LoopTest
  tx_loop zero t = none
  tx_loop (suc fuel) t =
      let (buf, c) = next_write_buffer t.ctrl in
      elim buf [
        | none ↦ some (record t { ctrl = c })
        | some at ↦
            let (words, seed) = write_pn_data undef buffer_words t.seed_wr data_width in
            tx_loop fuel (record t { ctrl = c; buf_wr = put t.buf_wr at words; seed_wr = seed })
      ]

  -- The search for the delay, with `left` delays to try. The least number of errors is only
  -- printed.
  unfoldable pub find_delay : ℕ → ℕ → List ℕ → LoopTest → LoopTest
  find_delay zero delay buf t = t
  find_delay (suc left) delay buf t =
      let (errors, seed) = check_pn_data undef buf delay data_width in
      let t' = record t { seed_rd = seed; errors = u32 errors } in
      elim (ltb (u32 errors) (buffer_words / 2)) [
        | true ↦ record t' { run = true }
        | false ↦ find_delay left (delay + 1) buf t'
      ]

  -- What the DMA-RX loop does with the buffer at offset `at`.
  unfoldable pub rx_buffer : ℕ → LoopTest → LoopTest
  rx_buffer at t =
      if t.run
      then (let (errors, seed) = check_pn_data undef (t.buf_rd at) t.seed_rd data_width in
          record t {
            errors = u32 (t.errors + errors);
            seed_rd = seed;
            buf_rd = put t.buf_rd at (cleared buffer_words);
          })
      else find_delay buffer_words 0 (t.buf_rd at) t

  -- The DMA-RX loop; `false` is the jump to `end`.
  unfoldable pub rx_loop : ℕ → LoopTest → Option (Bool × LoopTest)
  rx_loop zero t = none
  rx_loop (suc fuel) t =
      let (buf, c) = next_read_buffer t.ctrl in
      let t = record t { ctrl = c } in
      elim buf [
        | none ↦ some (true, t)
        | some at ↦ elim (slt64 c.writer_hw_count (128 * dma_buffer_count)) [
          | true ↦ some (true, t)
          | false ↦
              let t' = rx_buffer at t in
              elim (t'.run) [ true ↦ rx_loop fuel t' | false ↦ some (false, t') ]
        ]
      ]

  module _ (hw : Hw) (b : Build) where
    -- One pass of the test loop. Each inner loop ends after the buffers that are available.
    unfoldable pub test_pass : Pass → LoopTest → Session → Option (Bool × LoopTest × Session)
    test_pass p t s = do
      (c, s) ← process hw b p.polled p.read_len p.write_len t.ctrl s
      t ← tx_loop (c.buffers_available_write + 1) (record t { ctrl = c; buf_rd = p.received })
      (go, t) ← rx_loop (c.buffers_available_read + 1) t
      some (go, (if go then statistics p.duration t else t), s)

    -- The test loop: the passes until `keep_running` is cleared.
    unfoldable pub test_loop : List Pass → LoopTest → Session → Option (LoopTest × Session)
    test_loop [] t s = some (t, s)
    test_loop (p ∷ ps) t s = do
      (go, t, s) ← test_pass p t s
      elim go [ true ↦ test_loop ps t s | false ↦ some (t, s) ]

    -- `dma_test`, as `main` calls it: `opened` is the session that open(2) gives, `rd_ok` and `wr_ok`
    -- the success of mmap or calloc, `t` the variables before the test; `none` is exit(1) or abort.
    unfoldable pub dma_test :
        Option Session
        → (rd_ok wr_ok : Bool) → (zero_copy external_loopback auto_rx_delay : ℕ) → List Pass
        → LoopTest
        → Option (LoopTest × Session × Areas)
    dma_test opened rd_ok wr_ok zero_copy external_loopback auto_rx_delay ps t =
        if slt32 32 data_width || slt32 data_width 1
        then none
        else (dma_init hw b opened zero_copy rd_ok wr_ok (record (t.ctrl) {
          use_reader = 1;
          use_writer = 1;
          loopback = if external_loopback == 0 then 1 else 0;
        })
            >>= λ start. elim start [
              | failed file areas ↦ none
              | ready c areas s ↦
                  test_loop ps
                    (record t {
                      ctrl = c;
                      seed_wr = 0;
                      seed_rd = 0;
                      errors = 0;
                      run = auto_rx_delay == 0;
                      line = 0;
                      reader_sw_count_last = 0;
                    })
                    s
                  >>= λ r. dma_cleanup hw b r.0.ctrl areas r.1 >>= λ q. some (r.0, q.0, q.1)
            ])
