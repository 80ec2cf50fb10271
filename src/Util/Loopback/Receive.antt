-- ===== src/Util/Loopback/Receive.antt =====
-- software/user/litepcie_util.c, `dma_test`: the buffers that come back through the loopback.
use litepcie_ptm_test.Base.{
  ℕ, zero, suc, true, false, ◌+◌, ◌-◌, ◌*◌, ◌%◌, ◌≤◌, ◌<◌, ◌≡◌, ◌≢◌, refl, List, some, none, arith,
  ◌==◌, ne→==, inl, inr, Bool-cases, ◌∙◌, ap, ℕ_discrete, subst,
}
use litepcie_ptm_test.Base.Word.{u32, slt64}
use litepcie_ptm_test.Config.{dma_buffer_count, dma_buffer_size}
use litepcie_ptm_test.User.{DmaCtrl, next_read_buffer}
use litepcie_ptm_test.User.Uses.{SameUse}
use litepcie_ptm_test.Util.Pattern.{buffer_words, get_data_mask, check_pn_data}
use litepcie_ptm_test.Util.Mask.{get_data_mask-full}
use litepcie_ptm_test.Util.Check.{
  pattern_words, check_pn_data_lem, mismatches-pattern_words, length-pattern_words,
}
use litepcie_ptm_test.Util.Delay.{mismatches-shifted}
use litepcie_ptm_test.Util.Loopback.{Memory, put, cleared, LoopTest, find_delay, rx_buffer, rx_loop}

-- The offset of the buffer `j` places behind slot `off` of the ring.
abbrev pub ring_offset : ℕ → ℕ → ℕ
ring_offset off j = (off + j) % dma_buffer_count * dma_buffer_size

pub following : (off j : ℕ) → ring_offset ((off + 1) % dma_buffer_count) j ≡ ring_offset off (j + 1)
following off j = omega arith

pub behind :
    (off j : ℕ)
    → off < dma_buffer_count
    → j + 1 < dma_buffer_count
    → ring_offset ((off + 1) % dma_buffer_count) j ≢ off * dma_buffer_size
behind off j inside h e = omega arith

-- The two answers of `litepcie_dma_next_read_buffer`.
abbrev after_read : DmaCtrl → DmaCtrl
after_read c = record c {
  buffers_available_read = c.buffers_available_read - 1;
  usr_read_buf_offset = (c.usr_read_buf_offset + 1) % dma_buffer_count;
}

none_left : (c : DmaCtrl) → (c.buffers_available_read == 0) ≡ true → next_read_buffer c ≡ (none, c)
unfolding next_read_buffer
none_left c e = rw e

one_more :
    (c : DmaCtrl)
    → (c.buffers_available_read == 0) ≡ false
    → next_read_buffer c ≡ (some (c.usr_read_buf_offset * dma_buffer_size), after_read c)
unfolding next_read_buffer
one_more c e = rw e

module _ (undef data_width : ℕ) where
  -- A buffer of the stream whose first word is the one of seed `delay`.
  abbrev pub received_words : ℕ → List ℕ
  received_words delay = pattern_words (get_data_mask undef data_width) delay buffer_words

  -- The check of such a buffer from the seed that is right, and from one that is not.
  pub check-in_step :
      (delay : ℕ)
      → delay < buffer_words
      → check_pn_data undef (received_words delay) delay data_width ≡ (0, delay)
  check-in_step delay low =
      let mask = get_data_mask undef data_width in
      let around : (delay + buffer_words) % buffer_words ≡ delay = omega arith in
      rw (
        check_pn_data_lem undef (received_words delay) delay data_width low,
        mismatches-pattern_words mask delay buffer_words,
        length-pattern_words mask delay buffer_words,
        around,
      )

  check-out_of_step :
      (delay at : ℕ)
      → 11 ≤ data_width
      → data_width ≤ 30
      → delay < buffer_words
      → at < buffer_words
      → delay ≢ at
      → check_pn_data undef (received_words delay) at data_width ≡ (buffer_words, at)
  check-out_of_step delay at wide narrow low low' other =
      let mask = get_data_mask undef data_width in
      let around : (at + buffer_words) % buffer_words ≡ at = omega arith in
      rw (
        check_pn_data_lem undef (received_words delay) at data_width low',
        mismatches-shifted mask delay at buffer_words
            (get_data_mask-full undef data_width wide narrow) (λ e. other (omega arith)),
        length-pattern_words mask delay buffer_words,
        around,
      )

  find_delay_from :
      (left at delay : ℕ) (t : LoopTest)
      → 11 ≤ data_width
      → data_width ≤ 30
      → at ≤ delay
      → delay < at + left
      → delay < buffer_words
      → find_delay undef data_width left at (received_words delay) t
        ≡ record t { seed_rd = delay; errors = 0; run = true }
  unfolding find_delay
  find_delay_from zero at delay t wide narrow a b low = absurd (omega arith)
  find_delay_from (suc left) at delay t wide narrow a b low = elim (ℕ_discrete delay at) [
    | yes e ↦
        let here : check_pn_data undef (received_words delay) at data_width ≡ (0, delay) =
          rw (← e) (check-in_step delay low) in
        rw (find_delay, here, here) refl
    | no other ↦
        rw (find_delay, check-out_of_step delay at wide narrow low (omega arith) other)
          (find_delay_from left (at + 1) delay _ wide narrow (omega arith) (omega arith) low)
  ]

  -- `dma_test` with `run` clear, on a buffer of the pattern that starts at the word of seed
  -- `delay`, for a width from 11 to 30 bits: the search ends at this delay and at no earlier one,
  -- and sets `run`, with no error left and with the seed for the next buffer.
  pub find_delay_lem :
      (delay : ℕ) (t : LoopTest)
      → 11 ≤ data_width
      → data_width ≤ 30
      → delay < buffer_words
      → find_delay undef data_width buffer_words 0 (received_words delay) t
        ≡ record t { seed_rd = delay; errors = 0; run = true }
  find_delay_lem delay t wide narrow low =
      find_delay_from buffer_words 0 delay t wide narrow (omega arith) (omega arith) low

  -- The state of the test while no error was seen on a stream whose buffers start at word `delay`.
  pub record InStep (delay : ℕ) (t : LoopTest) : Type 0 where
    pub no_errors : t.errors ≡ 0
    pub tuned : t.run ≡ true → t.seed_rd ≡ delay

  -- The next `n` buffers of the ring hold the stream.
  abbrev pub Holds : ℕ → ℕ → LoopTest → Type 0
  Holds delay n t =
      (j : ℕ) → j < n → t.buf_rd (ring_offset t.ctrl.usr_read_buf_offset j) ≡ received_words delay

  rx_buffer-InStep :
      (delay at : ℕ) (t : LoopTest)
      → 11 ≤ data_width
      → data_width ≤ 30
      → delay < buffer_words
      → t.buf_rd at ≡ received_words delay
      → InStep delay t
      → (buf_rd : Memory) × (rx_buffer undef data_width at t
          ≡ record t { errors = 0; seed_rd = delay; run = true; buf_rd = buf_rd })
        × ((k : ℕ) → k ≢ at → buf_rd k ≡ t.buf_rd k)
  unfolding rx_buffer
  rx_buffer-InStep delay at t wide narrow low holds ok = elim (Bool-cases (t.run)) [
    | inl on ↦
        let tuned = ok.tuned on in
        let sum : u32 (t.errors + 0) ≡ 0 = omega (arith, ok.no_errors) in
        (
          put t.buf_rd at (cleared buffer_words),
          rw (rx_buffer, on, holds, tuned, check-in_step delay low, sum) refl,
          λ k ne. rw (ne→== k at ne) refl,
        )
    | inr off ↦ (
      t.buf_rd,
      rw (rx_buffer, off, holds, find_delay_lem delay (record t { run = false }) wide narrow low)
          refl,
      λ k ne. refl,
    )
  ]

  -- The DMA-RX loop, done with `t`, at `u`.
  pub record Received (delay : ℕ) (t u : LoopTest) : Type 0 where
    pub in_step : InStep delay u
    pub drained :
        slt64 t.ctrl.writer_hw_count (128 * dma_buffer_count) ≡ false
        → u.ctrl.buffers_available_read ≡ 0
    pub found :
        slt64 t.ctrl.writer_hw_count (128 * dma_buffer_count) ≡ false
        → 0 < t.ctrl.buffers_available_read
        → u.run ≡ true
    pub goes_on : t.run ≡ true → u.run ≡ true
    pub sent : u.buf_wr ≡ t.buf_wr
    pub seed : u.seed_wr ≡ t.seed_wr
    pub uses : SameUse t.ctrl u.ctrl

  rx_loop-next :
      (fuel : ℕ) (t u : LoopTest)
      → (t.ctrl.buffers_available_read == 0) ≡ false
      → slt64 t.ctrl.writer_hw_count (128 * dma_buffer_count) ≡ false
      → rx_buffer undef data_width
          (t.ctrl.usr_read_buf_offset * dma_buffer_size)
          (record t { ctrl = after_read t.ctrl })
        ≡ u
      → u.run ≡ true
      → rx_loop undef data_width (suc fuel) t ≡ rx_loop undef data_width fuel u
  unfolding rx_loop
  rx_loop-next fuel t u more late e on =
      let next = one_more t.ctrl more in
      let running = ap (λ (t : LoopTest). t.run) e ∙ on in
      rw (rx_loop, next, next, late, next, running, next, e)

  pub rx_loop-Received :
      (fuel delay : ℕ) (t : LoopTest)
      → 11 ≤ data_width
      → data_width ≤ 30
      → delay < buffer_words
      → t.ctrl.buffers_available_read < fuel
      → t.ctrl.buffers_available_read ≤ dma_buffer_count
      → t.ctrl.usr_read_buf_offset < dma_buffer_count
      → (slt64 t.ctrl.writer_hw_count (128 * dma_buffer_count) ≡ false
          → Holds delay t.ctrl.buffers_available_read t)
      → InStep delay t
      → (u : LoopTest) × (rx_loop undef data_width fuel t ≡ some (true, u)) × Received delay t u
  unfolding rx_loop
  rx_loop-Received zero delay t wide narrow low enough fits inside holds ok = absurd (omega arith)
  rx_loop-Received (suc fuel) delay t wide narrow low enough fits inside holds ok =
      elim (Bool-cases (t.ctrl.buffers_available_read == 0)) [
        | inl empty ↦ (
          t,
          rw (rx_loop, none_left t.ctrl empty, none_left t.ctrl empty) refl,
          record {
            in_step = ok;
            drained = λ w. ground arith;
            found = λ w some_left. absurd (ground arith);
            goes_on = λ on. on;
            sent = refl;
            seed = refl;
            uses = (refl, refl);
          },
        )
        | inr more ↦ elim (Bool-cases (slt64 t.ctrl.writer_hw_count (128 * dma_buffer_count))) [
          | inl early ↦ (
            record t { ctrl = after_read t.ctrl },
            rw (rx_loop, one_more t.ctrl more, one_more t.ctrl more, early, one_more t.ctrl more)
                refl,
            record {
              in_step = record { no_errors = ok.no_errors; tuned = ok.tuned };
              drained = λ w. absurd (cc (early, w));
              found = λ w some_left. absurd (cc (early, w));
              goes_on = λ on. on;
              sent = refl;
              seed = refl;
              uses = (refl, refl);
            },
          )
          | inr late ↦
              let at = t.ctrl.usr_read_buf_offset * dma_buffer_size in
              let t1 : LoopTest = record t { ctrl = after_read t.ctrl } in
              let here : t.buf_rd at ≡ received_words delay =
                subst (λ off. t.buf_rd (off * dma_buffer_size) ≡ received_words delay) (omega arith)
                  (holds late 0 (ground arith)) in
              let ok1 : InStep delay t1 = record { no_errors = ok.no_errors; tuned = ok.tuned } in
              let (mem, e, others) = rx_buffer-InStep delay at t1 wide narrow low here ok1 in
              let t2 : LoopTest = record t1 {
                errors = 0;
                seed_rd = delay;
                run = true;
                buf_rd = mem;
              } in
              let ok2 : InStep delay t2 = record { no_errors = refl; tuned = λ _. refl } in
              let off = t.ctrl.usr_read_buf_offset in
              let holds2 : Holds delay (t.ctrl.buffers_available_read - 1) t2 = λ j h.
                rw (others _ (behind off j inside (omega arith)), following off j)
                  (holds late (j + 1) (omega arith)) in
              let (u, returns, done) =
                rx_loop-Received fuel delay t2 wide narrow low (ground arith) (omega arith)
                  (omega arith) (λ _. holds2) ok2 in
              (
                u,
                rx_loop-next fuel t t2 more late e refl ∙ returns,
                record {
                  in_step = done.in_step;
                  drained = done.drained;
                  found = λ w some_left. done.goes_on refl;
                  goes_on = λ on. done.goes_on refl;
                  sent = done.sent;
                  seed = done.seed;
                  uses = done.uses;
                },
              )
        ]
      ]
