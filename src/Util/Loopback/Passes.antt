-- ===== src/Util/Loopback/Passes.antt =====
-- software/user/litepcie_util.c, `dma_test`: whole passes of the test loop.
use litepcie_ptm_test.Base.{
  ℕ, true, ◌+◌, ◌%◌, ◌≤◌, ◌<◌, ◌≡◌, ◌≢◌, refl, List, [], ◌∷◌, some, arith, inl, inr, Bool-cases,
  ◌∙◌, ap, ◌&&◌, subst, sym, zero, suc, false, ◌⊎◌, ◌++◌, ◌*◌, ℕ_discrete,
}
use litepcie_ptm_test.Base.Word.{slt64}
use litepcie_ptm_test.Config.{dma_buffer_count}
use litepcie_ptm_test.Bus.{Hw}
use litepcie_ptm_test.File.Request.{Build, Session}
use litepcie_ptm_test.User.{DmaCtrl, process}
use litepcie_ptm_test.User.Uses.{process-SameUse}
use litepcie_ptm_test.Util.Pattern.{buffer_words}
use litepcie_ptm_test.Util.Loopback.{LoopTest, Memory, Pass, statistics, test_pass, test_loop}
use litepcie_ptm_test.Util.Loopback.Receive.{ring_offset, received_words, InStep, rx_loop-Received}
use litepcie_ptm_test.Util.Loopback.Transmit.{Sent, tx_loop-Sent}
use litepcie_ptm_test.Util.Loopback.Shift.{received_words-shifted}
use litepcie_ptm_test.Stream.{take, drop}

-- Whether one of `n` buffers of the ring is at an offset.
among :
    (off n at : ℕ)
    → ((j : ℕ) × (j < n) × (ring_offset off j ≡ at)) ⊎ ((j : ℕ) → j < n → ring_offset off j ≢ at)
among off zero at = inr (λ j h. absurd (omega arith))
among off (suc n) at = elim (ℕ_discrete (ring_offset off n) at) [
  | yes e ↦ inl (n, omega arith, e)
  | no ne ↦ elim (among off n at) [
    | inl (j, h, e) ↦ inl (j, omega arith, e)
    | inr others ↦ inr λ j h e. elim (ℕ_discrete j n) [
      | yes same ↦ ne (ap (λ j. ring_offset off j) (sym same) ∙ e)
      | no less ↦ others j (omega arith) e
    ]
  ]
]

module _ (undef data_width : ℕ) where
  statistics-InStep :
      (delay duration : ℕ) (t : LoopTest)
      → InStep undef data_width delay t
      → InStep undef data_width delay (statistics duration t)
  unfolding statistics
  statistics-InStep delay duration t ok = elim (Bool-cases (t.run && slt64 200 duration)) [
    | inl due ↦ rw due (record { no_errors = refl; tuned = ok.tuned })
    | inr early ↦ rw early ok
  ]

  statistics-sent :
      (duration : ℕ) (t : LoopTest)
      → ((statistics duration t).seed_wr ≡ t.seed_wr)
        × ((statistics duration t).buf_wr ≡ t.buf_wr)
        × ((statistics duration t).ctrl ≡ t.ctrl)
  unfolding statistics
  statistics-sent duration t = elim (Bool-cases (t.run && slt64 200 duration)) [
    | inl due ↦ rw due (refl, refl, refl)
    | inr early ↦ rw early (refl, refl, refl)
  ]

  module _ (hw : Hw) (b : Build) where
    -- A pass in which the driver's calls succeed and the loopback brings back what earlier passes
    -- filled, in the buffers at the offsets `WasFilled`: each buffer received is the end of one of
    -- them, from word `delay` on, and the start of another. The first 128 rounds of the ring, which
    -- the test leaves unread, may hold anything. The state of the library after
    -- `litepcie_dma_process`, and the session.
    pub record IsGood (delay : ℕ) (WasFilled : ℕ → Type 0) (p : Pass) (t : LoopTest) (s : Session)
        : Type 0 where
      pub ctrl : DmaCtrl
      pub session : Session
      pub processed : process hw b p.polled p.read_len p.write_len t.ctrl s ≡ some (ctrl, session)
      pub read_room : ctrl.buffers_available_read ≤ dma_buffer_count
      pub read_slot : ctrl.usr_read_buf_offset < dma_buffer_count
      pub write_room : ctrl.buffers_available_write ≤ dma_buffer_count
      pub write_slot : ctrl.usr_write_buf_offset < dma_buffer_count
      pub looped :
          slt64 ctrl.writer_hw_count (128 * dma_buffer_count) ≡ false
          → (j : ℕ) → j < ctrl.buffers_available_read
          → (first : ℕ) × (second : ℕ) × WasFilled first
            × WasFilled second
            × (p.received (ring_offset ctrl.usr_read_buf_offset j)
                ≡ drop delay (t.buf_wr first) ++ take delay (t.buf_wr second))

    -- The offsets filled in a pass, which makes the buffers of a control block available, and before.
    abbrev pub FilledWith : DmaCtrl → (ℕ → Type 0) → ℕ → Type 0
    FilledWith c WasFilled at =
        ((j : ℕ) × (j < c.buffers_available_write) × (ring_offset c.usr_write_buf_offset j ≡ at))
        ⊎ WasFilled at

    -- What holds between the passes.
    pub record Between (delay : ℕ) (WasFilled : ℕ → Type 0) (t : LoopTest) : Type 0 where
      pub in_step : InStep undef data_width delay t
      pub seed_zero : t.seed_wr ≡ 0
      pub filled : (at : ℕ) → WasFilled at → t.buf_wr at ≡ received_words undef data_width 0
      pub uses_reader : t.ctrl.use_reader ≢ 0
      pub uses_writer : t.ctrl.use_writer ≢ 0

    looped-Holds :
        (delay : ℕ) (WasFilled : ℕ → Type 0) (p : Pass) (t : LoopTest) (s : Session)
        → delay < buffer_words
        → (g : IsGood delay WasFilled p t s) → Between delay WasFilled t
        → slt64 g.ctrl.writer_hw_count (128 * dma_buffer_count) ≡ false
        → (j : ℕ) → j < g.ctrl.buffers_available_read
        → p.received (ring_offset g.ctrl.usr_read_buf_offset j)
          ≡ received_words undef data_width delay
    looped-Holds delay WasFilled p t s low g ok late j h =
        let (first, second, was, was', e) = g.looped late j h in
        e
        ∙ ap (λ l. drop delay l ++ take delay (t.buf_wr second)) (ok.filled first was)
        ∙ ap (λ l. drop delay (received_words undef data_width 0) ++ take delay l)
            (ok.filled second was')
        ∙ received_words-shifted undef data_width delay low

    -- The DMA-TX loop fills the buffers available, and no other.
    tx_loop-filled :
        (WasFilled : ℕ → Type 0) (t u : LoopTest)
        → Sent undef data_width t u
        → t.seed_wr ≡ 0
        → ((at : ℕ) → WasFilled at → t.buf_wr at ≡ received_words undef data_width 0)
        → (at : ℕ) → FilledWith t.ctrl WasFilled at
        → u.buf_wr at ≡ received_words undef data_width 0
    tx_loop-filled WasFilled t u sent zero_seed before at (inl (j, h, e)) =
        subst (λ at. u.buf_wr at ≡ received_words undef data_width 0) e
          (sent.filled j h ∙ ap (λ seed. received_words undef data_width seed) zero_seed)
    tx_loop-filled WasFilled t u sent zero_seed before at (inr was) =
        elim (among t.ctrl.usr_write_buf_offset t.ctrl.buffers_available_write at) [
          | inl (j, h, e) ↦
              subst (λ at. u.buf_wr at ≡ received_words undef data_width 0) e
                (sent.filled j h ∙ ap (λ seed. received_words undef data_width seed) zero_seed)
          | inr other ↦ sent.kept at (λ j h e. other j h (sym e)) ∙ before at was
        ]

    -- One pass from such a state, if it is good: the loop goes on, with no error; every buffer
    -- that was available for writing holds the pattern.
    pub test_pass-Between :
        (delay : ℕ) (WasFilled : ℕ → Type 0) (p : Pass) (t : LoopTest) (s : Session)
        → 11 ≤ data_width
        → data_width ≤ 30
        → delay < buffer_words
        → (g : IsGood delay WasFilled p t s) → Between delay WasFilled t
        → (u : LoopTest) × (test_pass undef data_width hw b p t s ≡ some (true, u, g.session))
          × Between delay (FilledWith g.ctrl WasFilled) u
    unfolding test_pass
    test_pass-Between delay WasFilled p t s wide narrow low g ok =
        let t0 : LoopTest = record t { ctrl = g.ctrl; buf_rd = p.received } in
        let (t1, sends, sent) =
          tx_loop-Sent undef data_width (g.ctrl.buffers_available_write + 1) t0 (omega arith)
            g.write_room g.write_slot (omega (arith, ok.seed_zero)) in
        let t2 : LoopTest = record t0 {
          ctrl = record (g.ctrl) {
            buffers_available_write = 0;
            usr_write_buf_offset =
                (g.ctrl.usr_write_buf_offset + g.ctrl.buffers_available_write) % dma_buffer_count;
          };
          buf_wr = t1.buf_wr;
        } in
        let ok2 : InStep undef data_width delay t2 = record {
          no_errors = ok.in_step.no_errors;
          tuned = ok.in_step.tuned;
        } in
        let (u, receives, received) =
          rx_loop-Received undef data_width (g.ctrl.buffers_available_read + 1) delay t2 wide narrow
            low (omega arith) g.read_room g.read_slot (looped-Holds delay WasFilled p t s low g ok)
            ok2 in
        let sends2 = sends ∙ ap some sent.all_but in
        let (same_seed, same_area, same_ctrl) = statistics-sent p.duration u in
        let seed = same_seed ∙ received.seed in
        let same =
          process-SameUse hw b p.polled p.read_len p.write_len t.ctrl g.ctrl s g.session
            g.processed in
        let reader = ap (λ (c : DmaCtrl). c.use_reader) same_ctrl ∙ received.uses.0 ∙ same.0 in
        let writer = ap (λ (c : DmaCtrl). c.use_writer) same_ctrl ∙ received.uses.1 ∙ same.1 in
        let area = same_area ∙ received.sent in
        (
          statistics p.duration u,
          rw (g.processed, sends2, receives),
          record {
            in_step = statistics-InStep delay p.duration u received.in_step;
            seed_zero = seed ∙ ok.seed_zero;
            filled = λ at was.
                ap (λ (mem : Memory). mem at) area
                ∙ tx_loop-filled WasFilled t0 t1 sent ok.seed_zero ok.filled at was;
            uses_reader = λ e. ok.uses_reader (sym reader ∙ e);
            uses_writer = λ e. ok.uses_writer (sym writer ∙ e);
          },
        )

    -- Passes that are good, each of them on the buffers that those before it filled.
    abbrev pub AllGood : ℕ → (ℕ → Type 0) → List Pass → LoopTest → Session → Type 0
    AllGood delay WasFilled [] t s = Unit
    AllGood delay WasFilled (p ∷ ps) t s =
        (g : IsGood delay WasFilled p t s) × ((u : LoopTest) (s' : Session)
          → test_pass undef data_width hw b p t s ≡ some (true, u, s')
          → AllGood delay (FilledWith g.ctrl WasFilled) ps u s')

    -- The test loop, for a width from 11 to 30 bits, on a loopback that gives back what was filled,
    -- cut at word `delay`: through any number of passes in which the driver's calls succeed it counts no error, whether
    -- it knew the delay or has to find it.
    pub test_loop-Between :
        (delay : ℕ) (WasFilled : ℕ → Type 0) (ps : List Pass) (t : LoopTest) (s : Session)
        → 11 ≤ data_width
        → data_width ≤ 30
        → delay < buffer_words
        → AllGood delay WasFilled ps t s
        → Between delay WasFilled t
        → (u : LoopTest) × (s' : Session) × (test_loop undef data_width hw b ps t s ≡ some (u, s'))
          × (u.errors ≡ 0)
          × (u.ctrl.use_reader ≢ 0)
          × (u.ctrl.use_writer ≢ 0)
    unfolding test_loop
    test_loop-Between delay WasFilled [] t s wide narrow low good ok =
        (t, s, refl, ok.in_step.no_errors, ok.uses_reader, ok.uses_writer)
    test_loop-Between delay WasFilled (p ∷ ps) t s wide narrow low good ok =
        let (u, passes, ok2) = test_pass-Between delay WasFilled p t s wide narrow low good.0 ok in
        let (last, s', ends, no_errors, uses_reader, uses_writer) =
          test_loop-Between delay (FilledWith good.0.ctrl WasFilled) ps u good.0.session wide narrow
            low (good.1 u _ passes) ok2 in
        (last, s', rw passes ends, no_errors, uses_reader, uses_writer)
