-- ===== src/Util/Loopback/Transmit.antt =====
-- software/user/litepcie_util.c, `dma_test`: the buffers that are sent.
use litepcie_ptm_test.Base.{
  ℕ, zero, suc, true, false, ◌+◌, ◌-◌, ◌*◌, ◌%◌, ◌≤◌, ◌<◌, ◌≡◌, ◌≢◌, refl, some, none, arith, ◌==◌,
  ==_refl, ne→==, inl, inr, Bool-cases, ◌∙◌, sym,
}
use litepcie_ptm_test.Config.{dma_buffer_count, dma_buffer_size}
use litepcie_ptm_test.User.{DmaCtrl, next_write_buffer}
use litepcie_ptm_test.Util.Pattern.{buffer_words, write_pn_data}
use litepcie_ptm_test.Util.Check.{write_pn_data_lem}
use litepcie_ptm_test.Util.Loopback.{put, LoopTest, tx_loop}
use litepcie_ptm_test.Util.Loopback.Receive.{ring_offset, received_words, following, behind}

-- The two answers of `litepcie_dma_next_write_buffer`.
abbrev pub after_write : DmaCtrl → DmaCtrl
after_write c = record c {
  buffers_available_write = c.buffers_available_write - 1;
  usr_write_buf_offset = (c.usr_write_buf_offset + 1) % dma_buffer_count;
}

pub none_left :
    (c : DmaCtrl) → (c.buffers_available_write == 0) ≡ true → next_write_buffer c ≡ (none, c)
unfolding next_write_buffer
none_left c e = rw e

pub one_more :
    (c : DmaCtrl)
    → (c.buffers_available_write == 0) ≡ false
    → next_write_buffer c ≡ (some (c.usr_write_buf_offset * dma_buffer_size), after_write c)
unfolding next_write_buffer
one_more c e = rw e

module _ (undef data_width : ℕ) where
  -- A whole buffer of the pattern leaves the seed as it was.
  write_whole :
      (seed : ℕ)
      → seed < buffer_words
      → write_pn_data undef buffer_words seed data_width
        ≡ (received_words undef data_width seed, seed)
  write_whole seed low =
      let around : (seed + buffer_words) % buffer_words ≡ seed = omega arith in
      rw (write_pn_data_lem undef buffer_words seed data_width low, around)

  -- The DMA-TX loop from `t`, ended at `u`.
  pub record Sent (t u : LoopTest) : Type 0 where
    pub all_but : u ≡ record t {
      ctrl = record (t.ctrl) {
        buffers_available_write = 0;
        usr_write_buf_offset =
            (t.ctrl.usr_write_buf_offset + t.ctrl.buffers_available_write) % dma_buffer_count;
      };
      buf_wr = u.buf_wr;
    }
    pub filled :
        (j : ℕ)
        → j < t.ctrl.buffers_available_write
        → u.buf_wr (ring_offset t.ctrl.usr_write_buf_offset j)
          ≡ received_words undef data_width t.seed_wr
    pub kept :
        (at : ℕ)
        → ((j : ℕ)
            → j < t.ctrl.buffers_available_write
            → at ≢ ring_offset t.ctrl.usr_write_buf_offset j)
        → u.buf_wr at ≡ t.buf_wr at

  no_move :
      (t : LoopTest)
      → t.ctrl.buffers_available_write ≡ 0
      → t.ctrl.usr_write_buf_offset < dma_buffer_count
      → t ≡ record t {
        ctrl = record (t.ctrl) {
          buffers_available_write = 0;
          usr_write_buf_offset =
              (t.ctrl.usr_write_buf_offset + t.ctrl.buffers_available_write) % dma_buffer_count;
        };
      }
  no_move t e inside =
      let here : (t.ctrl.usr_write_buf_offset + t.ctrl.buffers_available_write) % dma_buffer_count
          ≡ t.ctrl.usr_write_buf_offset =
        omega arith in
      rw (here, e) refl

  -- The state after the first buffer.
  abbrev after_one : LoopTest → LoopTest
  after_one t = record t {
    ctrl = after_write t.ctrl;
    buf_wr =
        put t.buf_wr (t.ctrl.usr_write_buf_offset * dma_buffer_size)
          (received_words undef data_width t.seed_wr);
  }

  Sent-next :
      (t u : LoopTest)
      → 0 < t.ctrl.buffers_available_write
      → t.ctrl.buffers_available_write ≤ dma_buffer_count
      → t.ctrl.usr_write_buf_offset < dma_buffer_count
      → Sent (after_one t) u
      → Sent t u
  Sent-next t u some_left fits inside sent = record {
    all_but = sent.all_but ∙ rw place refl;
    filled = filled;
    kept = λ at ne.
        sent.kept at (λ j h e. ne (j + 1) (omega arith) (e ∙ following off j))
        ∙ rw (ne→== at (off * dma_buffer_size) (λ e. ne 0 some_left (e ∙ first))) refl;
  }
    where
      off : ℕ
      off = t.ctrl.usr_write_buf_offset

      first : off * dma_buffer_size ≡ ring_offset off 0
      first = omega arith

      place :
          ((off + 1) % dma_buffer_count + (t.ctrl.buffers_available_write - 1)) % dma_buffer_count
          ≡ (off + t.ctrl.buffers_available_write) % dma_buffer_count
      place = omega arith

      filled :
          (j : ℕ)
          → j < t.ctrl.buffers_available_write
          → u.buf_wr (ring_offset off j) ≡ received_words undef data_width t.seed_wr
      filled zero h = rw (← first) (
          sent.kept (off * dma_buffer_size) (λ j h e. behind off j inside (omega arith) (sym e))
          ∙ rw (==_refl (off * dma_buffer_size)) refl)
      filled (suc j) h =
          let same : ring_offset off (j + 1) ≡ ring_offset off (suc j) = omega arith in
          rw (← same, ← following off j) (sent.filled j (omega arith))

  tx_loop-next :
      (fuel : ℕ) (t : LoopTest)
      → (t.ctrl.buffers_available_write == 0) ≡ false
      → t.seed_wr < buffer_words
      → tx_loop undef data_width (suc fuel) t ≡ tx_loop undef data_width fuel (after_one t)
  unfolding tx_loop
  tx_loop-next fuel t more low =
      let next = one_more t.ctrl more in
      let written = write_whole t.seed_wr low in rw (tx_loop, next, next, written)

  -- The DMA-TX loop of `dma_test`, from a seed below 2048 and a cursor in the ring, with at most 256 buffers
  -- available: it ends after them, each of them holds the pattern from the seed on, the other
  -- buffers are as they were, and the seed too.
  pub tx_loop-Sent :
      (fuel : ℕ) (t : LoopTest)
      → t.ctrl.buffers_available_write < fuel
      → t.ctrl.buffers_available_write ≤ dma_buffer_count
      → t.ctrl.usr_write_buf_offset < dma_buffer_count
      → t.seed_wr < buffer_words
      → (u : LoopTest) × (tx_loop undef data_width fuel t ≡ some u) × Sent t u
  unfolding tx_loop
  tx_loop-Sent zero t enough fits inside low = absurd (omega arith)
  tx_loop-Sent (suc fuel) t enough fits inside low =
      elim (Bool-cases (t.ctrl.buffers_available_write == 0)) [
        | inl empty ↦
            let none_to_do : t.ctrl.buffers_available_write ≡ 0 = ground arith in
            (
              t,
              rw (tx_loop, none_left t.ctrl empty, none_left t.ctrl empty) refl,
              record {
                all_but = no_move t none_to_do inside;
                filled = λ j h. absurd (omega arith);
                kept = λ at ne. refl;
              },
            )
        | inr more ↦
            let (u, returns, sent) =
              tx_loop-Sent fuel (after_one t) (ground arith) (omega arith) (omega arith) low in
            (
              u,
              tx_loop-next fuel t more low ∙ returns,
              Sent-next t u (ground arith) fits inside sent,
            )
      ]
