-- ===== src/Stream/Play.antt =====
-- software/user/litepcie_test.c, `litepcie_play`: what the buffers hold.
use litepcie_ptm_test.Base.{
  ℕ, zero, suc, false, ◌+◌, ◌-◌, ◌*◌, ◌<◌, ◌≤◌, ◌≡◌, ◌≢◌, refl, ap, List, some, arith, ◌==◌,
  ==_refl, ne→==, inl, inr, Bool-cases, ◌∙◌, leb, ◌&&◌, sym, ltb, if◌then◌else◌, length,
}
use litepcie_ptm_test.Config.{dma_buffer_count, dma_buffer_size}
use litepcie_ptm_test.Util.Loopback.Receive.{ring_offset, following, behind}
use litepcie_ptm_test.Util.Loopback.Transmit.{after_write, none_left, one_more}
use litepcie_ptm_test.Base.Word.{u32, add64, sub64, slt64}
use litepcie_ptm_test.Stream.{Playing, play_buffers}
use litepcie_ptm_test.Stream.Fill.{block, further, place_after, fill_buffer_lem, block-length}

module _ (file : List ℕ) (loops : ℕ) (long : dma_buffer_size ≤ length file) where
  -- The variables after one buffer.
  abbrev after_block : Playing → Playing
  after_block p =
      let slot = p.ctrl.usr_write_buf_offset * dma_buffer_size in
      let rewound = ltb (length file) (p.at + dma_buffer_size) in
      let current_loop = if rewound then u32 (p.current_loop + 1) else p.current_loop in
      record p {
        ctrl = after_write p.ctrl;
        buf_wr = λ k. if k == slot then block file p.at else p.buf_wr k;
        at = further file p.at;
        current_loop = current_loop;
        sw_underflows =
            if slt64 (sub64 p.ctrl.reader_sw_count p.ctrl.reader_hw_count) 0
            then add64 p.sw_underflows (sub64 p.ctrl.reader_hw_count p.ctrl.reader_sw_count)
            else p.sw_underflows;
        keep_running = if rewound && leb loops current_loop then false else p.keep_running;
      }

  play_buffers-next :
      (fuel : ℕ) (p : Playing)
      → (p.ctrl.buffers_available_write == 0) ≡ false
      → p.at ≤ length file
      → length (p.buf_wr (p.ctrl.usr_write_buf_offset * dma_buffer_size)) ≡ dma_buffer_size
      → play_buffers file loops (suc fuel) p ≡ play_buffers file loops fuel (after_block p)
  unfolding play_buffers
  play_buffers-next fuel p more inside whole =
      let next = one_more p.ctrl more in
      let filled =
        fill_buffer_lem file (p.buf_wr (p.ctrl.usr_write_buf_offset * dma_buffer_size)) p.at inside
          long whole in
      rw (play_buffers, next, next, filled) refl

  -- The buffers that have been filled between `p` and `u`, and the place in the file.
  pub record Played (p u : Playing) : Type 0 where
    pub filled :
        (j : ℕ)
        → j < p.ctrl.buffers_available_write
        → u.buf_wr (ring_offset p.ctrl.usr_write_buf_offset j)
          ≡ block file (place_after file p.at j)
    pub kept :
        (slot : ℕ)
        → ((j : ℕ)
            → j < p.ctrl.buffers_available_write
            → slot ≢ ring_offset p.ctrl.usr_write_buf_offset j)
        → u.buf_wr slot ≡ p.buf_wr slot
    pub place : u.at ≡ place_after file p.at p.ctrl.buffers_available_write
    pub whole : (slot : ℕ) → length (u.buf_wr slot) ≡ dma_buffer_size

  Played-next :
      (p u : Playing)
      → 0 < p.ctrl.buffers_available_write
      → p.ctrl.buffers_available_write ≤ dma_buffer_count
      → p.ctrl.usr_write_buf_offset < dma_buffer_count
      → Played (after_block p) u
      → Played p u
  Played-next p u some_left fits inside played = record {
    filled = filled;
    kept = λ slot ne.
        played.kept slot (λ j h e. ne (j + 1) (omega arith) (e ∙ following off j))
        ∙ rw (ne→== slot (off * dma_buffer_size) (λ e. ne 0 some_left (e ∙ first))) refl;
    place = played.place ∙ ap (λ n. place_after file p.at n) count;
    whole = played.whole;
  }
    where
      off : ℕ
      off = p.ctrl.usr_write_buf_offset

      first : off * dma_buffer_size ≡ ring_offset off 0
      first = omega arith

      count : suc (p.ctrl.buffers_available_write - 1) ≡ p.ctrl.buffers_available_write
      count = omega arith

      filled :
          (j : ℕ)
          → j < p.ctrl.buffers_available_write
          → u.buf_wr (ring_offset off j) ≡ block file (place_after file p.at j)
      filled zero h = rw (← first) (
          played.kept (off * dma_buffer_size) (λ j h e. behind off j inside (omega arith) (sym e))
          ∙ rw (==_refl (off * dma_buffer_size)) refl)
      filled (suc j) h =
          let same : ring_offset off (j + 1) ≡ ring_offset off (suc j) = omega arith in
          rw (← same, ← following off j) (played.filled j (omega arith))

  pub further-inside : (at : ℕ) → at ≤ length file → further file at ≤ length file
  further-inside at inside = ground arith

  after-whole :
      (p : Playing)
      → p.at ≤ length file
      → ((slot : ℕ) → length (p.buf_wr slot) ≡ dma_buffer_size)
      → (slot : ℕ) → length ((after_block p).buf_wr slot) ≡ dma_buffer_size
  after-whole p inside whole slot =
      elim (Bool-cases (slot == p.ctrl.usr_write_buf_offset * dma_buffer_size)) [
        | inl here ↦ rw here (block-length file p.at inside long)
        | inr elsewhere ↦ rw elsewhere (whole slot)
      ]

  -- With a file of at least 8192 bytes, and whole buffers in the memory, the loop of `litepcie_play`
  -- ends after the at most 256 buffers that are available. In the order of the ring each of them
  -- holds the next 8192 bytes of the file, which starts again right after its last byte; the other
  -- buffers are as they were, all buffers are whole, and the place in the file is the one after the last buffer.
  pub play_buffers-Played :
      (fuel : ℕ) (p : Playing)
      → p.ctrl.buffers_available_write < fuel
      → p.ctrl.buffers_available_write ≤ dma_buffer_count
      → p.ctrl.usr_write_buf_offset < dma_buffer_count
      → p.at ≤ length file
      → ((slot : ℕ) → length (p.buf_wr slot) ≡ dma_buffer_size)
      → (u : Playing) × (play_buffers file loops fuel p ≡ some u) × Played p u
  unfolding play_buffers
  play_buffers-Played zero p enough fits low inside whole = absurd (omega arith)
  play_buffers-Played (suc fuel) p enough fits low inside whole =
      elim (Bool-cases (p.ctrl.buffers_available_write == 0)) [
        | inl empty ↦
            let none_to_do : p.ctrl.buffers_available_write ≡ 0 = ground arith in
            (
              p,
              rw (play_buffers, none_left p.ctrl empty, none_left p.ctrl empty) refl,
              record {
                filled = λ j h. absurd (omega arith);
                kept = λ at ne. refl;
                place = rw none_to_do refl;
                whole = whole;
              },
            )
        | inr more ↦
            let (u, returns, played) =
              play_buffers-Played fuel (after_block p) (ground arith) (omega arith) (omega arith)
                (further-inside p.at inside) (after-whole p inside whole) in
            (
              u,
              play_buffers-next fuel p more inside (whole _) ∙ returns,
              Played-next p u (ground arith) fits low played,
            )
      ]
