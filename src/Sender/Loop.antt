-- ===== src/Sender/Loop.antt =====
-- What `litepcie_write` adds to the history of the reader engine.
use litepcie_ptm_test.Base.{
  ℕ, Bool, ◌+◌, ◌*◌, ◌^◌, ◌≤◌, ◌<◌, ◌≡◌, refl, ◌==◌, inl, inr, List, some, arith, sym, ◌∙◌,
}
use litepcie_ptm_test.Config.{dma_buffer_size}
use litepcie_ptm_test.Dma.{DmaChan}
use litepcie_ptm_test.File.Transfer.{Wait, Outcome, write_round, wait_for, write}
use litepcie_ptm_test.File.Transfer.Write.{underflows, write_round-more}
use litepcie_ptm_test.Chdev.Rollback.{Option-cases}
use litepcie_ptm_test.Flow.{Handover, InOrder, Added}
use litepcie_ptm_test.Flow.Loop.{after_wait, MovesBelow, after_wait-Added}

write-after_wait :
    (nonblock : Bool) (wait : Wait) (seen : ℕ → ℕ) (copied : ℕ → Bool) (size : ℕ) (d : DmaChan)
    → write nonblock wait seen copied dma_buffer_size size d
      ≡ after_wait
          (write_round seen copied dma_buffer_size)
          size
          d.reader_sw_count
          (wait_for nonblock (d.reader_hw_count == d.reader_sw_count) wait)
unfolding write
write-after_wait nonblock wait seen copied size d =
    elim (Option-cases (wait_for nonblock (d.reader_hw_count == d.reader_sw_count) wait)) [
      | inl go ↦ rw (go, write) refl
      | inr (x, stop) ↦ rw (stop, write) refl
    ]

-- Only buffers less than half the ring ahead of the hardware are written.
write_round-MovesBelow :
    (seen : ℕ → ℕ) (copied : ℕ → Bool) (size sw hw_count : ℕ) (sent : List Handover)
    → ((k : ℕ) → seen k ≤ hw_count)
    → hw_count < 2 ^ 63
    → sw + size < 2 ^ 63
    → MovesBelow (write_round seen copied dma_buffer_size) copied size sw (hw_count + 128) sent
write_round-MovesBelow seen copied size sw hw_count sent bound small fits p q here low e =
    let (got, moved) = write_round-more seen copied dma_buffer_size p q e in
    let top = bound (2 * p.i) in
    let room : sw + p.i < hw_count + 128 = ground (arith, here, top) in
    (room, underflows seen p, moved)

pub write-Added :
    (nonblock : Bool) (wait : Wait) (seen : ℕ → ℕ) (copied : ℕ → Bool) (size hw_count : ℕ)
    (d : DmaChan) (sent : List Handover) (o : Outcome)
    → d.reader_sw_count + size < 2 ^ 63
    → size < 2 ^ 31
    → ((k : ℕ) → seen k ≤ hw_count)
    → hw_count < 2 ^ 63
    → InOrder d.reader_sw_count sent
    → write nonblock wait seen copied dma_buffer_size size d ≡ some o
    → Added copied d.reader_sw_count (hw_count + 128) sent o.sw_count o.copies o.lost
write-Added nonblock wait seen copied size hw_count d sent o fits short bound small earlier h =
    after_wait-Added (write_round seen copied dma_buffer_size) copied size d.reader_sw_count
      (hw_count + 128) sent
      (write_round-MovesBelow seen copied size d.reader_sw_count hw_count sent bound small fits)
      fits short earlier _ o (sym (write-after_wait nonblock wait seen copied size d) ∙ h)
