-- ===== src/Receiver/Loop.antt =====
-- What `litepcie_read` adds to the history of the writer engine.
use litepcie_ptm_test.Base.{
  ℕ, Bool, ◌+◌, ◌*◌, ◌^◌, ◌≤◌, ◌<◌, ◌≡◌, refl, ◌==◌, inl, inr, List, some, arith, sym, ◌∙◌,
}
use litepcie_ptm_test.Config.{dma_buffer_size}
use litepcie_ptm_test.Dma.{DmaChan}
use litepcie_ptm_test.File.Transfer.{Wait, Outcome, read_round, wait_for, read}
use litepcie_ptm_test.File.Transfer.Read.{too_late, read_round-more}
use litepcie_ptm_test.Chdev.Rollback.{Option-cases}
use litepcie_ptm_test.Flow.{Handover, InOrder, Added}
use litepcie_ptm_test.Flow.Loop.{after_wait, MovesBelow, after_wait-Added}

read-after_wait :
    (nonblock : Bool) (wait : Wait) (seen : ℕ → ℕ) (copied : ℕ → Bool) (size : ℕ) (d : DmaChan)
    → read nonblock wait seen copied dma_buffer_size size d
      ≡ after_wait
          (read_round seen copied dma_buffer_size)
          size
          d.writer_sw_count
          (wait_for nonblock (d.writer_hw_count == d.writer_sw_count) wait)
unfolding read
read-after_wait nonblock wait seen copied size d =
    elim (Option-cases (wait_for nonblock (d.writer_hw_count == d.writer_sw_count) wait)) [
      | inl go ↦ rw (go, read) refl
      | inr (x, stop) ↦ rw (stop, read) refl
    ]

-- Only buffers that are complete are read.
read_round-MovesBelow :
    (seen : ℕ → ℕ) (copied : ℕ → Bool) (size sw hw_count : ℕ) (delivered : List Handover)
    → ((k : ℕ) → seen k ≤ hw_count)
    → hw_count < 2 ^ 63
    → sw + size < 2 ^ 63
    → MovesBelow (read_round seen copied dma_buffer_size) copied size sw (hw_count + 0) delivered
read_round-MovesBelow seen copied size sw hw_count delivered bound small fits p q here low e =
    let (got, moved) = read_round-more seen copied dma_buffer_size p q e in
    let top = bound (2 * p.i) in
    let ahead : sw + p.i < hw_count = ground (arith, here, top) in
    (omega arith, too_late seen p, moved)

pub read-Added :
    (nonblock : Bool) (wait : Wait) (seen : ℕ → ℕ) (copied : ℕ → Bool) (size hw_count : ℕ)
    (d : DmaChan) (delivered : List Handover) (o : Outcome)
    → d.writer_sw_count + size < 2 ^ 63
    → size < 2 ^ 31
    → ((k : ℕ) → seen k ≤ hw_count)
    → hw_count < 2 ^ 63
    → InOrder d.writer_sw_count delivered
    → read nonblock wait seen copied dma_buffer_size size d ≡ some o
    → Added copied d.writer_sw_count (hw_count + 0) delivered o.sw_count o.copies o.lost
read-Added nonblock wait seen copied size hw_count d delivered o fits short bound small earlier h =
    after_wait-Added (read_round seen copied dma_buffer_size) copied size d.writer_sw_count
      (hw_count + 0) delivered
      (read_round-MovesBelow seen copied size d.writer_sw_count hw_count delivered bound small fits)
      fits short earlier _ o (sym (read-after_wait nonblock wait seen copied size d) ∙ h)
