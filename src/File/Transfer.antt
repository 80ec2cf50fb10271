-- ===== src/File/Transfer.antt =====
-- software/kernel/main.c: `litepcie_read` and `litepcie_write`. The interrupt handler moves the
-- hardware count while a loop runs: `seen k` is the value that the k-th evaluation of the count in
-- the loop finds, two for each round. Whether the copy of round `i` succeeds is `copied i`.
pub mod Rounds
pub mod Read
pub mod Write
pub mod Exact
use litepcie_ptm_test.Base.{
  ℕ, zero, suc, Bool, true, false, ◌+◌, ◌-◌, ◌*◌, ◌/◌, ◌%◌, ◌^◌, Option, none, some, List, [], ◌∷◌,
  ltb, ◌==◌, if◌then◌else◌,
}
use litepcie_ptm_test.Base.Word.{u32, add64, sub64, slt64}
use litepcie_ptm_test.Config.{dma_buffer_count, dma_buffer_size}
use litepcie_ptm_test.Dma.{DmaChan}
use litepcie_ptm_test.File.{Ret, Errno}

-- `sw_count % DMA_BUFFER_COUNT` on int64_t: the index of a buffer, or `k` below the array where the
-- count is negative.
pub data Slot : Type 0 where
  at : ℕ → Slot
  below : ℕ → Slot

abbrev below_or_first : ℕ → Slot
below_or_first k = if k == 0 then Slot.at 0 else Slot.below k

unfoldable pub buffer_slot : ℕ → Slot
buffer_slot sw =
    if ltb sw (2 ^ 63)
    then Slot.at (sw % dma_buffer_count)
    else below_or_first ((2 ^ 64 - sw) % dma_buffer_count)

-- One copy between user memory, at an offset from the caller's pointer, and a buffer. The offset is
-- `chan->block_size * i`, a uint32_t product, which is the same for the int `i` as for the number of
-- the round.
pub record Copy : Type 0 where
  pub offset : ℕ
  pub slot : Slot

-- The variables of a loop. `lost` is `overflows` or `underflows`, an int that is only printed, like
-- `i` far from its bound in a call of the kernel, which cuts it to less than 2 ^ 31 bytes; the newest
-- copy stands first.
pub record Progress : Type 0 where
  pub i : ℕ
  pub lost : ℕ
  pub len : ℕ
  pub sw_count : ℕ
  pub copies : List Copy

pub data Round : Type 0 where
  more : Progress → Round
  stop fault : Round

-- A round that moves on to the next buffer.
abbrev pub advance : Progress → Progress
advance p = record p { i = p.i + 1; len = p.len - dma_buffer_size; sw_count = add64 p.sw_count 1 }

abbrev pub skip : Progress → Round
skip p = Round.more (advance (record p { lost = p.lost + 1 }))

abbrev pub transfer : Bool → ℕ → Progress → Round
transfer ok block_size p =
    if ok
    then Round.more (
        advance (record p {
          copies =
              record { offset = u32 (block_size * p.i); slot = buffer_slot p.sw_count } ∷ p.copies;
        }))
    else Round.fault

-- The body of the `while` of `litepcie_read`, at `len >= DMA_BUFFER_SIZE`.
unfoldable pub read_round : (ℕ → ℕ) → (ℕ → Bool) → ℕ → Progress → Round
read_round seen copied block_size p =
    if slt64 0 (sub64 (seen (2 * p.i)) p.sw_count)
    then (if slt64 (dma_buffer_count / 2) (sub64 (seen (2 * p.i + 1)) p.sw_count)
        then skip p
        else transfer (copied p.i) block_size p)
    else Round.stop

-- The body of the `while` of `litepcie_write`.
unfoldable pub write_round : (ℕ → ℕ) → (ℕ → Bool) → ℕ → Progress → Round
write_round seen copied block_size p =
    if slt64 (sub64 p.sw_count (seen (2 * p.i))) (dma_buffer_count / 2)
    then (if slt64 (sub64 p.sw_count (seen (2 * p.i + 1))) 0
        then skip p
        else transfer (copied p.i) block_size p)
    else Round.stop

-- `while (len >= DMA_BUFFER_SIZE)`, on fuel; `none` means that the fuel ran out.
unfoldable pub rounds : (Progress → Round) → ℕ → Progress → Option (Bool × Progress)
rounds round zero p = none
rounds round (suc fuel) p = if ltb p.len dma_buffer_size then some (true, p) else (elim (round p) [
  | more q ↦ rounds round fuel q
  | stop ↦ some (true, p)
  | fault ↦ some (false, p)
])

abbrev pub start : ℕ → ℕ → Progress
start size sw_count = record { i = 0; lost = 0; len = size; sw_count = sw_count; copies = [] }

-- How `wait_event_interruptible` ends: its condition held, or a signal came.
pub data Wait : Type 0 where
  woken signalled : Wait

-- What an operation leaves: the result, the new software count, the copies and the lost buffers.
pub record Outcome : Type 0 where
  pub ret : Ret
  pub sw_count : ℕ
  pub copies : List Copy
  pub lost : ℕ

abbrev pub early : Errno → ℕ → Outcome
early e sw_count = record { ret = Ret.fail e; sw_count = sw_count; copies = []; lost = 0 }

abbrev pub finish : ℕ → Option (Bool × Progress) → Option Outcome
finish size none = none
finish size (some (ok, p)) = some (record {
  ret = if ok then Ret.done (size - p.len) else Ret.fail Errno.efault;
  sw_count = p.sw_count;
  copies = p.copies;
  lost = p.lost;
})

-- The wait at the head of both operations: `idle` is the test of a non-blocking call.
abbrev pub wait_for : Bool → Bool → Wait → Option Errno
wait_for true idle w = if idle then some Errno.eagain else none
wait_for false idle Wait.woken = none
wait_for false idle Wait.signalled = some Errno.erestartsys

abbrev pub enough : ℕ → ℕ
enough size = size / dma_buffer_size + 1

module _ (nonblock : Bool) (wait : Wait) (seen : ℕ → ℕ) (copied : ℕ → Bool) (block_size : ℕ) where
  -- `litepcie_read`
  unfoldable pub read : ℕ → DmaChan → Option Outcome
  read size d = elim (wait_for nonblock (d.writer_hw_count == d.writer_sw_count) wait) [
    | some e ↦ some (early e d.writer_sw_count)
    | none ↦
        finish size
          (rounds (read_round seen copied block_size) (enough size) (start size d.writer_sw_count))
  ]

  -- `litepcie_write`
  unfoldable pub write : ℕ → DmaChan → Option Outcome
  write size d = elim (wait_for nonblock (d.reader_hw_count == d.reader_sw_count) wait) [
    | some e ↦ some (early e d.reader_sw_count)
    | none ↦
        finish size
          (rounds (write_round seen copied block_size) (enough size) (start size d.reader_sw_count))
  ]
