-- ===== src/File/Transfer/Write.antt =====
-- `litepcie_write`: what it returns, which buffers it fills and which it skips.
use litepcie_ptm_test.Base.{
  ℕ, Bool, true, false, ◌+◌, ◌-◌, ◌*◌, ◌/◌, ◌%◌, ◌^◌, ◌≤◌, ◌<◌, ◌≡◌, refl, ap, ◌⊎◌, inl, inr, some,
  length, All, arith, Bool-cases, if◌then◌else◌,
}
use litepcie_ptm_test.Base.Word.{u32, sub64, slt64}
use litepcie_ptm_test.Config.{dma_buffer_size, dma_buffer_count}
use litepcie_ptm_test.Dma.{DmaChan}
use litepcie_ptm_test.File.{Ret, Errno}
use litepcie_ptm_test.File.Transfer.{
  Slot, Copy, Progress, Round, write_round, start, Wait, Outcome, enough, finish, write,
}
use litepcie_ptm_test.File.Transfer.Rounds.{
  Ended, Ends, rounds-Ends, Booked, Booked-start, Moved, slot_of_count, lost_one, copied_one,
  Moved-Booked,
}

-- The two tests of a round.
abbrev has_room : (ℕ → ℕ) → Progress → Bool
has_room seen p = slt64 (sub64 p.sw_count (seen (2 * p.i))) (dma_buffer_count / 2)

abbrev pub underflows : (ℕ → ℕ) → Progress → Bool
underflows seen p = slt64 (sub64 p.sw_count (seen (2 * p.i + 1))) 0

module _ (seen : ℕ → ℕ) (copied : ℕ → Bool) (block_size : ℕ) where
  -- What a round that moves on has seen.
  pub write_round-more :
      (p q : Progress)
      → write_round seen copied block_size p ≡ Round.more q
      → (has_room seen p ≡ true) × Moved (underflows seen p) copied block_size p q
  unfolding write_round
  write_round-more p q h = elim (Bool-cases (has_room seen p)) [
    | inl a ↦ elim (Bool-cases (underflows seen p)) [
      | inl b ↦ (a, lost_one b (ground arith))
      | inr b ↦ (a, copied_one b (ground arith) (ground arith))
    ]
    | inr a ↦ absurd (ground arith)
  ]

  -- A filled buffer was one that the hardware was not past, and at most half the ring lay between.
  abbrev pub IsFree : ℕ → Copy → Type 0
  IsFree sw c =
      (k : ℕ) × (copied k ≡ true)
      × (c ≡ record { offset = u32 (block_size * k); slot = Slot.at ((sw + k) % dma_buffer_count) })
      × (sw + k < seen (2 * k) + dma_buffer_count / 2)
      × (seen (2 * k + 1) ≤ sw + k)

  record Writing (size sw : ℕ) (p : Progress) : Type 0 where
    booked : Booked size sw p
    free : All (IsFree sw) p.copies

  Writing-round :
      (size sw : ℕ)
      → sw + size < 2 ^ 63
      → ((k : ℕ) → seen k < 2 ^ 63)
      → (p q : Progress) → Writing size sw p
      → dma_buffer_size ≤ p.len
      → (has_room seen p ≡ true) × Moved (underflows seen p) copied block_size p q
      → Writing size sw q × (q.len ≡ p.len - dma_buffer_size)
  Writing-round size sw small fits p q r h (a, lost_one d e) =
      let (b, shorter) = Moved-Booked copied block_size (lost_one d e) h r.booked in
      (record { booked = b; free = rw e r.free }, shorter)
  Writing-round size sw small fits p q r h (a, copied_one d c e) =
      let booked = Moved-Booked copied block_size (copied_one d c e) h r.booked in
      let here : p.sw_count ≡ sw + p.i = omega (arith, r.booked.bytes, r.booked.count) in
      let ahead : sw + p.i < seen (2 * p.i) + dma_buffer_count / 2 =
        ground (arith, here, fits (2 * p.i)) in
      let near : seen (2 * p.i + 1) ≤ sw + p.i = ground (arith, here, fits (2 * p.i + 1)) in
      let bound : sw + p.i < 2 ^ 63 = omega (arith, r.booked.bytes) in
      (
        record {
          booked = booked.0;
          free = rw e ((p.i, c, rw (here, slot_of_count (sw + p.i) bound), ahead, near), r.free);
        },
        booked.1,
      )

  write_rounds-Ends :
      (size sw : ℕ)
      → sw + size < 2 ^ 63
      → ((k : ℕ) → seen k < 2 ^ 63)
      → Ends (Writing size sw) (write_round seen copied block_size) (enough size) (start size sw)
  write_rounds-Ends size sw small fits =
      rounds-Ends (Writing size sw) (write_round seen copied block_size)
        (λ p q r h e. Writing-round size sw small fits p q r h (write_round-more p q e))
        (enough size) (start size sw) (omega arith)
        (record { booked = Booked-start size sw (omega arith); free = tt })

  -- What a call that gets past the wait comes to: each buffer that it consumed was copied or lost,
  -- every copy succeeded and is free, and the result is the bytes consumed, with less than a buffer
  -- left to do or half the ring was in flight, or -EFAULT, where the next copy failed.
  pub record WriteLedger (size sw : ℕ) (o : Outcome) : Type 0 where
    pub consumed : ℕ
    pub within : dma_buffer_size * consumed ≤ size
    pub count : o.sw_count ≡ sw + consumed
    pub buffers : length o.copies + o.lost ≡ consumed
    pub ret :
        ((o.ret ≡ Ret.done (dma_buffer_size * consumed))
          × ((size < dma_buffer_size * (consumed + 1))
              ⊎ (seen (2 * consumed) + dma_buffer_count / 2 ≤ sw + consumed)))
        ⊎ ((o.ret ≡ Ret.fail Errno.efault) × (copied consumed ≡ false))
    pub free : All (IsFree sw) o.copies

  write_round-stop :
      (p : Progress) → write_round seen copied block_size p ≡ Round.stop → has_room seen p ≡ false
  unfolding write_round
  write_round-stop p e = ground arith

  write_round-fault :
      (p : Progress) → write_round seen copied block_size p ≡ Round.fault → copied p.i ≡ false
  unfolding write_round
  write_round-fault p e = ground arith

  -- The result and why the loop ended.
  write-ret :
      (size sw : ℕ) (ok : Bool) (p : Progress)
      → sw + size < 2 ^ 63
      → ((k : ℕ) → seen k < 2 ^ 63)
      → Writing size sw p
      → Ended (write_round seen copied block_size) ok p
      → let ret = if ok then Ret.done (size - p.len) else Ret.fail Errno.efault in
        ((ret ≡ Ret.done (dma_buffer_size * p.i))
          × ((size < dma_buffer_size * (p.i + 1))
              ⊎ (seen (2 * p.i) + dma_buffer_count / 2 ≤ sw + p.i)))
        ⊎ ((ret ≡ Ret.fail Errno.efault) × (copied p.i ≡ false))
  write-ret size sw false p small fits r over = inr (refl, write_round-fault p over)
  write-ret size sw true p small fits r over =
      let bytes : size - p.len ≡ dma_buffer_size * p.i = omega (arith, r.booked.bytes) in
      let here : p.sw_count ≡ sw + p.i = omega (arith, r.booked.bytes, r.booked.count) in
      inl (
        ap Ret.done bytes,
        elim over [
          | inl short ↦ inl (omega (arith, short, r.booked.bytes))
          | inr e ↦
              let none_left = write_round-stop p e in
              inr (ground (arith, none_left, here, fits (2 * p.i), r.booked.bytes))
        ],
      )

  Writing-WriteLedger :
      (size sw : ℕ) (ok : Bool) (p : Progress)
      → sw + size < 2 ^ 63
      → ((k : ℕ) → seen k < 2 ^ 63)
      → Writing size sw p
      → Ended (write_round seen copied block_size) ok p
      → (o : Outcome) × (finish size (some (ok, p)) ≡ some o) × WriteLedger size sw o
  Writing-WriteLedger size sw ok p small fits r over =
      let b = r.booked in
      (
        _,
        refl,
        record {
          consumed = p.i;
          within = omega (arith, b.bytes);
          count = omega (arith, b.bytes, b.count);
          buffers = b.buffers;
          ret = write-ret size sw ok p small fits r over;
          free = r.free;
        },
      )

-- A blocking `litepcie_write` that is woken returns, whatever the loop finds as the hardware count
-- and whichever copies fail: the software count moves by the buffers consumed, at most as many as
-- fit the size, each of them filled or skipped; the result is their bytes, and then less than a
-- buffer is left to do or 128 buffers were in flight, or it is -EFAULT, and then the copy of the next
-- buffer failed; every copy that is counted succeeded, and goes from the offset of its round, modulo
-- 2 ^ 32, into the buffer of its count, which was fewer than 128 buffers ahead of the hardware and, at
-- the second look, not yet passed by it. The hardware counts and the software count plus the size are
-- below 2 ^ 63.
pub write-WriteLedger :
    (seen : ℕ → ℕ) (copied : ℕ → Bool) (block_size size : ℕ) (d : DmaChan)
    → d.reader_sw_count + size < 2 ^ 63
    → ((k : ℕ) → seen k < 2 ^ 63)
    → (o : Outcome) × (write false Wait.woken seen copied block_size size d ≡ some o)
      × WriteLedger seen copied block_size size d.reader_sw_count o
unfolding write
write-WriteLedger seen copied block_size size d small fits =
    let e = write_rounds-Ends seen copied block_size size d.reader_sw_count small fits in
    rw e.returns (
      Writing-WriteLedger seen copied block_size size d.reader_sw_count e.ok e.last small fits
        e.kept e.ended)
