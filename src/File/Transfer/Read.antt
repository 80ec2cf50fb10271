-- ===== src/File/Transfer/Read.antt =====
-- `litepcie_read`: what it returns, which buffers it copies and which it drops.
use litepcie_ptm_test.Base.{
  ℕ, Bool, true, false, ◌+◌, ◌-◌, ◌*◌, ◌/◌, ◌%◌, ◌^◌, ◌≤◌, ◌<◌, ◌≡◌, refl, ap, ◌⊎◌, inl, inr, some,
  length, All, arith, Bool-cases, if◌then◌else◌,
}
use litepcie_ptm_test.Base.Word.{u32, sub64, slt64}
use litepcie_ptm_test.Config.{dma_buffer_size, dma_buffer_count}
use litepcie_ptm_test.Dma.{DmaChan}
use litepcie_ptm_test.File.{Ret, Errno}
use litepcie_ptm_test.File.Transfer.{
  Slot, Copy, Progress, Round, read_round, start, Wait, Outcome, enough, finish, read,
}
use litepcie_ptm_test.File.Transfer.Rounds.{
  Ended, Ends, rounds-Ends, Booked, Booked-start, Moved, slot_of_count, lost_one, copied_one,
  Moved-Booked,
}

-- The two tests of a round.
abbrev pub has_data : (ℕ → ℕ) → Progress → Bool
has_data seen p = slt64 0 (sub64 (seen (2 * p.i)) p.sw_count)

abbrev pub too_late : (ℕ → ℕ) → Progress → Bool
too_late seen p = slt64 (dma_buffer_count / 2) (sub64 (seen (2 * p.i + 1)) p.sw_count)

module _ (seen : ℕ → ℕ) (copied : ℕ → Bool) (block_size : ℕ) where
  -- What a round that moves on has seen.
  pub read_round-more :
      (p q : Progress)
      → read_round seen copied block_size p ≡ Round.more q
      → (has_data seen p ≡ true) × Moved (too_late seen p) copied block_size p q
  unfolding read_round
  read_round-more p q h = elim (Bool-cases (has_data seen p)) [
    | inl a ↦ elim (Bool-cases (too_late seen p)) [
      | inl b ↦ (a, lost_one b (ground arith))
      | inr b ↦ (a, copied_one b (ground arith) (ground arith))
    ]
    | inr a ↦ absurd (ground arith)
  ]

  -- A copied buffer held data that the hardware had completed, and the hardware was at most half
  -- the ring ahead of it.
  abbrev pub IsFresh : ℕ → Copy → Type 0
  IsFresh sw c =
      (k : ℕ) × (copied k ≡ true)
      × (c ≡ record { offset = u32 (block_size * k); slot = Slot.at ((sw + k) % dma_buffer_count) })
      × (sw + k < seen (2 * k))
      × (seen (2 * k + 1) ≤ sw + k + dma_buffer_count / 2)

  record Reading (size sw : ℕ) (p : Progress) : Type 0 where
    booked : Booked size sw p
    fresh : All (IsFresh sw) p.copies

  Reading-round :
      (size sw : ℕ)
      → sw + size < 2 ^ 63
      → ((k : ℕ) → seen k < 2 ^ 63)
      → (p q : Progress) → Reading size sw p
      → dma_buffer_size ≤ p.len
      → (has_data seen p ≡ true) × Moved (too_late seen p) copied block_size p q
      → Reading size sw q × (q.len ≡ p.len - dma_buffer_size)
  Reading-round size sw small fits p q r h (a, lost_one d e) =
      let (b, shorter) = Moved-Booked copied block_size (lost_one d e) h r.booked in
      (record { booked = b; fresh = rw e r.fresh }, shorter)
  Reading-round size sw small fits p q r h (a, copied_one d c e) =
      let booked = Moved-Booked copied block_size (copied_one d c e) h r.booked in
      let here : p.sw_count ≡ sw + p.i = omega (arith, r.booked.bytes, r.booked.count) in
      let ahead : sw + p.i < seen (2 * p.i) = ground (arith, here, fits (2 * p.i)) in
      let near : seen (2 * p.i + 1) ≤ sw + p.i + dma_buffer_count / 2 =
        ground (arith, here, fits (2 * p.i + 1)) in
      let bound : sw + p.i < 2 ^ 63 = omega (arith, r.booked.bytes) in
      (
        record {
          booked = booked.0;
          fresh = rw e ((p.i, c, rw (here, slot_of_count (sw + p.i) bound), ahead, near), r.fresh);
        },
        booked.1,
      )

  read_rounds-Ends :
      (size sw : ℕ)
      → sw + size < 2 ^ 63
      → ((k : ℕ) → seen k < 2 ^ 63)
      → Ends (Reading size sw) (read_round seen copied block_size) (enough size) (start size sw)
  read_rounds-Ends size sw small fits =
      rounds-Ends (Reading size sw) (read_round seen copied block_size)
        (λ p q r h e. Reading-round size sw small fits p q r h (read_round-more p q e))
        (enough size) (start size sw) (omega arith)
        (record { booked = Booked-start size sw (omega arith); fresh = tt })

  -- What a call that gets past the wait comes to: each buffer that it consumed was copied or lost,
  -- every copy succeeded and is fresh, and the result is the bytes consumed, with less than a buffer
  -- left to do or the hardware had completed no more, or -EFAULT, where the next copy failed.
  pub record ReadLedger (size sw : ℕ) (o : Outcome) : Type 0 where
    pub consumed : ℕ
    pub within : dma_buffer_size * consumed ≤ size
    pub count : o.sw_count ≡ sw + consumed
    pub buffers : length o.copies + o.lost ≡ consumed
    pub ret :
        ((o.ret ≡ Ret.done (dma_buffer_size * consumed))
          × ((size < dma_buffer_size * (consumed + 1)) ⊎ (seen (2 * consumed) ≤ sw + consumed)))
        ⊎ ((o.ret ≡ Ret.fail Errno.efault) × (copied consumed ≡ false))
    pub fresh : All (IsFresh sw) o.copies

  read_round-stop :
      (p : Progress) → read_round seen copied block_size p ≡ Round.stop → has_data seen p ≡ false
  unfolding read_round
  read_round-stop p e = ground arith

  read_round-fault :
      (p : Progress) → read_round seen copied block_size p ≡ Round.fault → copied p.i ≡ false
  unfolding read_round
  read_round-fault p e = ground arith

  -- The result and why the loop ended.
  read-ret :
      (size sw : ℕ) (ok : Bool) (p : Progress)
      → sw + size < 2 ^ 63
      → ((k : ℕ) → seen k < 2 ^ 63)
      → Reading size sw p
      → Ended (read_round seen copied block_size) ok p
      → let ret = if ok then Ret.done (size - p.len) else Ret.fail Errno.efault in
        ((ret ≡ Ret.done (dma_buffer_size * p.i))
          × ((size < dma_buffer_size * (p.i + 1)) ⊎ (seen (2 * p.i) ≤ sw + p.i)))
        ⊎ ((ret ≡ Ret.fail Errno.efault) × (copied p.i ≡ false))
  read-ret size sw false p small fits r over = inr (refl, read_round-fault p over)
  read-ret size sw true p small fits r over =
      let bytes : size - p.len ≡ dma_buffer_size * p.i = omega (arith, r.booked.bytes) in
      let here : p.sw_count ≡ sw + p.i = omega (arith, r.booked.bytes, r.booked.count) in
      inl (
        ap Ret.done bytes,
        elim over [
          | inl short ↦ inl (omega (arith, short, r.booked.bytes))
          | inr e ↦
              let none_left = read_round-stop p e in
              inr (ground (arith, none_left, here, fits (2 * p.i), r.booked.bytes))
        ],
      )

  Reading-ReadLedger :
      (size sw : ℕ) (ok : Bool) (p : Progress)
      → sw + size < 2 ^ 63
      → ((k : ℕ) → seen k < 2 ^ 63)
      → Reading size sw p
      → Ended (read_round seen copied block_size) ok p
      → (o : Outcome) × (finish size (some (ok, p)) ≡ some o) × ReadLedger size sw o
  Reading-ReadLedger size sw ok p small fits r over =
      let b = r.booked in
      (
        _,
        refl,
        record {
          consumed = p.i;
          within = omega (arith, b.bytes);
          count = omega (arith, b.bytes, b.count);
          buffers = b.buffers;
          ret = read-ret size sw ok p small fits r over;
          fresh = r.fresh;
        },
      )

-- A blocking `litepcie_read` that is woken returns, whatever the loop finds as the hardware count
-- and whichever copies fail: the software count moves by the buffers consumed, at most as many as
-- fit the size, each of them copied or dropped; the result is their bytes, and then less than a
-- buffer is left to do or the hardware had completed no more, or it is -EFAULT, and then the copy of
-- the next buffer failed; every copy that is counted succeeded, and goes to the offset of its round,
-- modulo 2 ^ 32, from the buffer of its count, which was complete before the copy and, at the second
-- look, at most 128 buffers behind the hardware. The hardware counts and the software count plus the
-- size are below 2 ^ 63.
pub read-ReadLedger :
    (seen : ℕ → ℕ) (copied : ℕ → Bool) (block_size size : ℕ) (d : DmaChan)
    → d.writer_sw_count + size < 2 ^ 63
    → ((k : ℕ) → seen k < 2 ^ 63)
    → (o : Outcome) × (read false Wait.woken seen copied block_size size d ≡ some o)
      × ReadLedger seen copied block_size size d.writer_sw_count o
unfolding read
read-ReadLedger seen copied block_size size d small fits =
    let e = read_rounds-Ends seen copied block_size size d.writer_sw_count small fits in
    rw e.returns (
      Reading-ReadLedger seen copied block_size size d.writer_sw_count e.ok e.last small fits e.kept
        e.ended)
