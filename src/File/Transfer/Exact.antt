-- ===== src/File/Transfer/Exact.antt =====
-- Transfers while the hardware counts stand still and every copy succeeds: the exact result.
use litepcie_ptm_test.Base.{
  ℕ, zero, suc, Bool, true, false, ◌+◌, ◌-◌, ◌*◌, ◌/◌, ◌%◌, ◌^◌, ◌≤◌, ◌<◌, min, ◌≡◌, refl, sym, ap,
  ◌∙◌, inl, inr, some, List, [], ◌∷◌, arith, Bool-cases, ltb, ltb→lt, if◌then◌else◌,
}
use litepcie_ptm_test.Base.Word.{u32}
use litepcie_ptm_test.Config.{dma_buffer_size, dma_buffer_count}
use litepcie_ptm_test.Dma.{DmaChan}
use litepcie_ptm_test.File.{Ret}
use litepcie_ptm_test.File.Transfer.{
  Slot, Copy, Progress, Round, read_round, write_round, rounds, buffer_slot, start, Wait, Outcome,
  enough, finish, read, write, skip, transfer, advance,
}
use litepcie_ptm_test.File.Transfer.Rounds.{Ended, rounds-Ends, Booked, Booked-start, slot_of_count}

-- `k` copies from the buffer after `first` others on, the newest first, at offsets modulo 2 ^ 32.
pub copies_of : ℕ → ℕ → ℕ → ℕ → List Copy
copies_of block_size sw first zero = []
copies_of block_size sw first (suc k) =
    record {
      offset = u32 (block_size * (first + k));
      slot = Slot.at ((sw + (first + k)) % dma_buffer_count);
    }
    ∷ copies_of block_size sw first k

-- Rounds that move on while fewer than `avail` buffers are done, and drop the first `behind`.
module _ (block_size size sw avail behind : ℕ) (small : sw + size < 2 ^ 63) where
  abbrev expected : Progress → Round
  expected p =
      if ltb p.i avail
      then (if ltb p.i behind then skip p else transfer true block_size p)
      else Round.stop

  record Exactly (p : Progress) : Type 0 where
    booked : Booked size sw p
    within : p.i ≤ avail
    drops : p.lost ≡ min p.i behind
    copies : p.copies ≡ copies_of block_size sw behind (p.i - behind)

  Exactly-drop :
      (p : Progress)
      → Exactly p
      → dma_buffer_size ≤ p.len
      → p.i < avail
      → p.i < behind
      → Exactly (advance (record p { lost = p.lost + 1 }))
  Exactly-drop p x h a b =
      let none_yet : p.i - behind ≡ p.i + 1 - behind = omega arith in
      record {
        booked = ground arith;
        within = omega arith;
        drops = omega arith;
        copies = x.copies ∙ ap (copies_of block_size sw behind) none_yet;
      }

  Exactly-copy :
      (p : Progress)
      → Exactly p
      → dma_buffer_size ≤ p.len
      → p.i < avail
      → behind ≤ p.i
      → Exactly (
          advance (record p {
            copies =
                record { offset = u32 (block_size * p.i); slot = buffer_slot p.sw_count }
                ∷ p.copies;
          }))
  unfolding copies_of
  Exactly-copy p x h a b =
      let here : p.sw_count ≡ sw + p.i = omega (arith, x.booked.bytes, x.booked.count) in
      let place : behind + (p.i - behind) ≡ p.i = omega arith in
      let one_more : p.i + 1 - behind ≡ suc (p.i - behind) = omega arith in
      record {
        booked = ground arith;
        within = omega arith;
        drops = omega arith;
        copies = rw (
          here,
          one_more,
          place,
          slot_of_count (sw + p.i) (omega (arith, x.booked.bytes)),
          x.copies,
        );
      }

  Exactly-step :
      (p q : Progress)
      → Exactly p
      → dma_buffer_size ≤ p.len
      → expected p ≡ Round.more q
      → Exactly q × (q.len ≡ p.len - dma_buffer_size)
  Exactly-step p q x h e = elim (Bool-cases (ltb p.i avail)) [
    | inl a ↦ elim (Bool-cases (ltb p.i behind)) [
      | inl b ↦
          let e' : q ≡ advance (record p { lost = p.lost + 1 }) = ground arith in
          rw e' (Exactly-drop p x h (ltb→lt _ _ a) (ltb→lt _ _ b), refl)
      | inr b ↦
          let e' : q
              ≡ advance (record p {
                copies =
                    record { offset = u32 (block_size * p.i); slot = buffer_slot p.sw_count }
                    ∷ p.copies;
              }) =
            ground arith in
          let late : behind ≤ p.i = ground arith in
          rw e' (Exactly-copy p x h (ltb→lt _ _ a) late, refl)
    ]
    | inr a ↦ absurd (ground arith)
  ]

  -- The buffers consumed.
  abbrev consumed : ℕ
  consumed = min (size / dma_buffer_size) avail

  abbrev exact_outcome : Outcome
  exact_outcome = record {
    ret = Ret.done (dma_buffer_size * consumed);
    sw_count = sw + consumed;
    copies = copies_of block_size sw behind (consumed - behind);
    lost = min consumed behind;
  }

  Exactly-outcome :
      (p : Progress)
      → Exactly p
      → p.i ≡ consumed
      → finish size (some (true, p)) ≡ some exact_outcome
  Exactly-outcome p x e =
      let bytes : size - p.len ≡ dma_buffer_size * consumed = omega (arith, x.booked.bytes) in
      let count : p.sw_count ≡ sw + consumed = omega (arith, x.booked.bytes, x.booked.count) in
      let copies : p.copies ≡ copies_of block_size sw behind (consumed - behind) =
        x.copies ∙ ap (copies_of block_size sw behind) (omega arith) in
      let lost : p.lost ≡ min consumed behind = omega (arith, x.drops) in
      rw (bytes, count, copies, lost)

  Exactly-Ended :
      (round : Progress → Round)
      → ((p : Progress) → Exactly p → round p ≡ expected p)
      → (ok : Bool) (p : Progress) → Exactly p
      → Ended round ok p
      → finish size (some (ok, p)) ≡ some exact_outcome
  Exactly-Ended round same true p x (inl short) =
      Exactly-outcome p x (omega (arith, x.booked.bytes, x.within))
  Exactly-Ended round same true p x (inr e) =
      let all : avail ≤ p.i = ground (arith, same p x) in
      Exactly-outcome p x (omega (arith, x.booked.bytes, x.within))
  Exactly-Ended round same false p x e = absurd (ground (arith, same p x))

  exact_rounds :
      (round : Progress → Round)
      → ((p : Progress) → Exactly p → round p ≡ expected p)
      → finish size (rounds round (enough size) (start size sw)) ≡ some exact_outcome
  unfolding copies_of
  exact_rounds round same =
      let none_yet : 0 - behind ≡ 0 = omega arith in
      let first : Exactly (start size sw) = record {
        booked = Booked-start size sw (omega arith);
        within = omega arith;
        drops = omega arith;
        copies = rw none_yet;
      } in
      let e =
        rounds-Ends Exactly round (λ p q x h r. Exactly-step p q x h (sym (same p x) ∙ r))
          (enough size) (start size sw) (omega arith) first in
      rw e.returns (Exactly-Ended round same e.ok e.last e.kept e.ended)

-- With the hardware at `hw_count` completed buffers throughout and copies that succeed, a woken
-- `litepcie_read` takes min (size / 8192) (hw_count - sw_count) buffers, drops those that are more
-- than 128 behind the hardware, copies the others in order, buffer `k` of the call to the offset
-- `block_size * k` modulo 2 ^ 32, and returns the bytes of all that it took. The software count is at most `hw_count`, and
-- `hw_count` plus the size below 2 ^ 63.
pub read_exact :
    (block_size size hw_count : ℕ) (d : DmaChan)
    → d.writer_sw_count ≤ hw_count
    → hw_count + size < 2 ^ 63
    → let n = min (size / dma_buffer_size) (hw_count - d.writer_sw_count) in
      let behind = hw_count - d.writer_sw_count - dma_buffer_count / 2 in
      read false Wait.woken (λ _. hw_count) (λ _. true) block_size size d
      ≡ some (record {
        ret = Ret.done (dma_buffer_size * n);
        sw_count = d.writer_sw_count + n;
        copies = copies_of block_size d.writer_sw_count behind (n - behind);
        lost = min n behind;
      })
unfolding read read_round
read_exact block_size size hw_count d h small =
    exact_rounds block_size size d.writer_sw_count (hw_count - d.writer_sw_count)
      (hw_count - d.writer_sw_count - dma_buffer_count / 2) (omega arith)
      (read_round (λ _. hw_count) (λ _. true) block_size)
      λ p x.
        let here : p.sw_count ≡ d.writer_sw_count + p.i =
          omega (arith, x.booked.bytes, x.booked.count) in
        ground (arith, x.within, x.booked.bytes)

-- With the hardware at `hw_count` throughout, copies that succeed and at most 128 buffers in
-- flight, a woken `litepcie_write` takes min (size / 8192) (hw_count + 128 - sw_count) buffers,
-- skips those that the hardware has passed, fills the others in order, buffer `k` of the call from
-- the offset `block_size * k` modulo 2 ^ 32, and returns the bytes of all that it took. `hw_count` + 128 plus the size is below 2 ^ 63.
pub write_exact :
    (block_size size hw_count : ℕ) (d : DmaChan)
    → d.reader_sw_count ≤ hw_count + dma_buffer_count / 2
    → hw_count + dma_buffer_count / 2 + size < 2 ^ 63
    → let n = min (size / dma_buffer_size) (hw_count + dma_buffer_count / 2 - d.reader_sw_count) in
      let behind = hw_count - d.reader_sw_count in
      write false Wait.woken (λ _. hw_count) (λ _. true) block_size size d
      ≡ some (record {
        ret = Ret.done (dma_buffer_size * n);
        sw_count = d.reader_sw_count + n;
        copies = copies_of block_size d.reader_sw_count behind (n - behind);
        lost = min n behind;
      })
unfolding write write_round
write_exact block_size size hw_count d h small =
    exact_rounds block_size size d.reader_sw_count
      (hw_count + dma_buffer_count / 2 - d.reader_sw_count) (hw_count - d.reader_sw_count)
      (omega arith) (write_round (λ _. hw_count) (λ _. true) block_size)
      λ p x.
        let here : p.sw_count ≡ d.reader_sw_count + p.i =
          omega (arith, x.booked.bytes, x.booked.count) in
        ground (arith, x.within, x.booked.bytes)
