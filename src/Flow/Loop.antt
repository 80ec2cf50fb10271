-- ===== src/Flow/Loop.antt =====
-- software/kernel/main.c: what the loops of `litepcie_read` and `litepcie_write` add to the history of
-- an engine.
use litepcie_ptm_test.Base.{
  ℕ, Bool, ◌+◌, ◌-◌, ◌*◌, ◌/◌, ◌^◌, ◌≤◌, ◌<◌, ◌≡◌, refl, ap, inl, inr, ◌⊎◌, List, ◌++◌, Option,
  none, some, arith, sym, ◌∙◌,
}
use litepcie_ptm_test.Base.Word.{u32}
use litepcie_ptm_test.Config.{dma_buffer_size}
use litepcie_ptm_test.File.{Errno}
use litepcie_ptm_test.File.Transfer.{Progress, Round, rounds, start, Outcome, enough, finish, early}
use litepcie_ptm_test.File.Transfer.Rounds.{
  Ends, rounds-Ends, Booked, Booked-start, Moved, lost_one, copied_one, Moved-Booked, slot_of_count,
}
use litepcie_ptm_test.Flow.{Handover, InOrder, InOrder-more, handovers, Added}

-- A call from the wait on.
abbrev pub after_wait : (Progress → Round) → (size sw : ℕ) → Option Errno → Option Outcome
after_wait round size sw (some e) = some (early e sw)
after_wait round size sw none = finish size (rounds round (enough size) (start size sw))

module _ (round : Progress → Round) (copied : ℕ → Bool) (size sw top : ℕ)
    (before : List Handover) where
  -- Where a round moves on, it is for a buffer below `top`, which it copies or skips.
  abbrev pub MovesBelow : Type 0
  MovesBelow =
      (p q : Progress)
      → p.sw_count ≡ sw + p.i
      → p.sw_count < 2 ^ 63
      → round p ≡ Round.more q
      → (sw + p.i < top) × (skips : Bool) × Moved skips copied dma_buffer_size p q

  -- The loop after the buffers up to `p.i`.
  record Doing (p : Progress) : Type 0 where
    booked : Booked size sw p
    within : (p.i ≡ 0) ⊎ (sw + p.i ≤ top)
    order : InOrder (sw + p.i) (handovers sw copied p.copies ++ before)

  Doing-Moved :
      (p q : Progress) (skips : Bool)
      → sw + size < 2 ^ 63
      → size < 2 ^ 31
      → Doing p
      → dma_buffer_size ≤ p.len
      → sw + p.i < top
      → Moved skips copied dma_buffer_size p q
      → Doing q × (q.len ≡ p.len - dma_buffer_size)
  Doing-Moved p q skips fits short r h room (lost_one d e) =
      let (b, shorter) = Moved-Booked copied dma_buffer_size (lost_one d e) h r.booked in
      let on : q.i ≡ p.i + 1 = ground arith in
      let same : q.copies ≡ p.copies = ground arith in
      (
        record {
          booked = b;
          within = inr (omega arith);
          order = rw same (InOrder-more (sw + p.i) (sw + q.i) _ (omega arith) r.order);
        },
        shorter,
      )
  Doing-Moved p q skips fits short r h room (copied_one d c e) =
      let (b, shorter) = Moved-Booked copied dma_buffer_size (copied_one d c e) h r.booked in
      let on : q.i ≡ p.i + 1 = ground arith in
      let place : u32 (dma_buffer_size * p.i) / dma_buffer_size ≡ p.i =
        omega (arith, r.booked.bytes) in
      let here : p.sw_count ≡ sw + p.i = omega (arith, r.booked.bytes, r.booked.count) in
      let slot = slot_of_count (sw + p.i) (omega (arith, r.booked.bytes)) in
      (
        record {
          booked = b;
          within = inr (omega arith);
          order = rw (e, place, here) (omega arith, slot, c, r.order);
        },
        shorter,
      )

  module _ (below : MovesBelow) (fits : sw + size < 2 ^ 63) (short : size < 2 ^ 31)
      (earlier : InOrder sw before) where
    Doing-round :
        (p q : Progress)
        → Doing p
        → dma_buffer_size ≤ p.len
        → round p ≡ Round.more q
        → Doing q × (q.len ≡ p.len - dma_buffer_size)
    Doing-round p q r h e =
        let here : p.sw_count ≡ sw + p.i = omega (arith, r.booked.bytes, r.booked.count) in
        let (room, skips, moved) = below p q here (omega (arith, r.booked.bytes)) e in
        Doing-Moved p q skips fits short r h room moved

    loop-Ends : Ends Doing round (enough size) (start size sw)
    loop-Ends =
        rounds-Ends Doing round Doing-round (enough size) (start size sw) (omega arith) (record {
          booked = Booked-start size sw (omega arith);
          within = inl refl;
          order = InOrder-more sw (sw + 0) before (omega arith) earlier;
        })

    Doing-Added :
        (ok : Bool) (p : Progress) (o : Outcome)
        → Doing p
        → finish size (some (ok, p)) ≡ some o
        → Added copied sw top before o.sw_count o.copies o.lost
    Doing-Added ok p o r e =
        let b = r.booked in
        let here : p.sw_count ≡ sw + p.i = omega (arith, b.bytes, b.count) in
        let sw_count : o.sw_count ≡ p.sw_count = ground arith in
        let copies : o.copies ≡ p.copies = ground arith in
        let lost : o.lost ≡ p.lost = ground arith in
        record {
          within = elim (r.within) [ inl z ↦ inl (omega arith) | inr h ↦ inr (omega arith) ];
          account = rw (copies, lost) (omega (arith, b.buffers));
          order = rw (copies, sw_count, here) r.order;
        }

    pub after_wait-Added :
        (w : Option Errno) (o : Outcome)
        → after_wait round size sw w ≡ some o
        → Added copied sw top before o.sw_count o.copies o.lost
    after_wait-Added (some e) o h =
        let idle : o ≡ early e sw = ground arith in
        rw idle (record { within = inl refl; account = omega arith; order = earlier })
    after_wait-Added none o h =
        let ends = loop-Ends in
        Doing-Added ends.ok ends.last o ends.kept (sym (ap (finish size) ends.returns) ∙ h)
