-- ===== src/Flow.antt =====
-- software/kernel/main.c: the counts of an engine and the history of its buffers, as the two directions
-- have them in common.
pub mod Loop
use litepcie_ptm_test.Base.{
  ℕ, Bool, true, ◌%◌, ◌+◌, ◌/◌, ◌^◌, ◌≤◌, ◌<◌, ◌≡◌, ◌≢◌, refl, sym, ap, ◌∙◌, ◌⊎◌, inl, inr, suc,
  List, [], ◌∷◌, ◌++◌, length, length-append, arith,
}
use litepcie_ptm_test.Config.{dma_buffer_size, dma_buffer_count}
use litepcie_ptm_test.Dma.{DmaChan}
use litepcie_ptm_test.File.Transfer.{Copy, Slot}

-- The enable flag and the counts of one engine.
pub record Counts : Type 0 where
  pub enable : ℕ
  pub hw_count : ℕ
  pub hw_count_last : ℕ
  pub sw_count : ℕ

abbrev pub writer_of : DmaChan → Counts
writer_of d = record {
  enable = d.writer_enable;
  hw_count = d.writer_hw_count;
  hw_count_last = d.writer_hw_count_last;
  sw_count = d.writer_sw_count;
}

abbrev pub reader_of : DmaChan → Counts
reader_of d = record {
  enable = d.reader_enable;
  hw_count = d.reader_hw_count;
  hw_count_last = d.reader_hw_count_last;
  sw_count = d.reader_sw_count;
}

-- A buffer that a call has handed over, by the count of the buffer: the slot of the ring that was
-- copied from or to, and whether the copy succeeded.
pub record Handover : Type 0 where
  pub count : ℕ
  pub slot : Slot
  pub arrived : Bool

-- A channel with one engine that runs: the number of buffers that the device has completed, the
-- buffers that calls have copied, the latest first, and how many buffers they lost.
pub record World : Type 0 where
  pub dma : DmaChan
  pub completed : ℕ
  pub copied : List Handover
  pub lost : ℕ

-- The channel that a handler for this one channel leaves.
abbrev pub first_chan : DmaChan → List DmaChan → DmaChan
first_chan d [] = d
first_chan d (d' ∷ ds) = d'

-- The buffers that a call from software count `sw` has handed over: its copies go from or to
-- consecutive places of one buffer's size in the caller's memory, and `ok` says which succeed.
abbrev pub handovers : ℕ → (ℕ → Bool) → List Copy → List Handover
handovers sw ok [] = []
handovers sw ok (c ∷ cs) =
    record {
      count = sw + c.offset / dma_buffer_size;
      slot = c.slot;
      arrived = ok (c.offset / dma_buffer_size);
    }
    ∷ handovers sw ok cs

pub length-handovers :
    (sw : ℕ) (ok : ℕ → Bool) (cs : List Copy) → length (handovers sw ok cs) ≡ length cs
length-handovers sw ok [] = refl
length-handovers sw ok (c ∷ cs) = ap suc (length-handovers sw ok cs)

-- Counts in descending order, all below a bound, each with the ring's slot for it and a copy that
-- succeeded.
abbrev pub InOrder : ℕ → List Handover → Type 0
InOrder bound [] = Unit
InOrder bound (n ∷ ns) =
    (n.count < bound)
    × (n.slot ≡ Slot.at (n.count % dma_buffer_count))
    × (n.arrived ≡ true)
    × InOrder n.count ns

pub InOrder-more : (a b : ℕ) (ns : List Handover) → a ≤ b → InOrder a ns → InOrder b ns
InOrder-more a b [] h d = tt
InOrder-more a b (n ∷ ns) h d = (omega (arith, d.0, h), d.1, d.2, d.3)

-- The engine is on and the counts are in order, the software count is at
-- most `ahead` buffers beyond the hardware count, and the history accounts for every buffer up to it.
pub record IsOrdered (ahead completed : ℕ) (c : Counts) (copied : List Handover) (lost : ℕ)
    : Type 0 where
  pub on : c.enable ≢ 0
  pub last : c.hw_count_last ≡ c.hw_count
  pub within : c.sw_count ≤ c.hw_count + ahead
  pub complete : c.hw_count ≤ completed
  pub paced : completed < c.hw_count + 2 ^ 24
  pub small : completed < 2 ^ 63
  pub order : InOrder c.sw_count copied
  pub account : length copied + lost ≡ c.sw_count

-- Nothing of the engine has changed.
pub record Same (c c' : Counts) : Type 0 where
  pub enable : c'.enable ≡ c.enable
  pub hw_count : c'.hw_count ≡ c.hw_count
  pub hw_count_last : c'.hw_count_last ≡ c.hw_count_last
  pub sw_count : c'.sw_count ≡ c.sw_count

-- The handler moved the hardware count to `n`, or left it.
pub record Handled (n : ℕ) (c c' : Counts) : Type 0 where
  pub enable : c'.enable ≡ c.enable
  pub sw_count : c'.sw_count ≡ c.sw_count
  pub moved :
      ((c'.hw_count ≡ n) × (c'.hw_count_last ≡ n))
      ⊎ ((c'.hw_count ≡ c.hw_count) × (c'.hw_count_last ≡ c.hw_count_last))

-- What a call of read or write adds to the history, from software count `sw` on, up to `top`.
pub record Added (ok : ℕ → Bool) (sw top : ℕ) (before : List Handover) (sw' : ℕ)
    (copies : List Copy) (lost : ℕ) : Type 0 where
  pub within : (sw' ≡ sw) ⊎ (sw' ≤ top)
  pub account : sw + length copies + lost ≡ sw'
  pub order : InOrder sw' (handovers sw ok copies ++ before)

module _ (ahead : ℕ) where
  pub Same-IsOrdered :
      (completed : ℕ) (c c' : Counts) (copied : List Handover) (lost : ℕ)
      → Same c c'
      → IsOrdered ahead completed c copied lost
      → IsOrdered ahead completed c' copied lost
  Same-IsOrdered completed c c' copied lost s o = record {
    on = rw s.enable o.on;
    last = s.hw_count_last ∙ o.last ∙ sym s.hw_count;
    within = rw (s.sw_count, s.hw_count) o.within;
    complete = rw s.hw_count o.complete;
    paced = rw s.hw_count o.paced;
    small = o.small;
    order = rw s.sw_count o.order;
    account = o.account ∙ sym s.sw_count;
  }

  pub Handled-IsOrdered :
      (completed : ℕ) (c c' : Counts) (copied : List Handover) (lost : ℕ)
      → Handled completed c c'
      → IsOrdered ahead completed c copied lost
      → IsOrdered ahead completed c' copied lost
  Handled-IsOrdered completed c c' copied lost h o = elim (h.moved) [
    | inl (moved, last) ↦ record {
      on = rw h.enable o.on;
      last = last ∙ sym moved;
      within = omega (arith, o.within, o.complete, h.sw_count);
      complete = omega arith;
      paced = omega arith;
      small = o.small;
      order = rw h.sw_count o.order;
      account = o.account ∙ sym h.sw_count;
    }
    | inr (kept, last) ↦
        Same-IsOrdered completed c c' copied lost
          (record {
            enable = h.enable;
            hw_count = kept;
            hw_count_last = last;
            sw_count = h.sw_count;
          })
          o
  ]

  -- The device completes a buffer.
  pub completes-IsOrdered :
      (completed : ℕ) (c : Counts) (copied : List Handover) (lost : ℕ)
      → completed + 1 < c.hw_count + 2 ^ 24
      → completed + 1 < 2 ^ 63
      → IsOrdered ahead completed c copied lost
      → IsOrdered ahead (completed + 1) c copied lost
  completes-IsOrdered completed c copied lost paced small o = record {
    on = o.on;
    last = o.last;
    within = o.within;
    complete = omega (arith, o.complete);
    paced = paced;
    small = small;
    order = o.order;
    account = o.account;
  }

  -- A call in the course of which the handler moves the hardware count up to `hw_count`.
  pub Added-IsOrdered :
      (ok : ℕ → Bool) (completed hw_count sw' : ℕ) (c : Counts) (copied : List Handover) (lost : ℕ)
      (copies : List Copy) (lost' : ℕ)
      → c.hw_count ≤ hw_count
      → hw_count ≤ completed
      → Added ok c.sw_count (hw_count + ahead) copied sw' copies lost'
      → IsOrdered ahead completed c copied lost
      → IsOrdered ahead completed
          (record {
            enable = c.enable;
            hw_count = hw_count;
            hw_count_last = hw_count;
            sw_count = sw';
          })
          (handovers c.sw_count ok copies ++ copied)
          (lost + lost')
  Added-IsOrdered ok completed hw_count sw' c copied lost copies lost' up known a o = record {
    on = o.on;
    last = refl;
    within = elim (a.within) [ inl idle ↦ omega (arith, o.within) | inr moved ↦ moved ];
    complete = known;
    paced = omega (arith, o.paced);
    small = o.small;
    order = a.order;
    account =
        rw
          (
            length-append (handovers c.sw_count ok copies) copied,
            length-handovers c.sw_count ok copies,
          )
          (omega (arith, a.account, o.account));
  }

-- An engine just started: no buffer is complete and none was copied.
pub fresh-IsOrdered :
    (ahead : ℕ) (c : Counts)
    → c.enable ≢ 0
    → c.hw_count ≡ 0
    → c.hw_count_last ≡ 0
    → c.sw_count ≡ 0
    → IsOrdered ahead 0 c [] 0
fresh-IsOrdered ahead c on hw_count last sw_count = record {
  on = on;
  last = last ∙ sym hw_count;
  within = omega arith;
  complete = omega arith;
  paced = omega arith;
  small = omega arith;
  order = tt;
  account = omega arith;
}
