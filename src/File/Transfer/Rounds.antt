-- ===== src/File/Transfer/Rounds.antt =====
-- The loop of both transfers: it ends, for one of three reasons, and keeps the books.
use litepcie_ptm_test.Base.{
  ℕ, zero, suc, Bool, true, false, ◌+◌, ◌-◌, ◌*◌, ◌/◌, ◌%◌, ◌^◌, ◌≤◌, ◌<◌, ◌≡◌, refl, ◌⊎◌, inl, inr,
  some, ltb, ◌∷◌, length, arith, Bool-cases, ltb→lt,
}
use litepcie_ptm_test.Base.Word.{u32}
use litepcie_ptm_test.Config.{dma_buffer_size, dma_buffer_count}
use litepcie_ptm_test.File.Transfer.{Slot, Progress, Round, rounds, advance, buffer_slot, start}

-- Why a loop ended: less than a buffer left to do or none available; a copy that failed.
abbrev pub Ended : (Progress → Round) → Bool → Progress → Type 0
Ended round true p = (p.len < dma_buffer_size) ⊎ (round p ≡ Round.stop)
Ended round false p = round p ≡ Round.fault

-- A loop that ended at `p` with the invariant `P`.
pub record Ends {ℓ} (P : Progress → Type ℓ) (round : Progress → Round) (fuel : ℕ) (p : Progress)
    : Type ℓ where
  pub ok : Bool
  pub last : Progress
  pub returns : rounds round fuel p ≡ some (ok, last)
  pub ended : Ended round ok last
  pub kept : P last

Round-cases :
    (r : Round) → ((q : Progress) × (r ≡ Round.more q)) ⊎ ((r ≡ Round.stop) ⊎ (r ≡ Round.fault))
Round-cases (Round.more q) = inl (q, refl)
Round-cases Round.stop = inr (inl refl)
Round-cases Round.fault = inr (inr refl)

-- The rule for the loop: an invariant that every round keeps, each round using up a buffer's size.
pub rounds-Ends {ℓ} :
    (P : Progress → Type ℓ) (round : Progress → Round)
    → ((p q : Progress)
        → P p
        → dma_buffer_size ≤ p.len
        → round p ≡ Round.more q
        → P q × (q.len ≡ p.len - dma_buffer_size))
    → (fuel : ℕ) (p : Progress) → p.len / dma_buffer_size < fuel
    → P p
    → Ends P round fuel p
unfolding rounds
rounds-Ends P round keep zero p m h = absurd (omega arith)
rounds-Ends P round keep (suc fuel) p m h = elim (Bool-cases (ltb p.len dma_buffer_size)) [
  | inl short ↦ record {
    ok = true;
    last = p;
    returns = rw short;
    ended = inl (ltb→lt _ _ short);
    kept = h;
  }
  | inr long ↦ elim (Round-cases (round p)) [
    | inl (q, e) ↦
        let enough_left : dma_buffer_size ≤ p.len = ground arith in
        let (h', shorter) = keep p q h enough_left e in
        let rest = rounds-Ends P round keep fuel q (omega arith) h' in
        record {
          ok = rest.ok;
          last = rest.last;
          returns = rw (long, e) rest.returns;
          ended = rest.ended;
          kept = rest.kept;
        }
    | inr (inl e) ↦ record { ok = true; last = p; returns = rw (long, e); ended = inr e; kept = h }
    | inr (inr e) ↦ record { ok = false; last = p; returns = rw (long, e); ended = e; kept = h }
  ]
]

-- The books of a transfer of `size` bytes from software count `sw` on: every round used up one
-- buffer's bytes and one count, and either copied or lost one buffer.
pub record Booked (size sw : ℕ) (p : Progress) : Type 0 where
  pub bytes : p.len + dma_buffer_size * p.i ≡ size
  pub count : p.sw_count ≡ (sw + p.i) % 2 ^ 64
  pub buffers : length p.copies + p.lost ≡ p.i

pub Booked-start : (size sw : ℕ) → sw < 2 ^ 64 → Booked size sw (start size sw)
Booked-start size sw h = omega arith

-- A round that moves on loses its buffer if `dropped`, and copies it if not.
pub data Moved (dropped : Bool) (copied : ℕ → Bool) (block_size : ℕ) (p q : Progress) : Type 0 where
  lost_one :
      dropped ≡ true
      → q ≡ advance (record p { lost = p.lost + 1 })
      → Moved dropped copied block_size p q
  copied_one :
      dropped ≡ false
      → copied p.i ≡ true
      → q
        ≡ advance (record p {
          copies =
              record { offset = u32 (block_size * p.i); slot = buffer_slot p.sw_count } ∷ p.copies;
        })
      → Moved dropped copied block_size p q

pub Moved-Booked :
    (copied : ℕ → Bool) (block_size : ℕ) {dropped : Bool} {size sw : ℕ} {p q : Progress}
    → Moved dropped copied block_size p q
    → dma_buffer_size ≤ p.len
    → Booked size sw p
    → Booked size sw q × (q.len ≡ p.len - dma_buffer_size)
Moved-Booked copied block_size (lost_one d e) h b = ground arith
Moved-Booked copied block_size (copied_one d c e) h b = ground arith

-- A software count that is not negative indexes the array within its bounds.
pub slot_of_count : (c : ℕ) → c < 2 ^ 63 → buffer_slot c ≡ Slot.at (c % dma_buffer_count)
unfolding buffer_slot
slot_of_count c h = ground arith
