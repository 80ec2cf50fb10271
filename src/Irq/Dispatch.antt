-- ===== src/Irq/Dispatch.antt =====
-- Which channels an interrupt serves, what it changes there, and what it acknowledges.
use litepcie_ptm_test.Base.{
  ℕ, Bool, zero, suc, ◌+◌, ◌^◌, ◌≤◌, ◌<◌, ◌≡◌, refl, List, [], ◌∷◌, ◌++◌, arith, bit_or, bit_and,
  if◌then◌else◌, Bool-cases, inl, inr,
}
use litepcie_ptm_test.Base.Bits.{bit, bit-lt, bit-zero, bit_and-le, two_pow-lt, bit_or-lt}
use litepcie_ptm_test.Base.Word.{u32, ◌<<<◌}
use litepcie_ptm_test.Config.{Regs, csr_pcie_msi_enable_addr, reader_regs, writer_regs}
use litepcie_ptm_test.Bus.{Trace, Hw, rd, wr}
use litepcie_ptm_test.Dma.{DmaChan}
use litepcie_ptm_test.Irq.Acknowledge.{
  IsWithin, IsWithin-fired, IsWithin-bit_or, AllCleared, fired-lt, fired-set, IsWithin-parts,
}
use litepcie_ptm_test.Irq.{
  Wake, Msi, pending, extend_count, service_reader, service_writer, service, find_vector,
  irq_status, interrupt,
}

-- A channel after its reader is served under the vector `v` with a loop status: the reader counts
-- are extended exactly if the reader interrupt is pending, and all else stays.
abbrev pub reader_after : ℕ → ℕ → DmaChan → DmaChan
reader_after v status d = record d {
  reader_hw_count =
      if pending v d.reader_interrupt
      then extend_count d.reader_hw_count d.reader_hw_count_last status
      else d.reader_hw_count;
  reader_hw_count_last =
      if pending v d.reader_interrupt
      then extend_count d.reader_hw_count d.reader_hw_count_last status
      else d.reader_hw_count_last;
}

-- The same for the writer.
abbrev pub writer_after : ℕ → ℕ → DmaChan → DmaChan
writer_after v status d = record d {
  writer_hw_count =
      if pending v d.writer_interrupt
      then extend_count d.writer_hw_count d.writer_hw_count_last status
      else d.writer_hw_count;
  writer_hw_count_last =
      if pending v d.writer_interrupt
      then extend_count d.writer_hw_count d.writer_hw_count_last status
      else d.writer_hw_count_last;
}

module _ (hw : Hw) where
  -- The loop status that the device answers, and the trace with the read, made only if `fired`.
  abbrev pub loop_status : Regs → DmaChan → Trace → ℕ
  loop_status r d t = u32 (hw t (d.base + r.table_loop_status))

  abbrev pub looked : Bool → Regs → DmaChan → Trace → Trace
  looked fired r d t =
      if fired then rd (d.base + r.table_loop_status) (loop_status r d t) ∷ t else t

  -- A channel before and after the loop body: the reader's status is read first, then the writer's,
  -- each if its interrupt is pending, and the counts are extended from the words read.
  pub record Serviced (v : ℕ) (t : Trace) (d d' : DmaChan) (t' : Trace) : Type 0 where
    pub middle : Trace
    pub reader_read : middle ≡ looked (pending v d.reader_interrupt) reader_regs d t
    pub writer_read : t' ≡ looked (pending v d.writer_interrupt) writer_regs d middle
    pub result :
        d'
        ≡ writer_after v
            (loop_status writer_regs d middle)
            (reader_after v (loop_status reader_regs d t) d)

  -- All channels, in order.
  abbrev pub AllServiced : ℕ → Trace → List DmaChan → List DmaChan → Trace → Type 0
  AllServiced v t [] [] t' = t' ≡ t
  AllServiced v t [] (d' ∷ ds') t' = ⊥
  AllServiced v t (d ∷ ds) [] t' = ⊥
  AllServiced v t (d ∷ ds) (d' ∷ ds') t' =
      (u : Trace) × Serviced v t d d' u × AllServiced v u ds ds' t'

-- The wake-ups for the channels from `i` on: writers of a channel whose reader interrupt is
-- pending, then readers of one whose writer interrupt is.
unfoldable pub wanted_wakes : ℕ → ℕ → List DmaChan → List Wake
wanted_wakes v i [] = []
wanted_wakes v i (d ∷ ds) =
    (if pending v d.reader_interrupt then Wake.wake_wr i ∷ [] else [])
    ++ ((if pending v d.writer_interrupt then Wake.wake_rd i ∷ [] else [])
        ++ wanted_wakes v (i + 1) ds)

module _ (hw : Hw) (v i : ℕ) (d : DmaChan) (t : Trace) where
  reader_form : service_reader hw v i d t ≡ (
    reader_after v (loop_status hw reader_regs d t) d,
    looked hw (pending v d.reader_interrupt) reader_regs d t,
    if pending v d.reader_interrupt then Wake.wake_wr i ∷ [] else [],
    if pending v d.reader_interrupt then 1 <<< d.reader_interrupt else 0,
  )
  unfolding service_reader
  reader_form = elim (Bool-cases (pending v d.reader_interrupt)) [ inl p ↦ rw p | inr p ↦ rw p ]

  writer_form : service_writer hw v i d t ≡ (
    writer_after v (loop_status hw writer_regs d t) d,
    looked hw (pending v d.writer_interrupt) writer_regs d t,
    if pending v d.writer_interrupt then Wake.wake_rd i ∷ [] else [],
    if pending v d.writer_interrupt then 1 <<< d.writer_interrupt else 0,
  )
  unfolding service_writer
  writer_form = elim (Bool-cases (pending v d.writer_interrupt)) [ inl p ↦ rw p | inr p ↦ rw p ]

record Served (hw : Hw) (v i : ℕ) (t : Trace) (ds : List DmaChan) (mask : ℕ)
    (out : List DmaChan × Trace × List Wake × ℕ) : Type 0 where
  chans : AllServiced hw v t ds out.0 out.1
  wakes : out.2 ≡ wanted_wakes v i ds
  clears : IsWithin out.3 v
  fits : out.3 < 2 ^ 32
  grows : IsWithin mask out.3
  cleared : AllCleared out.3 v ds

module _ (hw : Hw) (v : ℕ) (fits : v < 2 ^ 32) where
  service-Served :
      (i : ℕ) (ds : List DmaChan) (t : Trace) (mask : ℕ)
      → IsWithin mask v
      → mask < 2 ^ 32
      → Served hw v i t ds mask (service hw v i ds t mask)
  unfolding service wanted_wakes
  service-Served i [] t mask h low = record {
    chans = refl;
    wakes = refl;
    clears = h;
    fits = low;
    grows = λ n. omega arith;
    cleared = tt;
  }
  service-Served i (d ∷ ds) t mask h low =
      let t1 = looked hw (pending v d.reader_interrupt) reader_regs d t in
      let d1 = reader_after v (loop_status hw reader_regs d t) d in
      let t2 = looked hw (pending v d.writer_interrupt) writer_regs d t1 in
      let r = if pending v d.reader_interrupt then 1 <<< d.reader_interrupt else 0 in
      let w = if pending v d.writer_interrupt then 1 <<< d.writer_interrupt else 0 in
      let more =
        service-Served (i + 1) ds t2 (bit_or (bit_or mask r) w)
          (IsWithin-bit_or _ _ v
            (IsWithin-bit_or _ _ v h (IsWithin-fired v d.reader_interrupt fits))
            (IsWithin-fired v d.writer_interrupt fits))
          (bit_or-lt 32 (bit_or mask r) w
            (bit_or-lt 32 mask r low (fired-lt v d.reader_interrupt fits))
            (fired-lt v d.writer_interrupt fits)) in
      let (before, here_r, here_w) =
        IsWithin-parts mask r w (service hw v (i + 1) ds t2 (bit_or (bit_or mask r) w)).3
          more.grows in
      rw (reader_form hw v i d t, writer_form hw v i d1 t1)
        (record {
          chans = (
            t2,
            record { middle = t1; reader_read = refl; writer_read = refl; result = refl },
            more.chans,
          );
          wakes = rw more.wakes;
          clears = more.clears;
          fits = more.fits;
          grows = before;
          cleared = (
            λ p. omega (
              arith,
              here_r d.reader_interrupt,
              fired-set v d.reader_interrupt p,
              bit-lt d.reader_interrupt (service hw v (i + 1) ds t2 (bit_or (bit_or mask r) w)).3,
            ),
            λ p. omega (
              arith,
              here_w d.writer_interrupt,
              fired-set v d.writer_interrupt p,
              bit-lt d.writer_interrupt (service hw v (i + 1) ds t2 (bit_or (bit_or mask r) w)).3,
            ),
            more.cleared,
          );
        })

find_vector-lt :
    (vec : ℕ → ℕ) (irq left i : ℕ) → i + left ≤ 32 → find_vector vec irq left i < 2 ^ 32
unfolding find_vector
find_vector-lt vec irq zero i h = omega arith
find_vector-lt vec irq (suc left) i h =
    ground (arith, find_vector-lt vec irq left (i + 1), two_pow-lt i 32)

-- The vector of an interrupt is a 32-bit word.
pub irq_status-lt :
    (hw : Hw) (msi : Msi) (vec : ℕ → ℕ) (irqs irq : ℕ) (t : Trace)
    → irqs ≤ 32
    → (irq_status hw msi vec irqs irq t).0 < 2 ^ 32
unfolding irq_status
irq_status-lt hw (Msi.single va ca) vec irqs irq t h = omega (
  arith,
  bit_and-le 32 (u32 (hw t va)) (u32 (hw (rd va (u32 (hw t va)) ∷ t) csr_pcie_msi_enable_addr))
      (omega arith),
)
irq_status-lt hw Msi.vectors vec irqs irq t h =
    let f = find_vector vec irq irqs 0 in
    let small : f < 2 ^ 32 = find_vector-lt vec irq irqs 0 (omega arith) in
    omega (arith, small, bit_and-le 32 f (u32 (hw t csr_pcie_msi_enable_addr)) small)

-- The interrupts that are both signalled and enabled: the vector register's, or the one that `irq`
-- is the vector of, with the enable register's, which is read after it.
abbrev pub signalled : Hw → Msi → (ℕ → ℕ) → ℕ → ℕ → Trace → ℕ
signalled hw (Msi.single va ca) vec irqs irq t =
    bit_and (u32 (hw t va)) (u32 (hw (rd va (u32 (hw t va)) ∷ t) csr_pcie_msi_enable_addr))
signalled hw Msi.vectors vec irqs irq t =
    bit_and (find_vector vec irq irqs 0) (u32 (hw t csr_pcie_msi_enable_addr))

-- The accesses that look for them.
abbrev pub asked : Hw → Msi → Trace → Trace
asked hw (Msi.single va ca) t =
    let t1 = rd va (u32 (hw t va)) ∷ t in
    rd csr_pcie_msi_enable_addr (u32 (hw t1 csr_pcie_msi_enable_addr)) ∷ t1
asked hw Msi.vectors t = rd csr_pcie_msi_enable_addr (u32 (hw t csr_pcie_msi_enable_addr)) ∷ t

-- How the handler ends: with one MSI, a write to the clear register that clears the interrupts
-- served and none outside `v`; otherwise, with no access more.
abbrev pub Acknowledged : Msi → ℕ → List DmaChan → Trace → Trace → Type 0
Acknowledged (Msi.single va ca) v ds t t' =
    (mask : ℕ) × (t' ≡ wr ca mask ∷ t) × ((n : ℕ) → bit n mask ≤ bit n v) × AllCleared mask v ds
Acknowledged Msi.vectors v ds t t' = t' ≡ t

pub interrupt-AllServiced :
    (hw : Hw) (msi : Msi) (vec : ℕ → ℕ) (irqs irq : ℕ) (ds : List DmaChan) (t : Trace)
    → irqs ≤ 32
    → let v = signalled hw msi vec irqs irq t in
      let (ds', t', wakes) = interrupt hw msi vec irqs irq ds t in
      (t2 : Trace) × AllServiced hw v (asked hw msi t) ds ds' t2
      × (wakes ≡ wanted_wakes v 0 ds)
      × Acknowledged msi v ds t2 t'
unfolding interrupt irq_status
interrupt-AllServiced hw (Msi.single va ca) vec irqs irq ds t h =
    let v = signalled hw (Msi.single va ca) vec irqs irq t in
    let t1 = asked hw (Msi.single va ca) t in
    let s =
      service-Served hw v (irq_status-lt hw (Msi.single va ca) vec irqs irq t h) 0 ds t1 0
        (λ n. rw (bit-zero n) (omega arith)) (omega arith) in
    let mask = (service hw v 0 ds t1 0).3 in
    let whole : u32 mask ≡ mask = omega (arith, s.fits) in
    (_, s.chans, s.wakes, (mask, rw whole refl, s.clears, s.cleared))
interrupt-AllServiced hw Msi.vectors vec irqs irq ds t h =
    let v = signalled hw Msi.vectors vec irqs irq t in
    let s =
      service-Served hw v (irq_status-lt hw Msi.vectors vec irqs irq t h) 0 ds
        (asked hw Msi.vectors t) 0 (λ n. rw (bit-zero n) (omega arith)) (omega arith) in
    (_, s.chans, s.wakes, refl)
