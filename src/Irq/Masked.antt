-- ===== src/Irq/Masked.antt =====
-- An interrupt whose enable bits are clear has no effect.
use litepcie_ptm_test.Base.{
  ℕ, false, ◌+◌, ◌^◌, ◌≤◌, ◌<◌, ◌≡◌, refl, ◌∙◌, List, [], ◌∷◌, arith, bit_and,
}
use litepcie_ptm_test.Base.Bits.{bit, bit-bit_and, bit_and_pow}
use litepcie_ptm_test.Base.Word.{u32}
use litepcie_ptm_test.Config.{csr_pcie_msi_enable_addr}
use litepcie_ptm_test.Bus.{Trace, Hw}
use litepcie_ptm_test.Dma.{DmaChan}
use litepcie_ptm_test.Irq.{Msi, pending, find_vector, irq_status, interrupt}
use litepcie_ptm_test.Irq.Dispatch.{
  AllServiced, Serviced, wanted_wakes, irq_status-lt, interrupt-AllServiced,
}

-- The mask `m` has neither interrupt of any of the channels.
abbrev pub IsMasked : ℕ → List DmaChan → Type 0
IsMasked m [] = Unit
IsMasked m (d ∷ ds) =
    (bit d.reader_interrupt m ≡ 0) × (bit d.writer_interrupt m ≡ 0) × IsMasked m ds

pending-masked : (v k : ℕ) → v < 2 ^ 32 → bit k v ≡ 0 → pending v k ≡ false
unfolding pending
pending-masked v k h z = ground (arith, bit_and_pow 32 k v h)

module _ (hw : Hw) where
  Serviced-masked :
      (v : ℕ) (t t' : Trace) (d d' : DmaChan)
      → Serviced hw v t d d' t'
      → pending v d.reader_interrupt ≡ false
      → pending v d.writer_interrupt ≡ false
      → d' ≡ d
  Serviced-masked v t t' d d' s p q = s.result ∙ rw (p, q)

  AllServiced-masked :
      (v : ℕ) (t t' : Trace) (ds ds' : List DmaChan)
      → v < 2 ^ 32
      → IsMasked v ds
      → AllServiced hw v t ds ds' t'
      → ds' ≡ ds
  AllServiced-masked v t t' [] [] h m s = refl
  AllServiced-masked v t t' [] (d' ∷ ds') h m s = absurd s
  AllServiced-masked v t t' (d ∷ ds) [] h m s = absurd s
  AllServiced-masked v t t' (d ∷ ds) (d' ∷ ds') h m (u, one, rest) =
      let p = pending-masked v d.reader_interrupt h m.0 in
      let q = pending-masked v d.writer_interrupt h m.1 in
      rw (Serviced-masked v t u d d' one p q, AllServiced-masked v u t' ds ds' h m.2 rest)

wanted_wakes-masked :
    (v i : ℕ) (ds : List DmaChan) → v < 2 ^ 32 → IsMasked v ds → wanted_wakes v i ds ≡ []
unfolding wanted_wakes
wanted_wakes-masked v i [] h m = refl
wanted_wakes-masked v i (d ∷ ds) h m =
    rw (pending-masked v d.reader_interrupt h m.0, pending-masked v d.writer_interrupt h m.1)
      (wanted_wakes-masked v (i + 1) ds h m.2)

IsMasked-bit_and : (f m : ℕ) (ds : List DmaChan) → IsMasked m ds → IsMasked (bit_and f m) ds
IsMasked-bit_and f m [] h = tt
IsMasked-bit_and f m (d ∷ ds) h = (
  omega (arith, bit-bit_and d.reader_interrupt f m, h.0),
  omega (arith, bit-bit_and d.writer_interrupt f m, h.1),
  IsMasked-bit_and f m ds h.2,
)

-- With one vector for each interrupt, at most 32 of them: if the enable mask that the handler reads
-- has the interrupts of no channel, every channel is left as it was and nobody is woken.
pub interrupt-masked :
    (hw : Hw) (vec : ℕ → ℕ) (irqs irq : ℕ) (ds : List DmaChan) (t : Trace)
    → irqs ≤ 32
    → IsMasked (u32 (hw t csr_pcie_msi_enable_addr)) ds
    → let (ds', t', wakes) = interrupt hw Msi.vectors vec irqs irq ds t in (ds' ≡ ds) × (wakes ≡ [])
unfolding irq_status
interrupt-masked hw vec irqs irq ds t h m =
    let (t2, s, woken, ended) = interrupt-AllServiced hw Msi.vectors vec irqs irq ds t h in
    let v = (irq_status hw Msi.vectors vec irqs irq t).0 in
    let fits = irq_status-lt hw Msi.vectors vec irqs irq t h in
    let none_left = IsMasked-bit_and (find_vector vec irq irqs 0) _ ds m in
    (
      AllServiced-masked hw v _ t2 ds _ fits none_left s,
      woken ∙ wanted_wakes-masked v 0 ds fits none_left,
    )
