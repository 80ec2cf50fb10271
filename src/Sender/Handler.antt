-- ===== src/Sender/Handler.antt =====
-- What the interrupt handler does to the reader engine's counts.
use litepcie_ptm_test.Base.{
  ℕ, ◌%◌, ◌+◌, ◌^◌, ◌≤◌, ◌<◌, ◌≡◌, refl, sym, subst, inl, inr, [], ◌∷◌, arith, Bool-cases,
}
use litepcie_ptm_test.Base.Word.{u32}
use litepcie_ptm_test.Config.{reader_regs}
use litepcie_ptm_test.Bus.{Trace, Hw}
use litepcie_ptm_test.Dma.{DmaChan}
use litepcie_ptm_test.Irq.{
  Msi, interrupt, service, service_reader, service_writer, irq_status, pending, extend_count,
}
use litepcie_ptm_test.Irq.Count.{loop_status_of, extend_count_lem}
use litepcie_ptm_test.Flow.{first_chan, reader_of, Handled}

module _ (hw : Hw) where
  service_reader-Handled :
      (v i n : ℕ) (d : DmaChan) (t : Trace)
      → d.reader_hw_count_last ≡ d.reader_hw_count
      → d.reader_hw_count ≤ n
      → n < d.reader_hw_count + 2 ^ 24
      → n < 2 ^ 63
      → hw t (d.base + reader_regs.table_loop_status) ≡ loop_status_of n
      → Handled n (reader_of d) (reader_of (service_reader hw v i d t).0)
  unfolding service_reader
  service_reader-Handled v i n d t last behind paced small status =
      let low : loop_status_of n % 2 ^ 32 ≡ loop_status_of n = omega arith in
      let count : extend_count d.reader_hw_count d.reader_hw_count_last
            (u32 (hw t (d.base + reader_regs.table_loop_status)))
          ≡ n =
        rw (status, low, last) (extend_count_lem d.reader_hw_count n behind paced small) in
      elim (Bool-cases (pending v d.reader_interrupt)) [
        | inl on ↦ rw on (record { enable = refl; sw_count = refl; moved = inl (count, count) })
        | inr off ↦ rw off (record { enable = refl; sw_count = refl; moved = inr (refl, refl) })
      ]

  service_writer-reader_of :
      (v i : ℕ) (d : DmaChan) (t : Trace) → reader_of (service_writer hw v i d t).0 ≡ reader_of d
  unfolding service_writer
  service_writer-reader_of v i d t = elim (Bool-cases (pending v d.writer_interrupt)) [
    | inl on ↦ rw on refl
    | inr off ↦ rw off refl
  ]

  pub interrupt-Handled :
      (msi : Msi) (pci_irq_vector : ℕ → ℕ) (irqs irq n : ℕ) (d : DmaChan) (t : Trace)
      → d.reader_hw_count_last ≡ d.reader_hw_count
      → d.reader_hw_count ≤ n
      → n < d.reader_hw_count + 2 ^ 24
      → n < 2 ^ 63
      → ((t : Trace) → hw t (d.base + reader_regs.table_loop_status) ≡ loop_status_of n)
      → Handled n
          (reader_of d)
          (reader_of (first_chan d (interrupt hw msi pci_irq_vector irqs irq (d ∷ []) t).0))
  unfolding interrupt service
  interrupt-Handled msi pci_irq_vector irqs irq n d t last behind paced small status =
      let (v, t1) = irq_status hw msi pci_irq_vector irqs irq t in
      let (d1, t2, wakes, mask) = service_reader hw v 0 d t1 in
      let after = service_writer-reader_of v 0 d1 t2 in
      subst (λ c. Handled n (reader_of d) c) (sym after)
        (service_reader-Handled v 0 n d t1 last behind paced small (status t1))
