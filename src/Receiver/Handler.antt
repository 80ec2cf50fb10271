-- ===== src/Receiver/Handler.antt =====
-- What the interrupt handler does to the writer engine's counts.
use litepcie_ptm_test.Base.{
  ℕ, ◌%◌, ◌+◌, ◌^◌, ◌≤◌, ◌<◌, ◌≡◌, refl, sym, ◌∙◌, inl, inr, [], ◌∷◌, arith, Bool-cases,
}
use litepcie_ptm_test.Base.Word.{u32}
use litepcie_ptm_test.Config.{writer_regs}
use litepcie_ptm_test.Bus.{Trace, Hw}
use litepcie_ptm_test.Dma.{DmaChan}
use litepcie_ptm_test.Irq.{
  Msi, interrupt, service, service_reader, service_writer, irq_status, pending, extend_count,
}
use litepcie_ptm_test.Irq.Count.{loop_status_of, extend_count_lem}
use litepcie_ptm_test.Flow.{first_chan, writer_of, Handled}

module _ (hw : Hw) where
  service_reader-base :
      (v i : ℕ) (d : DmaChan) (t : Trace)
      → let d' = (service_reader hw v i d t).0 in
        (d'.base ≡ d.base)
        × (d'.writer_enable ≡ d.writer_enable)
        × (d'.writer_sw_count ≡ d.writer_sw_count)
        × (d'.writer_hw_count ≡ d.writer_hw_count)
        × (d'.writer_hw_count_last ≡ d.writer_hw_count_last)
  unfolding service_reader
  service_reader-base v i d t = ground arith

  service_writer-Handled :
      (v i n : ℕ) (d : DmaChan) (t : Trace)
      → d.writer_hw_count_last ≡ d.writer_hw_count
      → d.writer_hw_count ≤ n
      → n < d.writer_hw_count + 2 ^ 24
      → n < 2 ^ 63
      → hw t (d.base + writer_regs.table_loop_status) ≡ loop_status_of n
      → Handled n (writer_of d) (writer_of (service_writer hw v i d t).0)
  unfolding service_writer
  service_writer-Handled v i n d t last behind paced small status =
      let low : loop_status_of n % 2 ^ 32 ≡ loop_status_of n = omega arith in
      let count : extend_count d.writer_hw_count d.writer_hw_count_last
            (u32 (hw t (d.base + writer_regs.table_loop_status)))
          ≡ n =
        rw (status, low, last) (extend_count_lem d.writer_hw_count n behind paced small) in
      elim (Bool-cases (pending v d.writer_interrupt)) [
        | inl on ↦ rw on (record { enable = refl; sw_count = refl; moved = inl (count, count) })
        | inr off ↦ rw off (record { enable = refl; sw_count = refl; moved = inr (refl, refl) })
      ]

  pub interrupt-Handled :
      (msi : Msi) (pci_irq_vector : ℕ → ℕ) (irqs irq n : ℕ) (d : DmaChan) (t : Trace)
      → d.writer_hw_count_last ≡ d.writer_hw_count
      → d.writer_hw_count ≤ n
      → n < d.writer_hw_count + 2 ^ 24
      → n < 2 ^ 63
      → ((t : Trace) → hw t (d.base + writer_regs.table_loop_status) ≡ loop_status_of n)
      → Handled n
          (writer_of d)
          (writer_of (first_chan d (interrupt hw msi pci_irq_vector irqs irq (d ∷ []) t).0))
  unfolding interrupt service
  interrupt-Handled msi pci_irq_vector irqs irq n d t last behind paced small status =
      let (v, t1) = irq_status hw msi pci_irq_vector irqs irq t in
      let (d1, t2, wakes, mask) = service_reader hw v 0 d t1 in
      let (base, enable, sw, hwc, hwl) = service_reader-base v 0 d t1 in
      let h =
        service_writer-Handled v 0 n d1 t2 (hwl ∙ last ∙ sym hwc) (rw hwc behind) (rw hwc paced)
          small (rw base (status t2)) in
      record {
        enable = h.enable ∙ enable;
        sw_count = h.sw_count ∙ sw;
        moved = elim (h.moved) [ inl m ↦ inl m | inr k ↦ inr (k.0 ∙ hwc, k.1 ∙ hwl) ];
      }
