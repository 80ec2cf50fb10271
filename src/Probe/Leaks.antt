-- ===== src/Probe/Leaks.antt =====
-- software/kernel/main.c: what the error paths of the probe leave behind.
use litepcie_ptm_test.Base.{
  ℕ, Bool, true, false, ◌≡◌, refl, Option, none, some, if◌then◌else◌, arith, ◌==◌, inl, inr, not,
  subst,
}
use litepcie_ptm_test.Bus.{Trace, Hw}
use litepcie_ptm_test.File.{Errno}
use litepcie_ptm_test.Chdev.Ranges.{within}
use litepcie_ptm_test.Chdev.Rollback.{Option-cases}
use litepcie_ptm_test.Probe.{
  litepcie_dev, pci_dev, Kernel, Device, Probed, Answers, zero_device, setup_chans, init_dma,
  request_irqs, free_down, probe_clock, probe_channels, probe_chdev, probe_irqs, probe_bar0, probe,
  fail1,
}
use litepcie_ptm_test.Probe.Irqs.{
  Irqs, handlers, Requested, all_given, one_refused, request_irqs-Requested, free_down-wrong,
}
use litepcie_ptm_test.Probe.Lifetime.{chdevs, Ret-cases, Vectors-cases}

-- The handlers of the driver after a stage are those on its first `irq_count` vectors.
record Counted (irqs : Irqs) (p : Probed) : Type 0 where
  counted : (j : ℕ) → p.kernel.irqs j ≡ handlers 0 p.dev.irq_count irqs j

-- A stage that touches neither the handlers nor their count.
record Untouched (dev : Device) (k : Kernel) (p : Probed) : Type 0 where
  irqs : p.kernel.irqs ≡ k.irqs
  irq_count : p.dev.irq_count ≡ dev.irq_count

nothing-Counted : (k : Kernel) (e : Errno) (t : Trace) → Counted k.irqs (fail1 e k zero_device t)
nothing-Counted k e t = record { counted = λ j. ground arith }

module _ (hw : Hw) (a : Answers) where
  probe_clock-Untouched :
      (dev : Device) (k : Kernel) (t : Trace) → Untouched dev k (probe_clock hw a dev k t)
  unfolding probe_clock
  probe_clock-Untouched dev k t = elim (Option-cases (a.ptp_register)) [
    | inl e ↦ rw (probe_clock, e) (record { irqs = refl; irq_count = refl })
    | inr (err, e) ↦ rw (probe_clock, e) (record { irqs = refl; irq_count = refl })
  ]

  probe_channels-Untouched :
      (dev : Device) (k : Kernel) (t : Trace) → Untouched dev k (probe_channels hw a dev k t)
  unfolding probe_channels
  probe_channels-Untouched dev k t = elim (Option-cases (init_dma a 0 (setup_chans dev.chans))) [
    | inl e ↦ rw (probe_channels, e) (record { irqs = refl; irq_count = refl })
    | inr (chans, e) ↦
        let u = probe_clock-Untouched (record dev { chans = chans }) k t in
        rw (probe_channels, e) (record { irqs = u.irqs; irq_count = u.irq_count })
  ]

  probe_chdev-Untouched :
      (dev : Device) (k : Kernel) (t : Trace) → Untouched dev k (probe_chdev hw a dev k t)
  unfolding probe_chdev
  probe_chdev-Untouched dev k t = elim (Ret-cases ((chdevs hw a k).ret)) [
    | inr (err, e) ↦ rw (probe_chdev, e) (record { irqs = refl; irq_count = refl })
    | inl (n, e) ↦
        let u = probe_channels-Untouched _ _ t in
        rw (probe_chdev, e) (record { irqs = u.irqs; irq_count = u.irq_count })
  ]

  -- The two ends of the loop that requests the interrupts.
  Requested-Counted :
      (n : ℕ) (dev : Device) (k : Kernel) (t : Trace) (out : Option (ℕ × Errno) × Irqs)
      → Requested a.request_irq 0 n k.irqs out
      → request_irqs a.request_irq n 0 k.irqs ≡ out
      → Counted k.irqs (probe_irqs hw a n dev k t)
  unfolding probe_irqs
  Requested-Counted n dev k t _ (all_given out all) e =
      let u = probe_chdev-Untouched (record dev { irq_count = n }) (record k { irqs = out }) t in
      rw (probe_irqs, e, e) (record { counted = λ j. rw (u.irqs, u.irq_count) (all j) })
  Requested-Counted n dev k t _ (one_refused i m err out place few not_given ours) e =
      let stay : free_down i pci_dev out ≡ out =
        free_down-wrong i out (λ j h. ground (arith, ours j, place)) in
      let same : m ≡ i = omega arith in
      rw (probe_irqs, e, e)
        (record {
          counted = λ j. rw stay (subst (λ m. out j ≡ handlers 0 m k.irqs j) same (ours j));
        })

  probe_irqs-Counted :
      (n : ℕ) (dev : Device) (k : Kernel) (t : Trace) → Counted k.irqs (probe_irqs hw a n dev k t)
  probe_irqs-Counted n dev k t =
      Requested-Counted n dev k t _ (request_irqs-Requested a.request_irq n 0 k.irqs) refl

  probe_bar0-Counted : (k : Kernel) (t : Trace) → Counted k.irqs (probe_bar0 hw a k t)
  unfolding probe_bar0
  probe_bar0-Counted k t = elim (Option-cases (a.set_mask)) [
    | inr (err, e) ↦ rw (probe_bar0, e) (nothing-Counted k err _)
    | inl e ↦ elim (Vectors-cases (a.irq_vectors)) [
      | inr (err, f) ↦ rw (probe_bar0, e, f) (nothing-Counted k err _)
      | inl (n, f) ↦
          rw (probe_bar0, e, f) (probe_irqs-Counted n zero_device (record k { vectors = true }) _)
    ]
  ]

  Counted-check :
      (k : Kernel) (bad : Bool) (e : Errno) (t : Trace) (p : Probed)
      → Counted k.irqs p
      → Counted k.irqs (if bad then fail1 e k zero_device t else p)
  Counted-check k true e t p c = nothing-Counted k e t
  Counted-check k false e t p c = c

  Counted-call :
      (k : Kernel) (error : Option Errno) (t : Trace) (p : Probed)
      → Counted k.irqs p
      → Counted k.irqs (elim error [ some e ↦ fail1 e k zero_device t | none ↦ p ])
  Counted-call k none t p c = c
  Counted-call k (some e) t p c = nothing-Counted k e t

  probe-Counted : (k : Kernel) (t : Trace) → Counted k.irqs (probe hw a k t)
  unfolding probe
  probe-Counted k t = Counted-check k (not a.kzalloc) Errno.enomem t _ (
      Counted-call k (a.enable_device) t _ (
        Counted-check k (not (a.rev_id == 0)) Errno.eio t _ (
          Counted-check k (not a.bar0_is_mem) Errno.eio t _ (
            Counted-check k (not a.iomap_regions) Errno.eio t _
              (Counted-check k (not a.iomap_table) Errno.eio t _ (probe_bar0-Counted k t))))))

  -- `litepcie_pci_probe`, whatever the kernel answers, success or failure: the handlers requested
  -- with success are still there when it returns, on the first `irqs` vectors, and no other handler
  -- has changed. No error path frees one.
  pub probe_keeps_handlers :
      (k : Kernel) (t : Trace) (j : ℕ)
      → let p = probe hw a k t in
        p.kernel.irqs j ≡ (if within 0 p.dev.irq_count j then some litepcie_dev else k.irqs j)
  probe_keeps_handlers k t j = (probe-Counted k t).counted j
