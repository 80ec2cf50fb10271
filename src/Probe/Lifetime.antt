-- ===== src/Probe/Lifetime.antt =====
-- software/kernel/main.c: what a device holds after a successful probe, and that its removal gives
-- all of it up.
use litepcie_ptm_test.Base.{
  ℕ, Bool, true, false, ◌≡◌, ◌≢◌, refl, Option, none, some, if◌then◌else◌, ◌==◌, inl, inr, ◌⊎◌, not,
}
use litepcie_ptm_test.Bus.{Trace, Hw}
use litepcie_ptm_test.File.{Ret, Errno, done, fail}
use litepcie_ptm_test.Chdev.{Alloc, alloc_chdev}
use litepcie_ptm_test.Chdev.Registry.{node, cdev}
use litepcie_ptm_test.Chdev.Ranges.{within}
use litepcie_ptm_test.Chdev.Rollback.{Option-cases, free_chdev_undoes, alloc_chdev_all_or_none}
use litepcie_ptm_test.Probe.{
  Kernel, Device, Probed, Answers, Vectors, zero_device, refused, given, dma_channels, setup_chans,
  init_dma, request_irqs, probe_clock, probe_channels, probe_chdev, probe_irqs, probe_bar0, probe,
  remove, fail1,
}
use litepcie_ptm_test.Probe.Irqs.{
  Irqs, handlers, Requested, all_given, one_refused, request_irqs-Requested, free_up-undoes,
}

abbrev pub Succeeds : Probed → Type 0
Succeeds p = p.ret ≡ Ret.done 0

not_failed {ℓ} : {A : Type ℓ} (e : Errno) → Ret.fail e ≡ Ret.done 0 → A
not_failed e h = absurd (cc h)

-- What the later stages of the probe leave alone, and add.
record Completed (dev : Device) (k : Kernel) (p : Probed) : Type 0 where
  kernel : p.kernel ≡ record k { clock = true }
  irq_count : p.dev.irq_count ≡ dev.irq_count
  channels : p.dev.channels ≡ dev.channels
  minor_base : p.dev.minor_base ≡ dev.minor_base
  has_clock : p.dev.has_clock ≡ true

pub Vectors-cases : (v : Vectors) → ((n : ℕ) × (v ≡ given n)) ⊎ ((e : Errno) × (v ≡ refused e))
Vectors-cases (given n) = inl (n, refl)
Vectors-cases (refused e) = inr (e, refl)

all_handlers :
    (request : ℕ → Option Errno) (i left : ℕ) (irqs : Irqs) (out : Option (ℕ × Errno) × Irqs)
    → Requested request i left irqs out
    → out.0 ≡ none
    → (j : ℕ) → out.1 j ≡ handlers i left irqs j
all_handlers request i left irqs out (all_given after all) e = all
all_handlers request i left irqs out (one_refused k n err after place few not_given ours) e =
    absurd (cc e)

pub Ret-cases : (r : Ret) → ((n : ℕ) × (r ≡ Ret.done n)) ⊎ ((e : Errno) × (r ≡ Ret.fail e))
Ret-cases (done n) = inl (n, refl)
Ret-cases (fail e) = inr (e, refl)

module _ (hw : Hw) (a : Answers) where
  -- What litepcie_alloc_chdev does in the probe.
  abbrev pub chdevs : Kernel → Alloc
  chdevs k = alloc_chdev a.add_error a.create_ok dma_channels k.minor_idx k.calls

  probe_clock-Completed :
      (dev : Device) (k : Kernel) (t : Trace)
      → Succeeds (probe_clock hw a dev k t)
      → Completed dev k (probe_clock hw a dev k t)
  unfolding probe_clock
  probe_clock-Completed dev k t h = elim (Option-cases (a.ptp_register)) [
    | inl e ↦
        rw (probe_clock, e)
          (record {
            kernel = refl;
            irq_count = refl;
            channels = refl;
            minor_base = refl;
            has_clock = refl;
          })
    | inr (err, e) ↦ not_failed err (rw (probe_clock, e) at h)
  ]

  probe_channels-Completed :
      (dev : Device) (k : Kernel) (t : Trace)
      → Succeeds (probe_channels hw a dev k t)
      → Completed dev k (probe_channels hw a dev k t)
  unfolding probe_channels
  probe_channels-Completed dev k t h = elim (Option-cases (init_dma a 0 (setup_chans dev.chans))) [
    | inl e ↦ not_failed Errno.enomem (rw (probe_channels, e) at h)
    | inr (chans, e) ↦
        let c =
          probe_clock-Completed (record dev { chans = chans }) k t (rw (probe_channels, e) at h) in
        rw (probe_channels, e)
          (record {
            kernel = c.kernel;
            irq_count = c.irq_count;
            channels = c.channels;
            minor_base = c.minor_base;
            has_clock = c.has_clock;
          })
  ]

  -- What the stages from the character devices on add.
  record Registered (dev : Device) (k : Kernel) (p : Probed) : Type 0 where
    not_refused : (e : Errno) → (chdevs k).ret ≢ Ret.fail e
    kernel :
        p.kernel
        ≡ record k { calls = (chdevs k).calls; minor_idx = (chdevs k).minor_idx; clock = true }
    irq_count : p.dev.irq_count ≡ dev.irq_count
    channels : p.dev.channels ≡ dma_channels
    minor_base : p.dev.minor_base ≡ (chdevs k).minor_base
    has_clock : p.dev.has_clock ≡ true

  probe_chdev-Registered :
      (dev : Device) (k : Kernel) (t : Trace)
      → Succeeds (probe_chdev hw a dev k t)
      → Registered dev k (probe_chdev hw a dev k t)
  unfolding probe_chdev
  probe_chdev-Registered dev k t h = elim (Ret-cases ((chdevs k).ret)) [
    | inr (err, e) ↦ not_failed err (rw (probe_chdev, e) at h)
    | inl (n, e) ↦
        let c = probe_channels-Completed _ _ t (rw (probe_chdev, e) at h) in
        rw (probe_chdev, e)
          (record {
            not_refused = λ err f. cc (e, f);
            kernel = c.kernel;
            irq_count = c.irq_count;
            channels = c.channels;
            minor_base = c.minor_base;
            has_clock = c.has_clock;
          })
  ]

  -- A device that is in use: what a probe that returns 0 has added to what the kernel held.
  pub record Live (k : Kernel) (p : Probed) : Type 0 where
    pub not_refused : (e : Errno) → (chdevs k).ret ≢ Ret.fail e
    pub irqs : (j : ℕ) → p.kernel.irqs j ≡ handlers 0 p.dev.irq_count k.irqs j
    pub vectors : p.kernel.vectors ≡ true
    pub clock : p.kernel.clock ≡ true
    pub has_clock : p.dev.has_clock ≡ true
    pub calls : p.kernel.calls ≡ (chdevs k).calls
    pub channels : p.dev.channels ≡ dma_channels
    pub minor_base : p.dev.minor_base ≡ (chdevs k).minor_base

  probe_irqs-Live :
      (n : ℕ) (dev : Device) (k : Kernel) (t : Trace)
      → k.vectors ≡ true
      → Succeeds (probe_irqs hw a n dev k t)
      → Live k (probe_irqs hw a n dev k t)
  unfolding probe_irqs
  probe_irqs-Live n dev k t on h = elim (Option-cases (request_irqs a.request_irq n 0 k.irqs).0) [
    | inr (at, e) ↦ not_failed (at.1) (rw (probe_irqs, e) at h)
    | inl e ↦
        let irqs = (request_irqs a.request_irq n 0 k.irqs).1 in
        let r =
          probe_chdev-Registered (record dev { irq_count = n }) (record k { irqs = irqs }) t
            (rw (probe_irqs, e) at h) in
        let ours = all_handlers _ _ _ _ _ (request_irqs-Requested a.request_irq n 0 k.irqs) e in
        rw (probe_irqs, e)
          (record {
            not_refused = r.not_refused;
            irqs = λ j. rw (r.kernel, r.irq_count) (ours j);
            vectors = rw r.kernel on;
            clock = rw r.kernel refl;
            has_clock = r.has_clock;
            calls = rw r.kernel refl;
            channels = r.channels;
            minor_base = r.minor_base;
          })
  ]

  probe_bar0-Live :
      (k : Kernel) (t : Trace) → Succeeds (probe_bar0 hw a k t) → Live k (probe_bar0 hw a k t)
  unfolding probe_bar0
  probe_bar0-Live k t h = elim (Option-cases (a.set_mask)) [
    | inr (err, e) ↦ not_failed err (rw (probe_bar0, e) at h)
    | inl e ↦ elim (Vectors-cases (a.irq_vectors)) [
      | inr (err, f) ↦ not_failed err (rw (probe_bar0, e, f) at h)
      | inl (n, f) ↦
          let l =
            probe_irqs-Live n zero_device (record k { vectors = true }) _ refl
              (rw (probe_bar0, e, f) at h) in
          rw (probe_bar0, e, f)
            (record {
              not_refused = l.not_refused;
              irqs = l.irqs;
              vectors = l.vectors;
              clock = l.clock;
              has_clock = l.has_clock;
              calls = l.calls;
              channels = l.channels;
              minor_base = l.minor_base;
            })
    ]
  ]

  -- A check that fails the probe.
  Live-check :
      (k : Kernel) (bad : Bool) (e : Errno) (t : Trace) (p : Probed)
      → (Succeeds p → Live k p)
      → Succeeds (if bad then fail1 e k zero_device t else p)
      → Live k (if bad then fail1 e k zero_device t else p)
  Live-check k true e t p live h = not_failed e h
  Live-check k false e t p live h = live h

  -- A call whose error the probe returns.
  Live-call :
      (k : Kernel) (error : Option Errno) (t : Trace) (p : Probed)
      → (Succeeds p → Live k p)
      → Succeeds (elim error [ some e ↦ fail1 e k zero_device t | none ↦ p ])
      → Live k (elim error [ some e ↦ fail1 e k zero_device t | none ↦ p ])
  Live-call k none t p live h = live h
  Live-call k (some e) t p live h = not_failed e h

  pub probe-Live : (k : Kernel) (t : Trace) → Succeeds (probe hw a k t) → Live k (probe hw a k t)
  unfolding probe
  probe-Live k t = Live-check k (not a.kzalloc) Errno.enomem t _ (
      Live-call k (a.enable_device) t _ (
        Live-check k (not (a.rev_id == 0)) Errno.eio t _ (
          Live-check k (not a.bar0_is_mem) Errno.eio t _ (
            Live-check k (not a.iomap_regions) Errno.eio t _
              (Live-check k (not a.iomap_table) Errno.eio t _ (probe_bar0-Live k t))))))

  -- A probe that returns 0 and then `litepcie_pci_remove`, where before the driver had no handler
  -- on the vectors and the minors and channels to come were not registered: every handler, node and
  -- character device is as it was before, the vectors are given back and the clock is unregistered.
  pub remove_undoes :
      (k : Kernel) (t t' : Trace) (x : ℕ)
      → ((j : ℕ) → k.irqs j ≡ none)
      → ((x : ℕ) → within k.minor_idx dma_channels x ≡ true → node k.calls x ≡ false)
      → ((x : ℕ) → within 0 dma_channels x ≡ true → cdev k.calls x ≡ false)
      → Succeeds (probe hw a k t)
      → let p = probe hw a k t in
        let k' = (remove p.dev p.kernel t').0 in
        (k'.irqs x ≡ none)
        × (k'.vectors ≡ false)
        × (k'.clock ≡ false)
        × (node k'.calls x ≡ node k.calls x)
        × (cdev k'.calls x ≡ cdev k.calls x)
  unfolding remove
  remove_undoes k t t' x no_irqs free_minors free_chans ok =
      let live = probe-Live k t ok in
      let p = probe hw a k t in
      let freed =
        free_chdev_undoes a.add_error a.create_ok dma_channels k.minor_idx k.calls x free_minors
          free_chans (registered live.not_refused) in
      (
        free_up-undoes p.dev.irq_count k.irqs p.kernel.irqs x live.irqs no_irqs,
        refl,
        rw live.has_clock refl,
        rw (live.channels, live.minor_base, live.calls) freed.0,
        rw (live.channels, live.minor_base, live.calls) freed.1,
      )
    where
      registered : ((e : Errno) → (chdevs k).ret ≢ Ret.fail e) → (chdevs k).ret ≡ Ret.done 0
      registered not_refused =
          elim (alloc_chdev_all_or_none a.add_error a.create_ok dma_channels k.minor_idx k.calls
            free_minors free_chans) [ inl r ↦ r.ret | inr r ↦ absurd (not_refused r.error r.ret) ]
