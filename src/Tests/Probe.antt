-- ===== src/Tests/Probe.antt =====
-- Probe, removal and the module at concrete inputs.
use litepcie_ptm_test.Base.{ℕ, true, false, ◌≡◌, refl, some, none, if◌then◌else◌, []}
use litepcie_ptm_test.File.{Ret, Errno}
use litepcie_ptm_test.Chdev.{alloc_chdev, add_all, create_all}
use litepcie_ptm_test.Chdev.Registry.{node, cdev}
use litepcie_ptm_test.Chdev.Ranges.{within}
use litepcie_ptm_test.Probe.{
  Kernel, Answers, given, litepcie_dev, probe, probe_bar0, probe_irqs, probe_chdev, probe_channels,
  probe_clock, init_dma, alloc_buffers, setup_chans, setup_chan, request_irqs, remove,
}
use litepcie_ptm_test.Probe.Lifetime.{Succeeds, remove_undoes}
use litepcie_ptm_test.Probe.Leaks.{probe_keeps_handlers}
use litepcie_ptm_test.Module.{Revision}
use litepcie_ptm_test.Tests.Data.{zeros}

-- A kernel without the driver's device, which gives two vectors and whatever else it is asked for.
abbrev fresh : Kernel
fresh = record { irqs = λ j. none; vectors = false; calls = []; minor_idx = 0; clock = false }

abbrev generous : Answers
generous = record {
  kzalloc = true;
  enable_device = none;
  rev_id = 0;
  bar0_is_mem = true;
  iomap_regions = true;
  iomap_table = true;
  set_mask = none;
  irq_vectors = given 2;
  request_irq = λ j. none;
  add_error = λ i. none;
  create_ok = λ i. true;
  buffer_ok = λ i j. true;
  reader_bus = λ i j. 0x1000;
  writer_bus = λ i j. 0x2000;
  ptp_register = none;
}

generous-Succeeds : Succeeds (probe zeros generous fresh [])
unfolding probe probe_bar0 probe_irqs probe_chdev probe_channels probe_clock init_dma alloc_buffers
    setup_chans setup_chan request_irqs alloc_chdev add_all create_all
generous-Succeeds = refl

node_free : (x : ℕ) → node [] x ≡ false
unfolding node
node_free x = refl

cdev_free : (x : ℕ) → cdev [] x ≡ false
unfolding cdev
cdev_free x = refl

remove_undoes_example :
    let p = probe zeros generous fresh [] in
    let k' = (remove p.dev p.kernel []).0 in
    (k'.irqs 1 ≡ none)
    × (k'.vectors ≡ false)
    × (k'.clock ≡ false)
    × (node k'.calls 1 ≡ node fresh.calls 1)
    × (cdev k'.calls 1 ≡ cdev fresh.calls 1)
remove_undoes_example =
    remove_undoes zeros generous fresh [] [] 1 (λ j. refl) (λ x h. node_free x) (λ x h. cdev_free x)
      generous-Succeeds

-- The same kernel, with no memory for the last buffer.
abbrev short_of_memory : Answers
short_of_memory = record generous { buffer_ok = λ i j. false }

probe_keeps_handlers_example :
    let p = probe zeros short_of_memory fresh [] in
    p.kernel.irqs 1 ≡ (if within 0 p.dev.irq_count 1 then some litepcie_dev else fresh.irqs 1)
probe_keeps_handlers_example = probe_keeps_handlers zeros short_of_memory fresh [] 1

abbrev earlier : Revision
earlier = record { yy = 2022; mm = 12; dd = 31 }

abbrev later : Revision
later = record { yy = 2023; mm = 1; dd = 1 }

-- It returns ENOMEM, with the handlers of both vectors still there.
leaks_two :
    let p = probe zeros short_of_memory fresh [] in
    (p.ret ≡ Ret.fail Errno.enomem)
    × (p.kernel.vectors ≡ false)
    × (p.kernel.irqs 0 ≡ some litepcie_dev)
    × (p.kernel.irqs 1 ≡ some litepcie_dev)
unfolding probe probe_bar0 probe_irqs probe_chdev probe_channels probe_clock init_dma alloc_buffers
    setup_chans setup_chan request_irqs alloc_chdev add_all create_all
leaks_two = (refl, refl, refl, refl)
