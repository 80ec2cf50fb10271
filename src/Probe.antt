-- ===== src/Probe.antt =====
-- software/kernel/main.c: `litepcie_pci_probe`, `litepcie_dma_init` and `litepcie_pci_remove`, for
-- the build of csr.h (MSI-X, one DMA channel, no UART). What the kernel answers is an argument; what
-- it holds for the driver, apart from what it gives up by itself (devm_, pcim_, dmam_), is a state.
pub mod Irqs
pub mod Lifetime
pub mod Leaks
use litepcie_ptm_test.Base.{
  ℕ, zero, suc, Bool, true, false, ◌+◌, ◌*◌, Option, none, some, List, [], ◌∷◌, ◌==◌, if◌then◌else◌,
  not,
}
use litepcie_ptm_test.Config.{csr_pcie_msi_enable_addr, dma_buffer_count}
use litepcie_ptm_test.Bus.{Trace, Hw, readl, writel}
use litepcie_ptm_test.Dma.{DmaChan, stop_dma}
use litepcie_ptm_test.File.{Ret, Errno, done, fail}
use litepcie_ptm_test.Chdev.{Call, Alloc, alloc_chdev, free_chdev}
use litepcie_ptm_test.Ptp.{Ptm, prepare_ptm}

-- The cookie that an interrupt is requested with: `litepcie_dev` or the PCI device.
pub data Cookie : Type 0 where
  litepcie_dev : Cookie
  pci_dev : Cookie

abbrev pub same_cookie : Cookie → Cookie → Bool
same_cookie litepcie_dev litepcie_dev = true
same_cookie pci_dev pci_dev = true
same_cookie other cookie = false

-- What the kernel holds for the driver: the handler of each vector, the vectors, the calls on
-- character devices and the next minor, the PTP clock.
pub record Kernel : Type 0 where
  pub irqs : ℕ → Option Cookie
  pub vectors : Bool
  pub calls : List Call
  pub minor_idx : ℕ
  pub clock : Bool

-- `struct litepcie_device`, as far as probe and remove use it.
pub record Device : Type 0 where
  pub irq_count : ℕ
  pub channels : ℕ
  pub minor_base : ℕ
  pub chans : List DmaChan
  pub has_clock : Bool

pub record Probed : Type 0 where
  pub ret : Ret
  pub kernel : Kernel
  pub dev : Device
  pub ptm : Option Ptm
  pub trace : Trace

-- What pci_alloc_irq_vectors returns.
pub data Vectors : Type 0 where
  refused : Errno → Vectors
  given : ℕ → Vectors

-- The answers of the kernel; an error number where a call can fail, `none` where it succeeds.
pub record Answers : Type 0 where
  pub kzalloc : Bool
  pub enable_device : Option Errno
  pub rev_id : ℕ
  pub bar0_is_mem : Bool
  pub iomap_regions : Bool
  pub iomap_table : Bool
  pub set_mask : Option Errno
  pub irq_vectors : Vectors
  pub request_irq : ℕ → Option Errno
  pub add_error : ℕ → Option Errno
  pub create_ok : ℕ → Bool
  pub buffer_ok : ℕ → ℕ → Bool
  pub reader_bus : ℕ → ℕ → ℕ
  pub writer_bus : ℕ → ℕ → ℕ
  pub ptp_register : Option Errno

abbrev pub csr_ctrl_reset_addr : ℕ
csr_ctrl_reset_addr = 0x0

abbrev pub csr_identifier_mem_base : ℕ
csr_identifier_mem_base = 0x5000

abbrev pub csr_pcie_dma0_base : ℕ
csr_pcie_dma0_base = 0x6000

abbrev pub pcie_dma0_reader_interrupt : ℕ
pcie_dma0_reader_interrupt = 0

abbrev pub pcie_dma0_writer_interrupt : ℕ
pcie_dma0_writer_interrupt = 1

abbrev pub dma_channels : ℕ
dma_channels = 1

-- request_irq and free_irq, on the table of handlers. free_irq takes the handler off whose cookie it
-- is given, and no other.
abbrev pub set_irq : ℕ → Option Cookie → (ℕ → Option Cookie) → ℕ → Option Cookie
set_irq i handler irqs j = if j == i then handler else irqs j

unfoldable pub free_irq : ℕ → Cookie → (ℕ → Option Cookie) → ℕ → Option Cookie
free_irq i cookie irqs = elim (irqs i) [
  | none ↦ irqs
  | some held ↦ if same_cookie held cookie then set_irq i none irqs else irqs
]

-- The loop that requests the interrupts, from `i` on: where it fail1, with what error, if it did.
unfoldable pub request_irqs :
    (ℕ → Option Errno) → ℕ → ℕ → (ℕ → Option Cookie) → Option (ℕ × Errno) × (ℕ → Option Cookie)
request_irqs request zero i irqs = (none, irqs)
request_irqs request (suc left) i irqs =
    let rest = request_irqs request left (i + 1) (set_irq i (some litepcie_dev) irqs) in
    elim (request i) [ none ↦ rest | some e ↦ (some (i, e), irqs) ]

-- The loop at a failure, down from the vector before `i`.
unfoldable pub free_down : ℕ → Cookie → (ℕ → Option Cookie) → ℕ → Option Cookie
free_down zero cookie irqs = irqs
free_down (suc i) cookie irqs = free_down i cookie (free_irq i cookie irqs)

-- The loop of `litepcie_pci_remove`, from `i` on.
unfoldable pub free_up : ℕ → ℕ → (ℕ → Option Cookie) → ℕ → Option Cookie
free_up zero i irqs = irqs
free_up (suc left) i irqs = free_up left (i + 1) (free_irq i litepcie_dev irqs)

-- The buffers of one channel, from `j` on: whether all were allocated.
unfoldable pub alloc_buffers : (ℕ → Bool) → ℕ → ℕ → Bool
alloc_buffers ok zero j = true
alloc_buffers ok (suc left) j =
    let rest = alloc_buffers ok left (j + 1) in if ok j then rest else false

-- `litepcie_dma_init` from channel `i` on; `none` is ENOMEM.
unfoldable pub init_dma : Answers → ℕ → List DmaChan → Option (List DmaChan)
init_dma a i [] = some []
init_dma a i (d ∷ chans) =
    let rest = init_dma a (i + 1) chans in
    if alloc_buffers (a.buffer_ok i) dma_buffer_count 0
    then elim rest [
      | none ↦ none
      | some ds ↦
          some (record d { reader_handle = a.reader_bus i; writer_handle = a.writer_bus i } ∷ ds)
    ]
    else none

-- The fields of a channel that the probe sets; with one channel only the last case is left.
unfoldable pub setup_chan : DmaChan → DmaChan
setup_chan d = record d {
  writer_lock = 0;
  reader_lock = 0;
  base = csr_pcie_dma0_base;
  writer_interrupt = pcie_dma0_writer_interrupt;
  reader_interrupt = pcie_dma0_reader_interrupt;
}

unfoldable pub setup_chans : List DmaChan → List DmaChan
setup_chans [] = []
setup_chans (d ∷ chans) = setup_chan d ∷ setup_chans chans

-- A channel as devm_kzalloc gives it.
abbrev pub zero_chan : DmaChan
zero_chan = record {
  base = 0;
  writer_interrupt = 0;
  reader_interrupt = 0;
  reader_handle = λ j. 0;
  writer_handle = λ j. 0;
  reader_hw_count = 0;
  reader_hw_count_last = 0;
  reader_sw_count = 0;
  writer_hw_count = 0;
  writer_hw_count_last = 0;
  writer_sw_count = 0;
  writer_enable = 0;
  reader_enable = 0;
  writer_lock = 0;
  reader_lock = 0;
}

abbrev pub zero_device : Device
zero_device = record {
  irq_count = 0;
  channels = 0;
  minor_base = 0;
  chans = zero_chan ∷ [];
  has_clock = false;
}

-- `fail1`
abbrev pub fail1 : Errno → Kernel → Device → Trace → Probed
fail1 e k dev t = record { ret = Ret.fail e; kernel = k; dev = dev; ptm = none; trace = t }

-- `fail2`
abbrev pub fail2 : Errno → Kernel → Device → Trace → Probed
fail2 e k dev t = fail1 e (record k { vectors = false }) dev t

-- `fail3`
abbrev pub fail3 : Errno → Kernel → Device → Trace → Probed
fail3 e k dev t =
    fail2 e (record k { calls = free_chdev dev.channels dev.minor_base k.calls }) dev t

module _ (hw : Hw) where
  -- The reads of the identifier, whose text is printed.
  unfoldable pub read_identifier : ℕ → ℕ → Trace → Trace
  read_identifier zero i t = t
  read_identifier (suc left) i t =
      read_identifier left (i + 1) ((readl hw (csr_identifier_mem_base + i * 4) t).1)

  module _ (a : Answers) where
    -- The probe from the PTP clock on; ptp_clock_register gives a clock or an error. The NULL of a
    -- kernel without PTP is not among the answers.
    unfoldable pub probe_clock : Device → Kernel → Trace → Probed
    probe_clock dev k t = elim (a.ptp_register) [
      | some e ↦ fail1 e k dev t
      | none ↦
          let (ptm, t') = prepare_ptm hw t in
          record {
            ret = Ret.done 0;
            kernel = record k { clock = true };
            dev = record dev { has_clock = true };
            ptm = some ptm;
            trace = t';
          }
    ]

    -- The probe from the channels on.
    unfoldable pub probe_channels : Device → Kernel → Trace → Probed
    probe_channels dev k t =
        let dev = record dev { chans = setup_chans dev.chans } in
        elim (init_dma a 0 dev.chans) [
          | none ↦ fail3 Errno.enomem k dev t
          | some chans ↦ probe_clock (record dev { chans = chans }) k t
        ]

    -- The probe from the character devices on.
    unfoldable pub probe_chdev : Device → Kernel → Trace → Probed
    probe_chdev dev k t =
        let r = alloc_chdev a.add_error a.create_ok dma_channels k.minor_idx k.calls in
        let dev = record dev { channels = dma_channels; minor_base = r.minor_base } in
        let k = record k { calls = r.calls; minor_idx = r.minor_idx } in
        elim (r.ret) [ fail e ↦ fail2 e k dev t | done n ↦ probe_channels dev k t ]

    -- The probe from the interrupts on, with `n` vectors.
    unfoldable pub probe_irqs : ℕ → Device → Kernel → Trace → Probed
    probe_irqs n dev k t =
        let (error, irqs) = request_irqs a.request_irq n 0 k.irqs in
        elim error [
          | some at ↦
              fail2 (at.1) (record k { irqs = free_down (at.0) pci_dev irqs })
                (record dev { irq_count = at.0 }) t
          | none ↦ probe_chdev (record dev { irq_count = n }) (record k { irqs = irqs }) t
        ]

    -- The probe once BAR0 is mapped.
    unfoldable pub probe_bar0 : Kernel → Trace → Probed
    probe_bar0 k t =
        let t = read_identifier 256 0 (writel csr_ctrl_reset_addr 1 t) in
        elim (a.set_mask) [
          | some e ↦ fail1 e k zero_device t
          | none ↦ elim (a.irq_vectors) [
            | refused e ↦ fail1 e k zero_device t
            | given n ↦ probe_irqs n zero_device (record k { vectors = true }) t
          ]
        ]

    -- `litepcie_pci_probe`
    unfoldable pub probe : Kernel → Trace → Probed
    probe k t =
        if not a.kzalloc then fail1 Errno.enomem k zero_device t else elim (a.enable_device) [
          | some e ↦ fail1 e k zero_device t
          | none ↦
              let bar0 = probe_bar0 k t in
              if not (a.rev_id == 0)
              then fail1 Errno.eio k zero_device t
              else if not a.bar0_is_mem
              then fail1 Errno.eio k zero_device t
              else if not a.iomap_regions
              then fail1 Errno.eio k zero_device t
              else if not a.iomap_table
              then fail1 Errno.eio k zero_device t
              else bar0
        ]

-- `litepcie_pci_remove`
unfoldable pub remove : Device → Kernel → Trace → Kernel × Trace
remove dev k t =
    let k = record k { clock = if dev.has_clock then false else k.clock } in
    let t = writel csr_pcie_msi_enable_addr 0 (stop_dma dev.chans t) in
    (
      record k {
        irqs = free_up dev.irq_count 0 k.irqs;
        calls = free_chdev dev.channels dev.minor_base k.calls;
        vectors = false;
      },
      t,
    )
