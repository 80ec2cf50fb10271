-- ===== src/User/Setup.antt =====
-- software/user/liblitepcie/litepcie_dma.c: `litepcie_dma_init`, and the whole of
-- `litepcie_dma_cleanup`: the file, the locks and the memory of a program.
use litepcie_ptm_test.Base.{ℕ, Bool, Option, none, some, ◌==◌, if◌then◌else◌, bit_or}
use litepcie_ptm_test.Bus.{Hw}
use litepcie_ptm_test.File.{pollin, pollout}
use litepcie_ptm_test.File.Request.{MmapDmaInfo, Request, Reply, Build, Session, nonzero}
use litepcie_ptm_test.User.{DmaCtrl, checked_ioctl, request_dma, cleanup, ◌>>=◌}

-- What `buf_rd` or `buf_wr` points to: nothing, a mapping at an offset of the file, memory of
-- calloc(3).
pub data Area : Type 0 where
  absent : Area
  mapped : ℕ → Area
  allocated : Area

pub record Areas : Type 0 where
  pub buf_rd : Area
  pub buf_wr : Area

abbrev pub no_areas : Areas
no_areas = record { buf_rd = Area.absent; buf_wr = Area.absent }

-- `litepcie_dma_init` returns 0, with the file open; or -1, with the file if it is open, and with
-- what was mapped or allocated.
pub data Start : Type 0 where
  ready : DmaCtrl → Areas → Session → Start
  failed : Option Session → Areas → Start

-- The answer of LITEPCIE_IOCTL_MMAP_DMA_INFO.
abbrev pub info_of : Option Reply → Option MmapDmaInfo
info_of (some (Reply.info m)) = some m
info_of other = none

-- Get one area if the program uses it; `ok` is whether mmap or calloc succeeds. `none` is MAP_FAILED
-- or NULL.
abbrev pub get_area : ℕ → Bool → Area → Option Area
get_area used ok area = if nonzero used then (if ok then some area else none) else some Area.absent

-- The mappings, or the allocations: the writer's area first. Where the second allocation fails,
-- the first is freed; a first mapping stays.
unfoldable pub get_areas : DmaCtrl → MmapDmaInfo → (rd_ok wr_ok : Bool) → Session → Start
get_areas c info rd_ok wr_ok s =
    let copies = c.zero_copy == 0 in
    let rd = if copies then Area.allocated else Area.mapped info.dma_rx_buf_offset in
    let wr = if copies then Area.allocated else Area.mapped info.dma_tx_buf_offset in
    elim (get_area c.use_writer rd_ok rd) [
      | none ↦ Start.failed (some s) no_areas
      | some got_rd ↦ elim (get_area c.use_reader wr_ok wr) [
        | none ↦
            Start.failed (some s)
              (record { buf_rd = if copies then Area.absent else got_rd; buf_wr = Area.absent })
        | some got_wr ↦ Start.ready c (record { buf_rd = got_rd; buf_wr = got_wr }) s
      ]
    ]

-- The control block as `litepcie_dma_init` sets it.
unfoldable pub set_up : ℕ → DmaCtrl → DmaCtrl
set_up zero_copy c =
    let c = record c {
      reader_hw_count = 0;
      reader_sw_count = 0;
      writer_hw_count = 0;
      writer_sw_count = 0;
      zero_copy = zero_copy;
    } in
    let c = if nonzero c.use_reader then record c { events = bit_or c.events pollout } else c in
    if nonzero c.use_writer then record c { events = bit_or c.events pollin } else c

-- No answer of the driver is needed where the program copies.
abbrev pub no_info : MmapDmaInfo
no_info = record {
  dma_tx_buf_offset = 0;
  dma_tx_buf_size = 0;
  dma_tx_buf_count = 0;
  dma_rx_buf_offset = 0;
  dma_rx_buf_size = 0;
  dma_rx_buf_count = 0;
}

-- The areas as `litepcie_dma_cleanup` leaves them.
unfoldable pub give_up_areas : DmaCtrl → Areas → Areas
give_up_areas c m =
    if nonzero c.zero_copy
    then record {
      buf_rd = if nonzero c.use_writer then Area.absent else m.buf_rd;
      buf_wr = if nonzero c.use_reader then Area.absent else m.buf_wr;
    }
    else no_areas

module _ (hw : Hw) (b : Build) where
  -- `litepcie_dma_set_loopback`
  unfoldable pub dma_set_loopback : ℕ → Session → Option Session
  dma_set_loopback loopback_enable s =
      checked_ioctl hw b (Request.loopback (some loopback_enable)) s >>= λ r. some r.0

  -- `litepcie_dma_init`; `opened` is the session that open(2) gives.
  unfoldable pub dma_init : Option Session → ℕ → (rd_ok wr_ok : Bool) → DmaCtrl → Option Start
  dma_init none zero_copy rd_ok wr_ok c = some (Start.failed none no_areas)
  dma_init (some s) zero_copy rd_ok wr_ok c =
      let c = set_up zero_copy c in
      request_dma hw b c.use_reader c.use_writer s >>= λ r.
      if r.1 == 0
      then some (Start.failed (some r.0) no_areas)
      else (dma_set_loopback c.loopback r.0 >>= λ s.
          if nonzero c.zero_copy
          then (checked_ioctl hw b Request.mmap_dma_info s >>= λ q.
              info_of q.1 >>= λ info. some (get_areas c info rd_ok wr_ok q.0))
          else some (get_areas c no_info rd_ok wr_ok s))

  -- `litepcie_dma_cleanup`, up to close(2): the session to close, and the areas that are left.
  unfoldable pub dma_cleanup : DmaCtrl → Areas → Session → Option (Session × Areas)
  dma_cleanup c m s = cleanup hw b c s >>= λ s. some (s, give_up_areas c m)
