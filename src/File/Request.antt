-- ===== src/File/Request.antt =====
-- software/kernel/main.c and litepcie.h: the argument structs of the ioctls, and what a call on an
-- open file reaches. A request holds the struct that copy_from_user brings, `none` where that copy
-- fails.
use litepcie_ptm_test.Base.{ℕ, Bool, not, Option, none, some, ◌==◌, if◌then◌else◌}
use litepcie_ptm_test.Bus.{Trace}
use litepcie_ptm_test.Dma.{DmaChan}
use litepcie_ptm_test.File.{Ret, Errno, ChanPriv}

pub record RegArgs : Type 0 where
  pub addr : ℕ
  pub val : ℕ
  pub is_write : ℕ

-- `tx_len` is the bit pattern of an int.
pub record FlashArgs : Type 0 where
  pub tx_len : ℕ
  pub tx_data : ℕ
  pub rx_data : ℕ

pub record IcapArgs : Type 0 where
  pub addr : ℕ
  pub data_word : ℕ

-- `litepcie_ioctl_dma_writer` and `litepcie_ioctl_dma_reader`
pub record EngineArgs : Type 0 where
  pub enable : ℕ
  pub hw_count : ℕ
  pub sw_count : ℕ

pub record LockArgs : Type 0 where
  pub dma_reader_request : ℕ
  pub dma_writer_request : ℕ
  pub dma_reader_release : ℕ
  pub dma_writer_release : ℕ
  pub dma_reader_status : ℕ
  pub dma_writer_status : ℕ

pub record MmapDmaInfo : Type 0 where
  pub dma_tx_buf_offset : ℕ
  pub dma_tx_buf_size : ℕ
  pub dma_tx_buf_count : ℕ
  pub dma_rx_buf_offset : ℕ
  pub dma_rx_buf_size : ℕ
  pub dma_rx_buf_count : ℕ

-- The `cmd` and what its argument points to.
pub data Request : Type 0 where
  reg : Option RegArgs → Request
  flash : Option FlashArgs → Request
  icap : Option IcapArgs → Request
  loopback : Option ℕ → Request
  dma_writer : Option EngineArgs → Request
  dma_reader : Option EngineArgs → Request
  mmap_dma_info : Request
  mmap_dma_writer_update : Option ℕ → Request
  mmap_dma_reader_update : Option ℕ → Request
  lock : Option LockArgs → Request
  other : Request

-- The struct that copy_to_user takes back.
pub data Reply : Type 0 where
  reg : RegArgs → Reply
  flash : FlashArgs → Reply
  engine : EngineArgs → Reply
  info : MmapDmaInfo → Reply
  lock : LockArgs → Reply

-- The registers of the parts that a build may lack (CSR_FLASH_BASE, CSR_ICAP_BASE).
pub record FlashCsr : Type 0 where
  pub spi_mosi_addr : ℕ
  pub spi_control_addr : ℕ
  pub spi_status_addr : ℕ
  pub spi_miso_addr : ℕ

pub record IcapCsr : Type 0 where
  pub icap_addr_addr : ℕ
  pub icap_data_addr : ℕ
  pub icap_write_addr : ℕ

pub record Build : Type 0 where
  pub flash_csr : Option FlashCsr
  pub icap_csr : Option IcapCsr

-- What a call on one open file reaches: its channel, its private data, the registers.
pub record Session : Type 0 where
  pub dma : DmaChan
  pub priv : ChanPriv
  pub trace : Trace

pub record Answer : Type 0 where
  pub ret : Ret
  pub sess : Session
  pub reply : Option Reply

abbrev pub answer : Ret → Session → Answer
answer r s = record { ret = r; sess = s; reply = none }

abbrev pub plain : Session → Answer
plain s = answer (Ret.done 0) s

-- The copy_to_user at the end of a case, which may fail.
abbrev pub give_back : Bool → Reply → Session → Answer
give_back copy_ok r s =
    if copy_ok
    then record { ret = Ret.done 0; sess = s; reply = some r }
    else answer (Ret.fail Errno.efault) s

-- A case that starts with copy_from_user.
abbrev pub with_args {ℓ} : {A : Type ℓ} → Option A → Session → (A → Answer) → Answer
with_args none s k = answer (Ret.fail Errno.efault) s
with_args (some m) s k = k m

abbrev pub nonzero : ℕ → Bool
nonzero n = not (n == 0)
