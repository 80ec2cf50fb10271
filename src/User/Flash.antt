-- ===== src/User/Flash.antt =====
-- software/user/liblitepcie/litepcie_flash.c: the commands of the SPI flash over the flash ioctl, in
-- a build that has one. The bytes to write are a function of their offset.
pub mod Frames
pub mod Returns
pub mod Buffers
pub mod Program
use litepcie_ptm_test.Base.{
  ℕ, zero, suc, Bool, true, false, ◌+◌, ◌*◌, ◌%◌, ◌^◌, List, [], ◌∷◌, Option, none, some, ◌==◌, ltb,
  if◌then◌else◌, not, ◌&&◌, bit_and, bit_or,
}
use litepcie_ptm_test.Base.Word.{u8, u32, ◌<<<◌}
use litepcie_ptm_test.Bus.{Hw}
use litepcie_ptm_test.File.Request.{FlashArgs, Request, Reply, Build, Session, nonzero}
use litepcie_ptm_test.User.{checked_ioctl, ◌>>=◌}
use litepcie_ptm_test.User.Registers.{user_readl, user_writel}

abbrev pub flash_read_cmd : ℕ
flash_read_cmd = 0x03

abbrev pub flash_wren : ℕ
flash_wren = 0x06

abbrev pub flash_wrdi : ℕ
flash_wrdi = 0x04

abbrev pub flash_pp : ℕ
flash_pp = 0x02

abbrev pub flash_se : ℕ
flash_se = 0xD8

abbrev pub flash_rdsr : ℕ
flash_rdsr = 0x05

abbrev pub flash_wrsr : ℕ
flash_wrsr = 0x01

abbrev pub flash_wip : ℕ
flash_wip = 0x01

abbrev pub flash_sector_size : ℕ
flash_sector_size = 1 <<< 16

abbrev pub flash_retries : ℕ
flash_retries = 16

-- The struct in the answer of the flash ioctl.
abbrev pub flash_of : Option Reply → Option FlashArgs
flash_of (some (Reply.flash m)) = some m
flash_of other = none

-- The command of a transfer by bytes: the address is widened before the shift.
abbrev pub buffer_frame : (cmd addr : ℕ) → ℕ
buffer_frame cmd addr = bit_or (cmd <<< 32) (addr <<< 8)

module _ (hw : Hw) (b : Build) (cs_addr : ℕ) where
  -- `flash_spi_cs`; `cs_addr` is CSR_FLASH_CS_N_OUT_ADDR.
  unfoldable pub flash_spi_cs : ℕ → Session → Option Session
  flash_spi_cs cs_n s = user_writel hw b cs_addr cs_n s

  -- The flash ioctl on a struct with `tx_len` and `tx_data`.
  unfoldable pub flash_ioctl : ℕ → ℕ → Session → Option (Session × FlashArgs)
  flash_ioctl tx_len tx_data s = do
    (s, reply) ←
        checked_ioctl hw b
          (Request.flash (some (record { tx_len = tx_len; tx_data = tx_data; rx_data = 0 }))) s
    m ← flash_of reply
    some (s, m)

  -- `flash_spi`
  unfoldable pub user_flash_spi : (tx_len cmd tx_data : ℕ) → Session → Option (Session × ℕ)
  user_flash_spi tx_len cmd tx_data s = do
    s ← flash_spi_cs 0 s
    (s, m) ← flash_ioctl tx_len (bit_or (cmd <<< 32) tx_data) s
    s ← flash_spi_cs 1 s
    some (s, m.rx_data)

  -- A command whose answer is not used.
  abbrev flash_command : (tx_len cmd tx_data : ℕ) → Session → Option Session
  flash_command tx_len cmd tx_data s = user_flash_spi tx_len cmd tx_data s >>= λ r. some r.0

  -- A command of whose answer the bits of a mask are used.
  abbrev flash_answer : (tx_len cmd tx_data mask : ℕ) → Session → Option (Session × ℕ)
  flash_answer tx_len cmd tx_data mask s =
      user_flash_spi tx_len cmd tx_data s >>= λ r. some (r.0, bit_and r.1 mask)

  -- `flash_read_id`
  unfoldable pub flash_read_id : ℕ → Session → Option (Session × ℕ)
  flash_read_id reg s = flash_answer 32 (u8 reg) 0 0xffffff s

  -- `flash_write_enable`
  unfoldable pub flash_write_enable : Session → Option Session
  flash_write_enable s = flash_command 8 flash_wren 0 s

  -- `flash_write_disable`
  unfoldable pub flash_write_disable : Session → Option Session
  flash_write_disable s = flash_command 8 flash_wrdi 0 s

  -- `flash_read_status`
  unfoldable pub flash_read_status : Session → Option (Session × ℕ)
  flash_read_status s = flash_answer 16 flash_rdsr 0 0xff s

  -- `flash_write_status`
  unfoldable pub flash_write_status : ℕ → Session → Option Session
  flash_write_status value s = flash_command 16 flash_wrsr (u32 (value <<< 24)) s

  -- `flash_erase_sector`
  unfoldable pub flash_erase_sector : ℕ → Session → Option Session
  flash_erase_sector addr s = flash_command 32 flash_se (u32 (addr <<< 8)) s

  -- `flash_read_sector_lock`
  unfoldable pub flash_read_sector_lock : ℕ → Session → Option (Session × ℕ)
  flash_read_sector_lock addr s = flash_answer 40 flash_wrsr (u32 (addr <<< 8)) 0xff s

  -- `flash_write_sector_lock`
  unfoldable pub flash_write_sector_lock : ℕ → ℕ → Session → Option Session
  flash_write_sector_lock addr byte s =
      flash_command 40 flash_wrsr (bit_or (u32 (addr <<< 8)) byte) s

  -- `flash_write`
  unfoldable pub flash_write : ℕ → ℕ → Session → Option Session
  flash_write addr byte s = flash_command 40 flash_pp (bit_or (u32 (addr <<< 8)) byte) s

  -- The loop of `flash_write_buffer`, over the bytes from offset `at` on.
  unfoldable pub send_bytes : (ℕ → ℕ) → ℕ → ℕ → Session → Option Session
  send_bytes buf at zero s = some s
  send_bytes buf at (suc left) s = do
    (s, m) ← flash_ioctl 8 (buf at <<< 32) s
    send_bytes buf (at + 1) left s

  -- `flash_write_buffer`, of the bytes from offset `at` on
  unfoldable pub flash_write_buffer :
      (addr : ℕ) → (ℕ → ℕ) → (at size : ℕ) → Session → Option Session
  flash_write_buffer addr buf at size s = if size == 1 then flash_write addr (buf at) s else (do
    s ← flash_spi_cs 0 s
    (s, m) ← flash_ioctl 32 (buffer_frame flash_pp addr) s
    s ← send_bytes buf at size s
    flash_spi_cs 1 s)

  -- `litepcie_flash_read`
  unfoldable pub flash_read : ℕ → Session → Option (Session × ℕ)
  flash_read addr s = flash_answer 40 flash_read_cmd (u32 (addr <<< 8)) 0xff s

  -- The loop of `litepcie_flash_read_buffer`: the struct of the command is used again.
  unfoldable pub receive_bytes : ℕ → ℕ → Session → Option (Session × List ℕ)
  receive_bytes tx_data zero s = some (s, [])
  receive_bytes tx_data (suc left) s = do
    (s, m) ← flash_ioctl 8 tx_data s
    (s, buf) ← receive_bytes m.tx_data left s
    some (s, u8 m.rx_data ∷ buf)

  -- `litepcie_flash_read_buffer`: the bytes read
  unfoldable pub flash_read_buffer : (addr size : ℕ) → Session → Option (Session × List ℕ)
  flash_read_buffer addr size s =
      if size == 1 then (flash_read addr s >>= λ r. some (r.0, r.1 ∷ [])) else (do
        s ← flash_spi_cs 0 s
        (s, m) ← flash_ioctl 32 (buffer_frame flash_read_cmd addr) s
        (s, buf) ← receive_bytes m.tx_data size s
        s ← flash_spi_cs 1 s
        some (s, buf))

  -- `litepcie_flash_get_flash_program_size`
  unfoldable pub flash_program_size : Session → Option (Session × ℕ)
  flash_program_size s = do
    s ← flash_spi_cs 0 s
    (s, low) ← user_readl hw b cs_addr s
    s ← flash_spi_cs 1 s
    (s, high) ← user_readl hw b cs_addr s
    some (s, (if bit_and low 0x1 == 0 && bit_and high 0x1 == 1 then 256 else 1))
