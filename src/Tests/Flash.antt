-- ===== src/Tests/Flash.antt =====
-- The flash library at concrete inputs.
use litepcie_ptm_test.Base.{
  ℕ, true, ◌+◌, ◌*◌, ◌%◌, ◌^◌, ◌≡◌, refl, some, none, arith, if◌then◌else◌, ◌==◌, ◌∷◌,
}
use litepcie_ptm_test.Bus.{Hw, wr}
use litepcie_ptm_test.File.Request.{Session, Build, FlashCsr}
use litepcie_ptm_test.File.Ioctl.{ioctl, ioctl_flash, ioctl_reg, flash_spi, spi_wait}
use litepcie_ptm_test.User.{checked_ioctl}
use litepcie_ptm_test.User.Registers.{user_writel}
use litepcie_ptm_test.User.Flash.{
  flash_read, flash_write_buffer, flash_spi_cs, flash_ioctl, user_flash_spi, flash_read_status,
  flash_read_cmd, flash_pp, flash_write_enable, flash_write_disable, flash_write, flash_read_buffer,
}
use litepcie_ptm_test.User.Flash.Frames.{Exchanged, answer_of, flash_read_lem}
use litepcie_ptm_test.User.Flash.Buffers.{Writes, flash_write_buffer_lem, flash_write_buffer-spills}
use litepcie_ptm_test.User.Flash.Program.{ok, wait_ready, page_loop, try_page}
use litepcie_ptm_test.User.Flash.Program.Pages.{Settles, Ends, page_loop-Ends}
use litepcie_ptm_test.Util.FlashTool
use litepcie_ptm_test.Util.FlashTool.{SourceFile, complains}
use litepcie_ptm_test.Tests.Data.{idle_session}

abbrev csr : FlashCsr
csr = record {
  spi_mosi_addr = 0x10;
  spi_control_addr = 0x18;
  spi_status_addr = 0x1c;
  spi_miso_addr = 0x20;
}

abbrev with_flash : Build
with_flash = record { flash_csr = some csr; icap_csr = none }

-- A master that is done at once, on a flash that answers with zeros.
abbrev blank : Hw
blank t addr = if addr == 0x1c then 1 else 0

-- Bytes of zeros.
abbrev zeros_to_write : ℕ → ℕ
zeros_to_write k = 0

blank_Settles : Settles blank with_flash 0x8 1 0 zeros_to_write
unfolding wait_ready flash_read_status user_flash_spi flash_spi_cs flash_ioctl user_writel
    checked_ioctl ioctl ioctl_flash ioctl_reg flash_spi spi_wait
blank_Settles s = (_, refl)

flash_read_lem_example :
    (x : Exchanged csr 40
      (flash_read_cmd * 2 ^ 32 + 0x1234 * 2 ^ 8)
      (wr 0x8 0 ∷ idle_session.trace))
    × (flash_read blank with_flash 0x8 0x1234 idle_session
        ≡ some (record idle_session { trace = wr 0x8 1 ∷ x.after }, answer_of x % 2 ^ 8))
flash_read_lem_example =
    flash_read_lem blank with_flash 0x8 csr refl 0x1234 idle_session (omega arith)

flash_write_buffer_lem_example :
    Writes blank with_flash 0x8 csr refl
      (flash_pp * 2 ^ 32 + 0x1200 * 2 ^ 8)
      zeros_to_write
      0
      256
      idle_session
      (flash_write_buffer blank with_flash 0x8 0x1200 zeros_to_write 0 256 idle_session)
flash_write_buffer_lem_example =
    flash_write_buffer_lem blank with_flash 0x8 csr refl 0x1200 zeros_to_write 0 256 idle_session
      (λ e. absurd (omega (arith, e))) (omega arith) (λ k. omega arith)

flash_write_buffer-spills_example :
    Writes blank with_flash 0x8 csr refl
      (flash_read_cmd * 2 ^ 32 + 0x100 * 2 ^ 8)
      zeros_to_write
      0
      256
      idle_session
      (flash_write_buffer blank with_flash 0x8 0x1000100 zeros_to_write 0 256 idle_session)
flash_write_buffer-spills_example =
    flash_write_buffer-spills blank with_flash 0x8 csr refl 0x1000100 zeros_to_write 0 256
      idle_session (λ e. absurd (omega (arith, e))) (omega arith) (omega arith) (λ k. omega arith)

page_loop-Ends_example :
    Ends blank with_flash 0x8 1 0 zeros_to_write (17 * 512 + 17) 512 256 0 0 idle_session
page_loop-Ends_example =
    page_loop-Ends blank with_flash 0x8 1 0 zeros_to_write csr refl blank_Settles (λ k. omega arith)
      512 256 idle_session (omega arith) (omega arith) (omega arith)

two_pages :
    (s' : Session) × (page_loop blank with_flash 0x8
        (17 * 2 + 17)
        1
        0
        zeros_to_write
        2
        1
        0
        0
        idle_session
      ≡ ok (s', 0))
unfolding page_loop try_page wait_ready flash_read_status flash_write_enable flash_write_disable
    flash_write_buffer flash_write flash_read_buffer flash_read user_flash_spi flash_spi_cs
    flash_ioctl user_writel checked_ioctl ioctl ioctl_flash ioctl_reg flash_spi spi_wait
two_pages = (_, refl)

-- A file of 100 zeros.
abbrev zero_file : SourceFile
zero_file = record { size = 100; bytes = zeros_to_write }

-- An empty file leaves the flash alone.
empty_file :
    FlashTool.flash_write blank with_flash 0x8
      (some idle_session)
      true
      true
      true
      1
      1
      (some (record { size = 0; bytes = zeros_to_write }))
      0
    ≡ ok complains
unfolding FlashTool.flash_write
empty_file = refl
