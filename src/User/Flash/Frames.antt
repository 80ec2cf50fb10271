-- ===== src/User/Flash/Frames.antt =====
-- software/user/liblitepcie/litepcie_flash.c: the words that the commands send.
use litepcie_ptm_test.Base.{
  ℕ, true, ◌+◌, ◌*◌, ◌%◌, ◌^◌, ◌<◌, ◌≤◌, ◌≡◌, refl, ◌∷◌, some, arith, bit_or, bit_and, ◌∙◌,
}
use litepcie_ptm_test.Base.Bits.{bit_and_low}
use litepcie_ptm_test.Base.Word.{u32, ◌<<<◌}
use litepcie_ptm_test.Base.Halves.{join}
use litepcie_ptm_test.Bus.{Trace, Hw, wr}
use litepcie_ptm_test.File.Request.{FlashArgs, FlashCsr, Build, Session, Request, Reply, give_back}
use litepcie_ptm_test.File.Ioctl.{ioctl, ioctl_flash, ioctl_reg}
use litepcie_ptm_test.File.Ioctl.Spi.{Exchange, flash_spi_exchanges}
use litepcie_ptm_test.User.{checked_ioctl}
use litepcie_ptm_test.User.Registers.{user_writel}
use litepcie_ptm_test.User.Flash.{
  flash_ioctl, flash_spi_cs, user_flash_spi, flash_read, flash_read_cmd,
}

abbrev pub spi_args : ℕ → ℕ → FlashArgs
spi_args tx_len tx_data = record { tx_len = tx_len; tx_data = tx_data; rx_data = 0 }

-- One exchange of the flash ioctl, between two traces, with what it answers.
pub record Exchanged (csr : FlashCsr) (tx_len tx_data : ℕ) (before : Trace) : Type 0 where
  pub after : Trace
  pub exchange : Exchange csr (spi_args tx_len tx_data) before after

-- What the library takes from it.
abbrev pub answer_of :
    {csr : FlashCsr} {tx_len tx_data : ℕ} {before : Trace} → Exchanged csr tx_len tx_data before → ℕ
answer_of x = x.exchange.high * 2 ^ 32 + x.exchange.low

module _ (hw : Hw) (b : Build) (cs_addr : ℕ) (csr : FlashCsr)
    (has_flash : b.flash_csr ≡ some csr) where
  ioctl-ioctl_flash :
      (m : FlashArgs) (s : Session)
      → ioctl hw b true (Request.flash (some m)) s ≡ ioctl_flash hw true csr m s
  unfolding ioctl
  ioctl-ioctl_flash m s = rw (ioctl, has_flash) refl

  ioctl_flash-Exchanged :
      (tx_len tx_data : ℕ) (s : Session)
      → 8 ≤ tx_len
      → tx_len ≤ 40
      → tx_data < 2 ^ 64
      → (x : Exchanged csr tx_len tx_data s.trace) × (ioctl_flash hw true csr
            (spi_args tx_len tx_data)
            s
          ≡ give_back true
              (Reply.flash (record (spi_args tx_len tx_data) { rx_data = answer_of x }))
              (record s { trace = x.after }))
  unfolding ioctl_flash
  ioctl_flash-Exchanged tx_len tx_data s short long fits =
      let (x, ok, m) =
        flash_spi_exchanges hw csr (spi_args tx_len tx_data) s.trace short long fits in
      (record { after = _; exchange = x }, rw (ioctl_flash, ok, m) refl)

  pub flash_ioctl-Exchanged :
      (tx_len tx_data : ℕ) (s : Session)
      → 8 ≤ tx_len
      → tx_len ≤ 40
      → tx_data < 2 ^ 64
      → (x : Exchanged csr tx_len tx_data s.trace) × (flash_ioctl hw b cs_addr tx_len tx_data s
          ≡ some (
            record s { trace = x.after },
            record (spi_args tx_len tx_data) { rx_data = answer_of x },
          ))
  unfolding flash_ioctl checked_ioctl
  flash_ioctl-Exchanged tx_len tx_data s short long fits =
      let (x, e) = ioctl_flash-Exchanged tx_len tx_data s short long fits in
      let e' = ioctl-ioctl_flash (spi_args tx_len tx_data) s ∙ e in
      (x, rw (flash_ioctl, checked_ioctl, e', e') refl)

  pub flash_spi_cs_lem :
      (cs_n : ℕ) (s : Session)
      → flash_spi_cs hw b cs_addr cs_n s
        ≡ some (record s { trace = wr cs_addr (u32 cs_n) ∷ s.trace })
  unfolding flash_spi_cs user_writel checked_ioctl ioctl ioctl_reg
  flash_spi_cs_lem cs_n s = refl

  -- `flash_spi` in a build with a flash, with a length from 8 to 40 bits, a command of one byte and
  -- 32 bits of data: it does not abort; it selects the chip, makes one exchange of the word whose
  -- upper byte is the command, lets the chip go, and returns what the exchange answered.
  pub user_flash_spi_lem :
      (tx_len cmd tx_data : ℕ) (s : Session)
      → 8 ≤ tx_len
      → tx_len ≤ 40
      → cmd < 2 ^ 8
      → tx_data < 2 ^ 32
      → (x : Exchanged csr tx_len (cmd * 2 ^ 32 + tx_data) (wr cs_addr 0 ∷ s.trace))
        × (user_flash_spi hw b cs_addr tx_len cmd tx_data s
            ≡ some (record s { trace = wr cs_addr 1 ∷ x.after }, answer_of x))
  unfolding user_flash_spi
  user_flash_spi_lem tx_len cmd tx_data s short long byte word =
      let s1 : Session = record s { trace = wr cs_addr 0 ∷ s.trace } in
      let (x, e) =
        flash_ioctl-Exchanged tx_len (cmd * 2 ^ 32 + tx_data) s1 short long (omega arith) in
      let frame : bit_or (cmd <<< 32) tx_data ≡ cmd * 2 ^ 32 + tx_data =
        join cmd tx_data (omega arith) word in
      (
        x,
        rw (flash_spi_cs_lem 0 s, frame, e, flash_spi_cs_lem 1 (record s1 { trace = x.after }))
            refl,
      )

  -- `litepcie_flash_read` in a build with a flash, at an address below 2 ^ 24: one exchange of 40
  -- bits, the read command, the address and a byte of zeros, with the chip selected; the result is
  -- the lowest byte of the answer.
  pub flash_read_lem :
      (addr : ℕ) (s : Session)
      → addr < 2 ^ 24
      → (x : Exchanged csr 40 (flash_read_cmd * 2 ^ 32 + addr * 2 ^ 8) (wr cs_addr 0 ∷ s.trace))
        × (flash_read hw b cs_addr addr s
            ≡ some (record s { trace = wr cs_addr 1 ∷ x.after }, answer_of x % 2 ^ 8))
  unfolding flash_read
  flash_read_lem addr s fits =
      let (x, e) =
        user_flash_spi_lem 40 flash_read_cmd (addr <<< 8) s (omega arith) (omega arith)
          (omega arith) (omega arith) in
      let word : u32 (addr <<< 8) ≡ addr <<< 8 = omega arith in
      let low : bit_and (answer_of x) 0xff ≡ answer_of x % 2 ^ 8 =
        bit_and_low 64 8 (answer_of x) (omega (arith, x.exchange.high_word, x.exchange.low_word)) in
      (x, rw (word, e, low) refl)
