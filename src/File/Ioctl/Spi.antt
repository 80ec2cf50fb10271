-- ===== src/File/Ioctl/Spi.antt =====
-- LITEPCIE_IOCTL_FLASH: the exchange of one SPI word.
use litepcie_ptm_test.Base.{
  ℕ, zero, suc, Bool, true, false, ◌≡◌, refl, ap, ◌+◌, ◌*◌, ◌^◌, ◌<◌, ◌≤◌, ◌/◌, ◌∷◌, ◌⊎◌, inl, inr,
  arith, ◌||◌, Bool-cases, bit_and, bit_or, ◌%◌,
}
use litepcie_ptm_test.Base.Bits.{bit_or_sum}
use litepcie_ptm_test.Base.Word.{u32, slt32, ◌>>>◌}
use litepcie_ptm_test.Config.{spi_ctrl_start, spi_ctrl_length, spi_status_done}
use litepcie_ptm_test.Bus.{Trace, Hw, rd, wr, readl}
use litepcie_ptm_test.File.{Ret, Errno}
use litepcie_ptm_test.File.Request.{FlashArgs, FlashCsr, nonzero}
use litepcie_ptm_test.File.Ioctl.{spi_timeout, spi_wait, flash_spi}

abbrev pub is_done : ℕ → Bool
is_done v = nonzero (bit_and v spi_status_done)

-- Reads of a status register from one trace to another, `left` at most: they end with the first
-- word that has the done bit, or when no read is left.
pub data Waits (addr : ℕ) : ℕ → Trace → Trace → Type 0 where
  gave_up : (t : Trace) → Waits addr 0 t t
  seen : (left v : ℕ) (t : Trace) → is_done v ≡ true → Waits addr (suc left) t (rd addr v ∷ t)
  busy :
      (left v : ℕ) (t t' : Trace)
      → is_done v ≡ false
      → Waits addr left (rd addr v ∷ t) t'
      → Waits addr (suc left) t t'

-- The accesses of one exchange: the word to send in two halves, the length with the start bit,
-- the wait, and the answer in two halves.
pub record Exchange (csr : FlashCsr) (m : FlashArgs) (before after : Trace) : Type 0 where
  pub asked : Trace
  pub waited : Trace
  pub high : ℕ
  pub low : ℕ
  pub high_word : high < 2 ^ 32
  pub low_word : low < 2 ^ 32
  pub sends :
      asked
      ≡ wr csr.spi_control_addr (u32 (bit_or spi_ctrl_start (m.tx_len * spi_ctrl_length)))
        ∷ wr (csr.spi_mosi_addr + 4) (m.tx_data % 2 ^ 32)
        ∷ wr csr.spi_mosi_addr (m.tx_data / 2 ^ 32)
        ∷ before
  pub waits : Waits csr.spi_status_addr spi_timeout asked waited
  pub reads : after ≡ rd (csr.spi_miso_addr + 4) low ∷ rd csr.spi_miso_addr high ∷ waited

module _ (hw : Hw) where
  spi_wait-Waits : (addr left : ℕ) (t : Trace) → Waits addr left t (spi_wait hw addr left t)
  unfolding spi_wait
  spi_wait-Waits addr zero t = gave_up t
  spi_wait-Waits addr (suc left) t = elim (Bool-cases (is_done (readl hw addr t).0)) [
    | inl e ↦ rw e (seen left _ t e)
    | inr e ↦ rw e (busy left _ t _ e (spi_wait-Waits addr left _))
  ]

  u32-bound : (n : ℕ) → u32 n < 2 ^ 32
  u32-bound n = omega arith

  high_half : (n : ℕ) → n < 2 ^ 64 → u32 (n >>> 32) ≡ n / 2 ^ 32
  high_half n w = omega arith

  in_range : (n : ℕ) → 8 ≤ n → n ≤ 40 → slt32 n 8 || slt32 40 n ≡ false
  in_range n a b = ground arith

  out_of_range : (n : ℕ) → n < 2 ^ 32 → (n < 8) ⊎ (40 < n) → slt32 n 8 || slt32 40 n ≡ true
  out_of_range n w h = ground arith

  -- `litepcie_flash_spi` with a length below 8 or above 40, as an unsigned word: the result is
  -- EINVAL, the struct is unchanged and no register is touched.
  pub flash_spi_rejects :
      (csr : FlashCsr) (m : FlashArgs) (t : Trace)
      → m.tx_len < 2 ^ 32
      → (m.tx_len < 8) ⊎ (40 < m.tx_len)
      → flash_spi hw csr m t ≡ (Ret.fail Errno.einval, m, t)
  unfolding flash_spi
  flash_spi_rejects csr m t w h = rw (out_of_range m.tx_len w h) refl

  -- `litepcie_flash_spi` with a length from 8 to 40 and a 64-bit word succeeds after one exchange:
  -- the two halves of the word are written, then the length with the start bit, the status is read
  -- until it has the done bit, at most 100000 times, and `rx_data` is the two words then read, the
  -- first of them the high one.
  pub flash_spi_exchanges :
      (csr : FlashCsr) (m : FlashArgs) (t : Trace)
      → 8 ≤ m.tx_len
      → m.tx_len ≤ 40
      → m.tx_data < 2 ^ 64
      → let (ret, m', t') = flash_spi hw csr m t in
        (x : Exchange csr m t t') × (ret ≡ Ret.done 0)
        × (m' ≡ record m { rx_data = x.high * 2 ^ 32 + x.low })
  unfolding flash_spi
  flash_spi_exchanges csr m t a b w = rw (in_range m.tx_len a b) (
      let x : Exchange csr m t _ = record {
        asked = _;
        waited = _;
        high = _;
        low = _;
        high_word = u32-bound _;
        low_word = u32-bound _;
        sends = rw (high_half m.tx_data w) refl;
        waits = spi_wait-Waits csr.spi_status_addr spi_timeout _;
        reads = refl;
      } in
      (
        x,
        refl,
        ap (λ r. record m { rx_data = r }) (bit_or_sum 32 32 x.high x.low x.high_word x.low_word),
      ))
