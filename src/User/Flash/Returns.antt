-- ===== src/User/Flash/Returns.antt =====
-- software/user/liblitepcie/litepcie_flash.c: in a build with a flash no command aborts.
use litepcie_ptm_test.Base.{
  ℕ, zero, suc, ◌+◌, ◌^◌, ◌<◌, ◌≤◌, ◌≡◌, refl, Option, List, length, ap, [], ◌∷◌, some, arith,
  bit_or, ◌==◌, Bool-cases, inl, inr,
}
use litepcie_ptm_test.Base.Bits.{bit_or-lt}
use litepcie_ptm_test.Base.Word.{u8, u32, ◌<<<◌}
use litepcie_ptm_test.Bus.{Hw, wr}
use litepcie_ptm_test.User.{◌>>=◌}
use litepcie_ptm_test.File.Request.{FlashCsr, Build, Session}
use litepcie_ptm_test.User.Flash.{
  flash_spi_cs, user_flash_spi, flash_read, flash_write, flash_read_cmd, flash_pp, flash_wren,
  flash_wrdi, flash_se, flash_rdsr, flash_read_id, flash_write_enable, flash_write_disable,
  flash_read_status, flash_erase_sector, flash_write_buffer, flash_read_buffer, send_bytes,
  receive_bytes, buffer_frame,
}
use litepcie_ptm_test.User.Flash.Frames.{
  flash_ioctl-Exchanged, flash_spi_cs_lem, user_flash_spi_lem, answer_of,
}

-- A call that returns, with a value or without.
abbrev pub Gives {ℓ} : {A : Type ℓ} → Option (Session × A) → Type ℓ
Gives {A = A} m = (s : Session) × (a : A) × (m ≡ some (s, a))

-- A call that returns that many bytes.
abbrev pub Reads : ℕ → Option (Session × List ℕ) → Type 0
Reads size m = (s : Session) × (buf : List ℕ) × (m ≡ some (s, buf)) × (length buf ≡ size)

abbrev pub Goes : Option Session → Type 0
Goes m = (s : Session) × (m ≡ some s)

Goes-after : (m : Option (Session × ℕ)) → Gives m → Goes (m >>= λ r. some r.0)
Goes-after m (s, a, e) = (s, rw e refl)

Gives-with {ℓ} :
    {A : Type ℓ} (m : Option (Session × ℕ)) (f : ℕ → A)
    → Gives m
    → Gives (m >>= λ r. some (r.0, f r.1))
Gives-with m f (s, a, e) = (s, f a, rw e refl)

-- What one exchange can send.
abbrev Sendable : (tx_len cmd tx_data : ℕ) → Type 0
Sendable tx_len cmd tx_data = (8 ≤ tx_len) × (tx_len ≤ 40) × (cmd < 2 ^ 8) × (tx_data < 2 ^ 32)

module _ (hw : Hw) (b : Build) (cs_addr : ℕ) (csr : FlashCsr)
    (has_flash : b.flash_csr ≡ some csr) where
  spi-Gives :
      (tx_len cmd tx_data : ℕ) (s : Session)
      → Sendable tx_len cmd tx_data
      → Gives (user_flash_spi hw b cs_addr tx_len cmd tx_data s)
  spi-Gives tx_len cmd tx_data s fits =
      let (x, e) =
        user_flash_spi_lem hw b cs_addr csr has_flash tx_len cmd tx_data s fits.0 fits.1 fits.2
          fits.3 in
      (_, _, e)

  pub flash_read_id-Gives : (reg : ℕ) (s : Session) → Gives (flash_read_id hw b cs_addr reg s)
  unfolding flash_read_id
  flash_read_id-Gives reg s = Gives-with _ _ (spi-Gives 32 (u8 reg) 0 s (omega arith))

  pub flash_read_status-Gives : (s : Session) → Gives (flash_read_status hw b cs_addr s)
  unfolding flash_read_status
  flash_read_status-Gives s = Gives-with _ _ (spi-Gives 16 flash_rdsr 0 s (omega arith))

  pub flash_write_enable-Goes : (s : Session) → Goes (flash_write_enable hw b cs_addr s)
  unfolding flash_write_enable
  flash_write_enable-Goes s = Goes-after _ (spi-Gives 8 flash_wren 0 s (omega arith))

  pub flash_write_disable-Goes : (s : Session) → Goes (flash_write_disable hw b cs_addr s)
  unfolding flash_write_disable
  flash_write_disable-Goes s = Goes-after _ (spi-Gives 8 flash_wrdi 0 s (omega arith))

  pub flash_erase_sector-Goes :
      (addr : ℕ) (s : Session) → Goes (flash_erase_sector hw b cs_addr addr s)
  unfolding flash_erase_sector
  flash_erase_sector-Goes addr s =
      Goes-after _ (spi-Gives 32 flash_se (u32 (addr <<< 8)) s (omega arith))

  flash_write-Goes :
      (addr byte : ℕ) (s : Session) → byte < 2 ^ 8 → Goes (flash_write hw b cs_addr addr byte s)
  unfolding flash_write
  flash_write-Goes addr byte s small =
      let word = bit_or-lt 32 (u32 (addr <<< 8)) byte (omega arith) (omega arith) in
      Goes-after _ (spi-Gives 40 flash_pp (bit_or (u32 (addr <<< 8)) byte) s (omega (arith, word)))

  pub flash_read-Gives : (addr : ℕ) (s : Session) → Gives (flash_read hw b cs_addr addr s)
  unfolding flash_read
  flash_read-Gives addr s =
      Gives-with _ _ (spi-Gives 40 flash_read_cmd (u32 (addr <<< 8)) s (omega arith))

  send_bytes-Goes :
      (buf : ℕ → ℕ) (at left : ℕ) (s : Session)
      → ((k : ℕ) → buf k < 2 ^ 8)
      → Goes (send_bytes hw b cs_addr buf at left s)
  unfolding send_bytes
  send_bytes-Goes buf at zero s small = (s, refl)
  send_bytes-Goes buf at (suc left) s small =
      let (x, e) =
        flash_ioctl-Exchanged hw b cs_addr csr has_flash 8 (buf at <<< 32) s (omega arith)
          (omega arith) (omega (arith, small at)) in
      let (s', e') = send_bytes-Goes buf (at + 1) left (record s { trace = x.after }) small in
      (s', rw (e, e') refl)

  receive_bytes-Reads :
      (tx_data left : ℕ) (s : Session)
      → tx_data < 2 ^ 64
      → Reads left (receive_bytes hw b cs_addr tx_data left s)
  unfolding receive_bytes
  receive_bytes-Reads tx_data zero s fits = (s, [], refl, refl)
  receive_bytes-Reads tx_data (suc left) s fits =
      let (x, e) =
        flash_ioctl-Exchanged hw b cs_addr csr has_flash 8 tx_data s (omega arith) (omega arith)
          fits in
      let (s', buf, e', all) =
        receive_bytes-Reads tx_data left (record s { trace = x.after }) fits in
      (s', u8 (answer_of x) ∷ buf, rw (e, e') refl, ap suc all)

  frame_fits : (cmd addr : ℕ) → cmd < 2 ^ 8 → addr < 2 ^ 32 → buffer_frame cmd addr < 2 ^ 64
  frame_fits cmd addr byte word = bit_or-lt 64 (cmd <<< 32) (addr <<< 8) (omega arith) (omega arith)

  pub flash_write_buffer-Goes :
      (addr : ℕ) (buf : ℕ → ℕ) (at size : ℕ) (s : Session)
      → addr < 2 ^ 32
      → ((k : ℕ) → buf k < 2 ^ 8)
      → Goes (flash_write_buffer hw b cs_addr addr buf at size s)
  unfolding flash_write_buffer
  flash_write_buffer-Goes addr buf at size s word small = elim (Bool-cases (size == 1)) [
    | inl one ↦ rw one (flash_write-Goes addr (buf at) s (small at))
    | inr many ↦
        let (s0, e0) : Goes (flash_spi_cs hw b cs_addr 0 s) =
          (_, flash_spi_cs_lem hw b cs_addr csr has_flash 0 s) in
        let (x, e1) =
          flash_ioctl-Exchanged hw b cs_addr csr has_flash 32 (buffer_frame flash_pp addr) s0
            (omega arith) (omega arith) (frame_fits flash_pp addr (omega arith) word) in
        let (s2, e2) = send_bytes-Goes buf at size (record s0 { trace = x.after }) small in
        (
          record s2 { trace = wr cs_addr 1 ∷ s2.trace },
          rw (many, e0, e1, e2, flash_spi_cs_lem hw b cs_addr csr has_flash 1 s2) refl,
        )
  ]

  pub flash_read_buffer-Reads :
      (addr size : ℕ) (s : Session)
      → addr < 2 ^ 32
      → Reads size (flash_read_buffer hw b cs_addr addr size s)
  unfolding flash_read_buffer
  flash_read_buffer-Reads addr size s word = elim (Bool-cases (size == 1)) [
    | inl one ↦
        let (s', r, e) = flash_read-Gives addr s in
        (s', r ∷ [], rw (one, e) refl, ground (arith, one))
    | inr many ↦
        let (s0, e0) : Goes (flash_spi_cs hw b cs_addr 0 s) =
          (_, flash_spi_cs_lem hw b cs_addr csr has_flash 0 s) in
        let fits = frame_fits flash_read_cmd addr (omega arith) word in
        let (x, e1) =
          flash_ioctl-Exchanged hw b cs_addr csr has_flash 32 (buffer_frame flash_read_cmd addr) s0
            (omega arith) (omega arith) fits in
        let (s2, buf, e2, all) =
          receive_bytes-Reads (buffer_frame flash_read_cmd addr) size
            (record s0 { trace = x.after }) fits in
        (
          record s2 { trace = wr cs_addr 1 ∷ s2.trace },
          buf,
          rw (many, e0, e1, e2, flash_spi_cs_lem hw b cs_addr csr has_flash 1 s2) refl,
          all,
        )
  ]
