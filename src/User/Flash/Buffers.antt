-- ===== src/User/Flash/Buffers.antt =====
-- software/user/liblitepcie/litepcie_flash.c: the transfers of many bytes.
use litepcie_ptm_test.Base.{
  ℕ, zero, suc, ◌+◌, ◌-◌, ◌*◌, ◌%◌, ◌^◌, ◌<◌, ◌≤◌, ◌≡◌, ◌≢◌, refl, List, [], ◌∷◌, some, arith,
  bit_or, ne→==, ◌∙◌, ap, length, subst, Option,
}
use litepcie_ptm_test.Base.Bits.{bit_or-lt, bit_or_high}
use litepcie_ptm_test.Base.Word.{◌<<<◌}
use litepcie_ptm_test.Base.Halves.{join}
use litepcie_ptm_test.Bus.{Trace, Hw, wr}
use litepcie_ptm_test.File.Request.{FlashCsr, Build, Session}
use litepcie_ptm_test.User.Flash.{
  flash_read_cmd, flash_pp, flash_write_buffer, flash_read_buffer, send_bytes, receive_bytes,
  buffer_frame,
}
use litepcie_ptm_test.User.Flash.Frames.{
  Exchanged, answer_of, flash_ioctl-Exchanged, flash_spi_cs_lem,
}

-- Exchanges of 8 bits, one for each of `n` bytes from offset `at` on, in order.
pub data BytesSent (csr : FlashCsr) (buf : ℕ → ℕ) : ℕ → ℕ → Trace → Trace → Type 0 where
  all_sent : (at : ℕ) (t : Trace) → BytesSent csr buf at 0 t t
  sends :
      (at n : ℕ) (t t' : Trace) (x : Exchanged csr 8 (buf at * 2 ^ 32) t)
      → BytesSent csr buf (at + 1) n x.after t'
      → BytesSent csr buf at (suc n) t t'

-- Exchanges of 8 bits, each with the lowest byte of its answer.
pub data BytesRead (csr : FlashCsr) (tx_data : ℕ) : List ℕ → Trace → Trace → Type 0 where
  all_read : (t : Trace) → BytesRead csr tx_data [] t t
  reads :
      (buf : List ℕ) (t t' : Trace) (x : Exchanged csr 8 tx_data t)
      → BytesRead csr tx_data buf x.after t'
      → BytesRead csr tx_data (answer_of x % 2 ^ 8 ∷ buf) t t'

buffer_frame_lem :
    (cmd addr : ℕ)
    → cmd < 2 ^ 8
    → addr < 2 ^ 24
    → buffer_frame cmd addr ≡ cmd * 2 ^ 32 + addr * 2 ^ 8
buffer_frame_lem cmd addr byte fits = join cmd (addr <<< 8) (omega arith) (omega arith)

-- Bit 24 of the address falls into the command: page program becomes read.
buffer_frame-spills :
    (addr : ℕ)
    → 2 ^ 24 ≤ addr
    → addr < 2 ^ 25
    → buffer_frame flash_pp addr ≡ flash_read_cmd * 2 ^ 32 + (addr - 2 ^ 24) * 2 ^ 8
buffer_frame-spills addr a b =
    let split : addr <<< 8 ≡ 1 * 2 ^ 32 + (addr - 2 ^ 24) * 2 ^ 8 = omega arith in
    ap (λ w. bit_or (flash_pp <<< 32) w) split
    ∙ bit_or_high 32 flash_pp 1 ((addr - 2 ^ 24) * 2 ^ 8) (omega arith)

module _ (hw : Hw) (b : Build) (cs_addr : ℕ) (csr : FlashCsr)
    (has_flash : b.flash_csr ≡ some csr) where
  send_bytes-BytesSent :
      (buf : ℕ → ℕ) (at n : ℕ) (s : Session)
      → ((k : ℕ) → buf k < 2 ^ 8)
      → (t' : Trace) × (send_bytes hw b cs_addr buf at n s ≡ some (record s { trace = t' }))
        × BytesSent csr buf at n s.trace t'
  unfolding send_bytes
  send_bytes-BytesSent buf at zero s small = (s.trace, refl, all_sent at s.trace)
  send_bytes-BytesSent buf at (suc n) s small =
      let (x, e) =
        flash_ioctl-Exchanged hw b cs_addr csr has_flash 8 (buf at * 2 ^ 32) s (omega arith)
          (omega arith) (omega (arith, small at)) in
      let (t', e', sent) =
        send_bytes-BytesSent buf (at + 1) n (record s { trace = x.after }) small in
      (t', rw (e, e') refl, sends at n s.trace t' x sent)

  receive_bytes-BytesRead :
      (tx_data n : ℕ) (s : Session)
      → tx_data < 2 ^ 64
      → (buf : List ℕ) × (t' : Trace) × (receive_bytes hw b cs_addr tx_data n s
          ≡ some (record s { trace = t' }, buf))
        × BytesRead csr tx_data buf s.trace t'
        × (length buf ≡ n)
  unfolding receive_bytes
  receive_bytes-BytesRead tx_data zero s fits = ([], s.trace, refl, all_read s.trace, refl)
  receive_bytes-BytesRead tx_data (suc n) s fits =
      let (x, e) =
        flash_ioctl-Exchanged hw b cs_addr csr has_flash 8 tx_data s (omega arith) (omega arith)
          fits in
      let (buf, t', e', read, all) =
        receive_bytes-BytesRead tx_data n (record s { trace = x.after }) fits in
      (answer_of x % 2 ^ 8 ∷ buf, t', rw (e, e') refl, reads buf s.trace t' x read, ap suc all)

  frame_fits : (cmd addr : ℕ) → cmd < 2 ^ 8 → addr < 2 ^ 32 → buffer_frame cmd addr < 2 ^ 64
  frame_fits cmd addr byte word = bit_or-lt 64 (cmd <<< 32) (addr <<< 8) (omega arith) (omega arith)

  -- With the chip selected throughout: an exchange of 32 bits, and then every byte of the buffer
  -- once, in order.
  abbrev pub Writes : (frame : ℕ) → (ℕ → ℕ) → (at size : ℕ) → Session → Option Session → Type 0
  Writes frame buf at size s result =
      (x : Exchanged csr 32 frame (wr cs_addr 0 ∷ s.trace)) × (t' : Trace) × BytesSent csr buf at
        size x.after t'
      × (result ≡ some (record s { trace = wr cs_addr 1 ∷ t' }))

  flash_write_buffer-Writes :
      (addr : ℕ) (buf : ℕ → ℕ) (at size : ℕ) (s : Session)
      → size ≢ 1
      → addr < 2 ^ 32
      → ((k : ℕ) → buf k < 2 ^ 8)
      → Writes
          (buffer_frame flash_pp addr)
          buf
          at
          size
          s
          (flash_write_buffer hw b cs_addr addr buf at size s)
  unfolding flash_write_buffer
  flash_write_buffer-Writes addr buf at size s many word small =
      let s0 : Session = record s { trace = wr cs_addr 0 ∷ s.trace } in
      let (x, e) =
        flash_ioctl-Exchanged hw b cs_addr csr has_flash 32 (buffer_frame flash_pp addr) s0
          (omega arith) (omega arith) (frame_fits flash_pp addr (omega arith) word) in
      let (t', e', sent) = send_bytes-BytesSent buf at size (record s0 { trace = x.after }) small in
      let cs_on = flash_spi_cs_lem hw b cs_addr csr has_flash 0 s in
      let cs_off = flash_spi_cs_lem hw b cs_addr csr has_flash 1 (record s0 { trace = t' }) in
      (x, t', sent, rw (ne→== size 1 many, cs_on, e, e', cs_off) refl)

  -- `flash_write_buffer` of other than one byte in a build with a flash, at an address below
  -- 2 ^ 24: with the chip selected throughout, it sends the page program command with the address
  -- and then every byte of the buffer once, in order.
  pub flash_write_buffer_lem :
      (addr : ℕ) (buf : ℕ → ℕ) (at size : ℕ) (s : Session)
      → size ≢ 1
      → addr < 2 ^ 24
      → ((k : ℕ) → buf k < 2 ^ 8)
      → Writes
          (flash_pp * 2 ^ 32 + addr * 2 ^ 8)
          buf
          at
          size
          s
          (flash_write_buffer hw b cs_addr addr buf at size s)
  flash_write_buffer_lem addr buf at size s many fits small =
      subst
        (λ frame. Writes frame buf at size s (flash_write_buffer hw b cs_addr addr buf at size s))
        (buffer_frame_lem flash_pp addr (omega arith) fits)
        (flash_write_buffer-Writes addr buf at size s many (omega arith) small)

  -- `flash_write_buffer` of other than one byte in a build with a flash, at an address from 2 ^ 24
  -- to below 2 ^ 25: bit 24 of the address is added to the command, and what is sent before the
  -- bytes is the read command with the lower 24 bits of the address.
  pub flash_write_buffer-spills :
      (addr : ℕ) (buf : ℕ → ℕ) (at size : ℕ) (s : Session)
      → size ≢ 1
      → 2 ^ 24 ≤ addr
      → addr < 2 ^ 25
      → ((k : ℕ) → buf k < 2 ^ 8)
      → Writes
          (flash_read_cmd * 2 ^ 32 + (addr - 2 ^ 24) * 2 ^ 8)
          buf
          at
          size
          s
          (flash_write_buffer hw b cs_addr addr buf at size s)
  flash_write_buffer-spills addr buf at size s many above fits small =
      subst
        (λ frame. Writes frame buf at size s (flash_write_buffer hw b cs_addr addr buf at size s))
        (buffer_frame-spills addr above fits)
        (flash_write_buffer-Writes addr buf at size s many (omega arith) small)

  -- With the chip selected throughout: an exchange of 32 bits, and then `size` exchanges of 8 bits,
  -- whose answers end in the bytes of the result.
  abbrev pub Reads : (frame size : ℕ) → Session → Option (Session × List ℕ) → Type 0
  Reads frame size s result =
      (x : Exchanged csr 32 frame (wr cs_addr 0 ∷ s.trace)) × (buf : List ℕ) × (t' : Trace)
      × BytesRead csr frame buf x.after t'
      × (length buf ≡ size)
      × (result ≡ some (record s { trace = wr cs_addr 1 ∷ t' }, buf))

  flash_read_buffer-Reads :
      (addr size : ℕ) (s : Session)
      → size ≢ 1
      → addr < 2 ^ 32
      → Reads (buffer_frame flash_read_cmd addr) size s (flash_read_buffer hw b cs_addr addr size s)
  unfolding flash_read_buffer
  flash_read_buffer-Reads addr size s many word =
      let s0 : Session = record s { trace = wr cs_addr 0 ∷ s.trace } in
      let fits = frame_fits flash_read_cmd addr (omega arith) word in
      let (x, e) =
        flash_ioctl-Exchanged hw b cs_addr csr has_flash 32 (buffer_frame flash_read_cmd addr) s0
          (omega arith) (omega arith) fits in
      let (buf, t', e', read, all) =
        receive_bytes-BytesRead (buffer_frame flash_read_cmd addr) size
          (record s0 { trace = x.after }) fits in
      let cs_on = flash_spi_cs_lem hw b cs_addr csr has_flash 0 s in
      let cs_off = flash_spi_cs_lem hw b cs_addr csr has_flash 1 (record s0 { trace = t' }) in
      (x, buf, t', read, all, rw (ne→== size 1 many, cs_on, e, e', cs_off) refl)

  -- `litepcie_flash_read_buffer` of other than one byte in a build with a flash, at an address
  -- below 2 ^ 24: with the chip selected throughout, it sends the read command with the address,
  -- and gives `size` bytes, the lowest bytes of the answers to as many exchanges of 8 bits.
  pub flash_read_buffer_lem :
      (addr size : ℕ) (s : Session)
      → size ≢ 1
      → addr < 2 ^ 24
      → Reads
          (flash_read_cmd * 2 ^ 32 + addr * 2 ^ 8)
          size
          s
          (flash_read_buffer hw b cs_addr addr size s)
  flash_read_buffer_lem addr size s many fits =
      subst (λ frame. Reads frame size s (flash_read_buffer hw b cs_addr addr size s))
        (buffer_frame_lem flash_read_cmd addr (omega arith) fits)
        (flash_read_buffer-Reads addr size s many (omega arith))
