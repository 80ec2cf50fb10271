-- ===== src/User/Cursors.antt =====
-- software/user/liblitepcie/litepcie_dma.c: the buffers that the two cursors hand out.
use litepcie_ptm_test.Base.{
  ℕ, zero, suc, false, ◌+◌, ◌-◌, ◌*◌, ◌%◌, ◌<◌, ◌≤◌, ◌≡◌, refl, Option, some, List, [], ◌∷◌, arith,
  ◌==◌,
}
use litepcie_ptm_test.Config.{dma_buffer_count, dma_buffer_size}
use litepcie_ptm_test.User.{DmaCtrl, next_read_buffer, next_write_buffer}

-- `n` calls of a cursor in a row, the first result first.
pub calls : (DmaCtrl → Option ℕ × DmaCtrl) → ℕ → DmaCtrl → List (Option ℕ) × DmaCtrl
calls next zero c = ([], c)
calls next (suc n) c =
    let (buf, c1) = next c in let (bufs, c2) = calls next n c1 in (buf ∷ bufs, c2)

-- `n` buffers of the ring from slot `at` on.
pub ring_buffers : ℕ → ℕ → List (Option ℕ)
ring_buffers at zero = []
ring_buffers at (suc n) = some (at % dma_buffer_count * dma_buffer_size) ∷ ring_buffers (at + 1) n

pub ring_buffers-mod :
    (a b n : ℕ) → a % dma_buffer_count ≡ b % dma_buffer_count → ring_buffers a n ≡ ring_buffers b n
unfolding ring_buffers
ring_buffers-mod a b zero e = refl
ring_buffers-mod a b (suc n) e =
    let next : (a + 1) % dma_buffer_count ≡ (b + 1) % dma_buffer_count = omega (arith, e) in
    rw (e, ring_buffers-mod (a + 1) (b + 1) n next)

-- As many calls of `litepcie_dma_next_read_buffer` as there are buffers, or fewer, hand out the
-- buffers of the ring in order from the offset on, past the end of the ring from its start; the
-- cursor then stands behind the last one.
pub calls-next_read_buffer :
    (n : ℕ) (c : DmaCtrl)
    → n ≤ c.buffers_available_read
    → c.usr_read_buf_offset < dma_buffer_count
    → calls next_read_buffer n c ≡ (
      ring_buffers c.usr_read_buf_offset n,
      record c {
        buffers_available_read = c.buffers_available_read - n;
        usr_read_buf_offset = (c.usr_read_buf_offset + n) % dma_buffer_count;
      },
    )
unfolding calls next_read_buffer ring_buffers
calls-next_read_buffer zero c h low =
    let a : c.buffers_available_read - 0 ≡ c.buffers_available_read = omega arith in
    let b : (c.usr_read_buf_offset + 0) % dma_buffer_count ≡ c.usr_read_buf_offset = omega arith in
    rw (a, b)
calls-next_read_buffer (suc n) c h low =
    let off = c.usr_read_buf_offset in
    let more : (c.buffers_available_read == 0) ≡ false = ground arith in
    let c1 : DmaCtrl = record c {
      buffers_available_read = c.buffers_available_read - 1;
      usr_read_buf_offset = (off + 1) % dma_buffer_count;
    } in
    let rest = calls-next_read_buffer n c1 (omega arith) (omega arith) in
    let here : off % dma_buffer_count ≡ off = omega arith in
    let wrap : (off + 1) % dma_buffer_count % dma_buffer_count ≡ (off + 1) % dma_buffer_count =
      omega arith in
    let left : c.buffers_available_read - 1 - n ≡ c.buffers_available_read - suc n = omega arith in
    let place : ((off + 1) % dma_buffer_count + n) % dma_buffer_count
        ≡ (off + suc n) % dma_buffer_count =
      omega arith in
    rw (
      more,
      rest,
      here,
      ring_buffers-mod ((off + 1) % dma_buffer_count) (off + 1) n wrap,
      left,
      place,
    )

-- The same for `litepcie_dma_next_write_buffer`.
pub calls-next_write_buffer :
    (n : ℕ) (c : DmaCtrl)
    → n ≤ c.buffers_available_write
    → c.usr_write_buf_offset < dma_buffer_count
    → calls next_write_buffer n c ≡ (
      ring_buffers c.usr_write_buf_offset n,
      record c {
        buffers_available_write = c.buffers_available_write - n;
        usr_write_buf_offset = (c.usr_write_buf_offset + n) % dma_buffer_count;
      },
    )
unfolding calls next_write_buffer ring_buffers
calls-next_write_buffer zero c h low =
    let a : c.buffers_available_write - 0 ≡ c.buffers_available_write = omega arith in
    let b : (c.usr_write_buf_offset + 0) % dma_buffer_count ≡ c.usr_write_buf_offset =
      omega arith in
    rw (a, b)
calls-next_write_buffer (suc n) c h low =
    let off = c.usr_write_buf_offset in
    let more : (c.buffers_available_write == 0) ≡ false = ground arith in
    let c1 : DmaCtrl = record c {
      buffers_available_write = c.buffers_available_write - 1;
      usr_write_buf_offset = (off + 1) % dma_buffer_count;
    } in
    let rest = calls-next_write_buffer n c1 (omega arith) (omega arith) in
    let here : off % dma_buffer_count ≡ off = omega arith in
    let wrap : (off + 1) % dma_buffer_count % dma_buffer_count ≡ (off + 1) % dma_buffer_count =
      omega arith in
    let left : c.buffers_available_write - 1 - n ≡ c.buffers_available_write - suc n =
      omega arith in
    let place : ((off + 1) % dma_buffer_count + n) % dma_buffer_count
        ≡ (off + suc n) % dma_buffer_count =
      omega arith in
    rw (
      more,
      rest,
      here,
      ring_buffers-mod ((off + 1) % dma_buffer_count) (off + 1) n wrap,
      left,
      place,
    )
