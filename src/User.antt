-- ===== src/User.antt =====
-- software/user/liblitepcie/litepcie_dma.c: the user library's loop over the DMA buffers, on the
-- driver's ioctls. A call of the library that ends the program, by checked_ioctl or abort, is `none`.
pub mod Cursors
pub mod Process
pub mod Produce
pub mod Claim
pub mod Setup
pub mod Lifetime
pub mod Uses
pub mod Registers
pub mod Flash
use litepcie_ptm_test.Base.{
  ℕ, zero, suc, Bool, true, false, ◌+◌, ◌-◌, ◌*◌, ◌/◌, ◌%◌, ◌^◌, Option, none, some, ◌==◌, ltb,
  if◌then◌else◌, bit_and,
}
use litepcie_ptm_test.Base.Word.{u32, add64, sub64}
use litepcie_ptm_test.Config.{dma_buffer_count, dma_buffer_size}
use litepcie_ptm_test.Bus.{Hw}
use litepcie_ptm_test.File.{Ret, done, fail, pollin, pollout}
use litepcie_ptm_test.File.Request.{EngineArgs, LockArgs, Request, Reply, Build, Session, nonzero}
use litepcie_ptm_test.File.Ioctl.{ioctl}

infixl 5 ◌>>=◌
abbrev pub ◌>>=◌ {ℓ κ} : {A : Type ℓ} {B : Type κ} → Option A → (A → Option B) → Option B
none >>= f = none
some a >>= f = f a

-- The fields of `struct litepcie_dma_ctrl` that the loop uses; the two areas of memory are named by
-- offsets into them.
pub record DmaCtrl : Type 0 where
  pub use_reader : ℕ
  pub use_writer : ℕ
  pub loopback : ℕ
  pub zero_copy : ℕ
  pub events : ℕ
  pub reader_hw_count : ℕ
  pub reader_sw_count : ℕ
  pub writer_hw_count : ℕ
  pub writer_sw_count : ℕ
  pub buffers_available_read : ℕ
  pub buffers_available_write : ℕ
  pub usr_read_buf_offset : ℕ
  pub usr_write_buf_offset : ℕ

-- `litepcie_dma_next_read_buffer`: the offset of the buffer in `buf_rd`, `none` for NULL.
unfoldable pub next_read_buffer : DmaCtrl → Option ℕ × DmaCtrl
next_read_buffer c = if c.buffers_available_read == 0 then (none, c) else (
  some (c.usr_read_buf_offset * dma_buffer_size),
  record c {
    buffers_available_read = c.buffers_available_read - 1;
    usr_read_buf_offset = (c.usr_read_buf_offset + 1) % dma_buffer_count;
  },
)

-- `litepcie_dma_next_write_buffer`
unfoldable pub next_write_buffer : DmaCtrl → Option ℕ × DmaCtrl
next_write_buffer c = if c.buffers_available_write == 0 then (none, c) else (
  some (c.usr_write_buf_offset * dma_buffer_size),
  record c {
    buffers_available_write = c.buffers_available_write - 1;
    usr_write_buf_offset = (c.usr_write_buf_offset + 1) % dma_buffer_count;
  },
)

-- `sw_count % DMA_BUFFER_COUNT` on int64_t, stored in an unsigned.
abbrev pub buf_offset : ℕ → ℕ
buf_offset sw_count =
    if ltb sw_count (2 ^ 63)
    then sw_count % dma_buffer_count
    else u32 (2 ^ 32 - (2 ^ 64 - sw_count) % dma_buffer_count)

-- How poll(2) returns: after the timeout, or with the events; the code treats an error as the
-- latter, since it compares the function `poll`, not its result, with 0.
pub data Polled : Type 0 where
  timeout : Polled
  events : ℕ → Polled

-- The counts in the answer of an engine ioctl.
abbrev pub counts : Option Reply → Option (ℕ × ℕ)
counts (some (Reply.engine m)) = some (m.hw_count, m.sw_count)
counts other = none

-- The reader's status in the answer of the lock ioctl.
abbrev pub status_of_reader : Option Reply → Option ℕ
status_of_reader (some (Reply.lock m)) = some m.dma_reader_status
status_of_reader other = none

module _ (hw : Hw) (b : Build) where
  -- `checked_ioctl`, on an argument that the kernel can copy.
  unfoldable pub checked_ioctl : Request → Session → Option (Session × Option Reply)
  checked_ioctl req s =
      let a = ioctl hw b true req s in
      elim (a.ret) [ done n ↦ some (a.sess, a.reply) | fail e ↦ none ]

  -- `litepcie_dma_writer`, with the counts
  unfoldable pub dma_writer : ℕ → Session → Option (Session × (ℕ × ℕ))
  dma_writer enable s = do
    (s', reply) ←
        checked_ioctl
          (Request.dma_writer (some (record { enable = enable; hw_count = 0; sw_count = 0 }))) s
    n ← counts reply
    some (s', n)

  -- `litepcie_dma_reader`, with the counts
  unfoldable pub dma_reader : ℕ → Session → Option (Session × (ℕ × ℕ))
  dma_reader enable s = do
    (s', reply) ←
        checked_ioctl
          (Request.dma_reader (some (record { enable = enable; hw_count = 0; sw_count = 0 }))) s
    n ← counts reply
    some (s', n)

  -- `litepcie_request_dma`: the result is the status of the reader.
  unfoldable pub request_dma : (reader writer : ℕ) → Session → Option (Session × ℕ)
  request_dma reader writer s = do
    (s', reply) ←
        checked_ioctl
          (Request.lock (
            some (record {
              dma_reader_request = if reader == 0 then 0 else 1;
              dma_writer_request = if writer == 0 then 0 else 1;
              dma_reader_release = 0;
              dma_writer_release = 0;
              dma_reader_status = 0;
              dma_writer_status = 0;
            })))
          s
    status ← status_of_reader reply
    some (s', status)

  -- `litepcie_release_dma`
  unfoldable pub release_dma : (reader writer : ℕ) → Session → Option Session
  release_dma reader writer s = do
    (s', reply) ←
        checked_ioctl
          (Request.lock (
            some (record {
              dma_reader_request = 0;
              dma_writer_request = 0;
              dma_reader_release = if reader == 0 then 0 else 1;
              dma_writer_release = if writer == 0 then 0 else 1;
              dma_reader_status = 0;
              dma_writer_status = 0;
            })))
          s
    some s'

  -- The calls of the driver in `litepcie_dma_cleanup`, before the memory and the file are given up.
  unfoldable pub cleanup : DmaCtrl → Session → Option Session
  cleanup c s = do
    s ← if nonzero c.use_reader then (dma_reader 0 s >>= λ r. some r.0) else some s
    s ← if nonzero c.use_writer then (dma_writer 0 s >>= λ r. some r.0) else some s
    release_dma c.use_reader c.use_writer s

  -- The first call of `litepcie_dma_process`, if the program uses the writer.
  unfoldable pub poll_writer : DmaCtrl → Session → Option (DmaCtrl × Session)
  poll_writer c s =
      if nonzero c.use_writer
      then (dma_writer 1 s >>= λ r.
          some (record c { writer_hw_count = r.1.0; writer_sw_count = r.1.1 }, r.0))
      else some (c, s)

  -- The second call, if it uses the reader.
  unfoldable pub poll_reader : DmaCtrl → Session → Option (DmaCtrl × Session)
  poll_reader c s =
      if nonzero c.use_reader
      then (dma_reader 1 s >>= λ r.
          some (record c { reader_hw_count = r.1.0; reader_sw_count = r.1.1 }, r.0))
      else some (c, s)

  -- The read event. Where the library copies, `len` is the result of read(2), `none` for an error.
  unfoldable pub read_event : Option ℕ → DmaCtrl → Session → Option (DmaCtrl × Session)
  read_event len c s =
      if nonzero c.zero_copy
      then (let available = u32 (sub64 c.writer_hw_count c.writer_sw_count) in
          let c' = record c {
            buffers_available_read = available;
            usr_read_buf_offset = buf_offset c.writer_sw_count;
          } in
          checked_ioctl (Request.mmap_dma_writer_update (some (add64 c.writer_sw_count available)))
            s
          >>= λ r. some (c', r.0))
      else (len >>= λ n. some (
        record c { buffers_available_read = u32 (n / dma_buffer_size); usr_read_buf_offset = 0 },
        s,
      ))

  -- The write event, with the result of write(2).
  unfoldable pub write_event : Option ℕ → DmaCtrl → Session → Option (DmaCtrl × Session)
  write_event len c s =
      if nonzero c.zero_copy
      then (let available =
            u32 (sub64 (dma_buffer_count / 2) (sub64 c.reader_sw_count c.reader_hw_count)) in
          let c' = record c {
            buffers_available_write = available;
            usr_write_buf_offset = buf_offset c.reader_sw_count;
          } in
          checked_ioctl (Request.mmap_dma_reader_update (some (add64 c.reader_sw_count available)))
            s
          >>= λ r. some (c', r.0))
      else (len >>= λ n. some (
        record c { buffers_available_write = u32 (n / dma_buffer_size); usr_write_buf_offset = 0 },
        s,
      ))

  -- `litepcie_dma_process`
  unfoldable pub process :
      Polled → Option ℕ → Option ℕ → DmaCtrl → Session → Option (DmaCtrl × Session)
  process polled read_len write_len c s = do
    (c, s) ← poll_writer c s
    (c, s) ← poll_reader c s
    elim polled [
      | timeout ↦ some (c, s)
      | events revents ↦
          (if nonzero (bit_and revents pollin)
            then read_event read_len c s
            else some (record c { buffers_available_read = 0 }, s))
          >>= λ r.
              if nonzero (bit_and revents pollout)
              then write_event write_len r.0 r.1
              else some (record (r.0) { buffers_available_write = 0 }, r.1)
    ]
