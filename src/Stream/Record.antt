-- ===== src/Stream/Record.antt =====
-- software/user/litepcie_test.c, `litepcie_record`: what the file holds.
use litepcie_ptm_test.Base.{
  ℕ, zero, suc, true, false, ◌+◌, ◌-◌, ◌*◌, ◌%◌, ◌^◌, ◌<◌, ◌≤◌, ◌≡◌, refl, ap, subst, ◌∙◌, List, [],
  ◌++◌, none, some, ltb, leb, ◌&&◌, append_assoc, append-nil, if◌then◌else◌, length, min, arith,
  Bool-cases, inl, inr, ◌==◌, sym,
}
use litepcie_ptm_test.Base.Word.{sub64}
use litepcie_ptm_test.Config.{dma_buffer_size, dma_buffer_count}
use litepcie_ptm_test.User.{DmaCtrl, next_read_buffer}
use litepcie_ptm_test.Stream.Bytes.{take-append-within, take-append-beyond, take-all, take-none}
use litepcie_ptm_test.Stream.{take, Recording, record_buffers}

-- The bytes of `n` buffers of the ring from slot `off` on.
unfoldable pub stream : (ℕ → List ℕ) → ℕ → ℕ → List ℕ
stream mem off zero = []
stream mem off (suc n) =
    mem (off % dma_buffer_count * dma_buffer_size) ++ stream mem ((off + 1) % dma_buffer_count) n

stream-next :
    (mem : ℕ → List ℕ) (off n : ℕ)
    → off < dma_buffer_count
    → stream mem off (suc n)
      ≡ mem (off * dma_buffer_size) ++ stream mem ((off + 1) % dma_buffer_count) n
unfolding stream
stream-next mem off n low = let here : off % dma_buffer_count ≡ off = omega arith in rw here refl

-- One buffer of the stream goes to the file, as far as the size allows.
take_step :
    (room : ℕ) (xs ys : List ℕ)
    → take (min room (length xs)) xs ++ take (room - min room (length xs)) ys ≡ take room (xs ++ ys)
take_step room xs ys = elim (Bool-cases (ltb room (length xs))) [
  | inl short ↦
      let low : min room (length xs) ≡ room = ground arith in
      let done : room - room ≡ 0 = omega arith in
      rw (low, done, append-nil (take room xs), take-append-within room xs ys (ground arith)) refl
  | inr long ↦
      let all : min room (length xs) ≡ length xs = ground arith in
      let split : room ≡ length xs + (room - length xs) = ground arith in
      rw (all, take-all xs)
        (sym (take-append-beyond (room - length xs) xs ys)
          ∙ ap (λ n. take n (xs ++ ys)) (sym split))
]

one_buffer :
    (size total_len : ℕ) (file xs ys : List ℕ)
    → length xs ≡ dma_buffer_size
    → (file ++ take (min (size - total_len) dma_buffer_size) xs)
        ++ take (size - (total_len + min (size - total_len) dma_buffer_size)) ys
      ≡ file ++ take (size - total_len) (xs ++ ys)
one_buffer size total_len file xs ys full =
    let room = size - total_len in
    let left : size - (total_len + min room dma_buffer_size) ≡ room - min room dma_buffer_size =
      omega arith in
    let step =
      subst (λ n. take (min room n) xs ++ take (room - min room n) ys ≡ take room (xs ++ ys)) full
        (take_step room xs ys) in
    rw
      (
        left,
        append_assoc file (take (min room dma_buffer_size) xs)
            (take (room - min room dma_buffer_size) ys),
      )
      (ap (λ l. file ++ l) step)

none_left : (c : DmaCtrl) → c.buffers_available_read ≡ 0 → next_read_buffer c ≡ (none, c)
unfolding next_read_buffer
none_left c e = let empty : (c.buffers_available_read == 0) ≡ true = ground arith in rw empty refl

one_more :
    (c : DmaCtrl) (n : ℕ)
    → c.buffers_available_read ≡ suc n
    → next_read_buffer c ≡ (
      some (c.usr_read_buf_offset * dma_buffer_size),
      record c {
        buffers_available_read = c.buffers_available_read - 1;
        usr_read_buf_offset = (c.usr_read_buf_offset + 1) % dma_buffer_count;
      },
    )
unfolding next_read_buffer
one_more c n e = let more : (c.buffers_available_read == 0) ≡ false = ground arith in rw more refl

-- The variables after one round of the loop.
abbrev after : (ℕ → List ℕ) → ℕ → Recording → Recording
after mem size r =
    let off = r.ctrl.usr_read_buf_offset in
    let len = min (size - r.total_len) dma_buffer_size in
    record {
      ctrl = record r.ctrl {
        buffers_available_read = r.ctrl.buffers_available_read - 1;
        usr_read_buf_offset = (off + 1) % dma_buffer_count;
      };
      file = r.file ++ take len (mem (off * dma_buffer_size));
      total_len = r.total_len + len;
      keep_running = if ltb 0 size && leb size (r.total_len + len) then false else r.keep_running;
    }

record_buffers-next :
    (mem : ℕ → List ℕ) (size fuel n : ℕ) (r : Recording)
    → r.ctrl.buffers_available_read ≡ suc n
    → r.total_len ≤ size
    → size < 2 ^ 32
    → record_buffers mem true size (suc fuel) r
      ≡ record_buffers mem true size fuel (after mem size r)
unfolding record_buffers
record_buffers-next mem size fuel n r avail room bound =
    let some_left = one_more r.ctrl n avail in
    let exact : sub64 size r.total_len ≡ size - r.total_len = omega arith in
    rw (record_buffers, some_left, some_left, exact) refl

-- On a ring whose buffers are full, the loop of `litepcie_record` ends when it has a round for every
-- available buffer and one more. If no more than the size, which is below 2^32, is in the file, the
-- file then has the bytes of the buffers, in order and up to the size, after what it had, and
-- `total_len` counts them; so with a size of 0 nothing is written.
pub record_buffers_lem :
    (mem : ℕ → List ℕ) (size n fuel : ℕ) (r : Recording)
    → ((at : ℕ) → length (mem at) ≡ dma_buffer_size)
    → r.ctrl.buffers_available_read ≡ n
    → r.ctrl.usr_read_buf_offset < dma_buffer_count
    → n < fuel
    → r.total_len ≤ size
    → size < 2 ^ 32
    → (r' : Recording) × (record_buffers mem true size fuel r ≡ some r')
      × (r'.file ≡ r.file ++ take (size - r.total_len) (stream mem r.ctrl.usr_read_buf_offset n))
      × (r'.total_len ≡ min size (r.total_len + n * dma_buffer_size))
unfolding record_buffers stream
record_buffers_lem mem size n zero r full avail low more room bound = absurd (omega arith)
record_buffers_lem mem size zero (suc fuel) r full avail low more room bound =
    let empty = none_left r.ctrl avail in
    let none_more : take {A = ℕ} (size - r.total_len) [] ≡ [] = take-none (size - r.total_len) in
    let count : r.total_len ≡ min size (r.total_len + 0) = ground arith in
    (r, rw (record_buffers, empty, empty) refl, rw (none_more, append-nil r.file) refl, count)
record_buffers_lem mem size (suc n) (suc fuel) r full avail low more room bound =
    let off = r.ctrl.usr_read_buf_offset in
    let (r', runs, file, count) =
      record_buffers_lem mem size n fuel (after mem size r) full (omega arith) (omega arith)
        (omega arith) (omega arith) bound in
    let ys = stream mem ((off + 1) % dma_buffer_count) n in
    let grown = one_buffer size r.total_len r.file (mem (off * dma_buffer_size)) ys (full _) in
    (
      r',
      record_buffers-next mem size fuel n r avail room bound ∙ runs,
      file
          ∙ grown
          ∙ ap (λ l. r.file ++ take (size - r.total_len) l) (sym (stream-next mem off n low)),
      count ∙ omega arith,
    )
