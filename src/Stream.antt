-- ===== src/Stream.antt =====
-- software/user/litepcie_test.c: `litepcie_record` and `litepcie_play`, the loops over the buffers. A
-- buffer and a file are lists of bytes; fwrite writes what it is given. A list of
-- passes stands for the time until Ctrl+C.
pub mod Bytes
pub mod Record
pub mod Passes
pub mod Fill
pub mod Play
pub mod Sent
use litepcie_ptm_test.Base.{
  ℕ, zero, suc, Bool, true, false, ◌+◌, ◌-◌, ◌*◌, List, [], ◌∷◌, ◌++◌, Option, none, some, ltb, leb,
  ◌==◌, ◌&&◌, if◌then◌else◌, length, min,
}
use litepcie_ptm_test.Base.Word.{u32, add64, sub64, slt64}
use litepcie_ptm_test.Config.{dma_buffer_size}
use litepcie_ptm_test.Bus.{Hw}
use litepcie_ptm_test.File.Request.{Build, Session}
use litepcie_ptm_test.User.Setup.{Areas, ready, failed, dma_init, dma_cleanup}
use litepcie_ptm_test.User.{DmaCtrl, Polled, next_read_buffer, next_write_buffer, process, ◌>>=◌}

-- The first `n` items of a list.
abbrev pub take {ℓ} : {A : Type ℓ} → ℕ → List A → List A
take zero xs = []
take (suc n) [] = []
take (suc n) (x ∷ xs) = x ∷ take n xs

abbrev pub drop {ℓ} : {A : Type ℓ} → ℕ → List A → List A
drop zero xs = xs
drop (suc n) [] = []
drop (suc n) (x ∷ xs) = drop n xs

-- The variables of `litepcie_record`.
pub record Recording : Type 0 where
  pub ctrl : DmaCtrl
  pub file : List ℕ
  pub total_len : ℕ
  pub keep_running : Bool

-- The inner loop of `litepcie_record`, on the memory that the device has filled; `to_file` is
-- whether there is a file to write to.
unfoldable pub record_buffers :
    (ℕ → List ℕ) → (to_file : Bool) → (size : ℕ) → ℕ → Recording → Option Recording
record_buffers mem to_file size zero r = none
record_buffers mem to_file size (suc fuel) r =
    let (buf, c) = next_read_buffer r.ctrl in
    elim buf [
      | none ↦ some (record r { ctrl = c })
      | some at ↦
          let len = min (sub64 size r.total_len) dma_buffer_size in
          let file = if to_file then r.file ++ take len (mem at) else r.file in
          let total_len = if to_file then r.total_len + len else r.total_len in
          record_buffers mem to_file size fuel (record r {
            ctrl = c;
            file = file;
            total_len = total_len;
            keep_running = if ltb 0 size && leb size total_len then false else r.keep_running;
          })
    ]

-- The variables of `litepcie_play`: the file, the place in it, the buffers to send.
pub record Playing : Type 0 where
  pub ctrl : DmaCtrl
  pub buf_wr : ℕ → List ℕ
  pub at : ℕ
  pub current_loop : ℕ
  pub sw_underflows : ℕ
  pub keep_running : Bool

-- What one buffer holds after the reads: from place `at` in the file, and from its start if the end
-- was met; the rest of the buffer stays. With the place after them, and whether the end was met.
unfoldable pub fill_buffer : (file old : List ℕ) → ℕ → List ℕ × ℕ × Bool
fill_buffer file old at =
    let first = take dma_buffer_size (drop at file) in
    let again = take (dma_buffer_size - length first) file in
    if ltb (length first) dma_buffer_size
    then (first ++ again ++ drop (length first + length again) old, length again, true)
    else (first, at + dma_buffer_size, false)

-- The inner loop of `litepcie_play`.
unfoldable pub play_buffers : (file : List ℕ) → (loops : ℕ) → ℕ → Playing → Option Playing
play_buffers file loops zero p = none
play_buffers file loops (suc fuel) p =
    let (buf, c) = next_write_buffer p.ctrl in
    elim buf [
      | none ↦ some (record p { ctrl = c })
      | some slot ↦
          let (words, at, rewound) = fill_buffer file (p.buf_wr slot) p.at in
          let current_loop = if rewound then u32 (p.current_loop + 1) else p.current_loop in
          let late = sub64 c.reader_hw_count c.reader_sw_count in
          play_buffers file loops fuel (record p {
            ctrl = c;
            buf_wr = λ k. if k == slot then words else p.buf_wr k;
            at = at;
            current_loop = current_loop;
            sw_underflows =
                if slt64 (sub64 c.reader_sw_count c.reader_hw_count) 0
                then add64 p.sw_underflows late
                else p.sw_underflows;
            keep_running = if rewound && leb loops current_loop then false else p.keep_running;
          })
    ]

-- What the world brings to one pass of an outer loop: the result of poll(2), read(2) and write(2),
-- the memory that the device has filled, the milliseconds since the last statistics.
pub record Pass : Type 0 where
  pub polled : Polled
  pub read_len : Option ℕ
  pub write_len : Option ℕ
  pub received : ℕ → List ℕ
  pub duration : ℕ

module _ (hw : Hw) (b : Build) where
  -- The outer loop of `litepcie_record`, whose statistics are printed only.
  unfoldable pub record_loop :
      (to_file : Bool) → (size : ℕ) → List Pass → Recording → Session → Option (Recording × Session)
  record_loop to_file size [] r s = some (r, s)
  record_loop to_file size (p ∷ ps) r s = elim (r.keep_running) [
    | false ↦ some (r, s)
    | true ↦ (do
      (c, s) ← process hw b p.polled p.read_len p.write_len r.ctrl s
      r ←
          record_buffers p.received to_file size (c.buffers_available_read + 1)
            (record r { ctrl = c })
      record_loop to_file size ps r s)
  ]

  -- `litepcie_record`, with the file open if there is one; `none` is exit(1) or abort.
  unfoldable pub record_stream :
      Option Session
      → (rd_ok wr_ok : Bool) → (to_file : Bool) → (size zero_copy : ℕ) → List Pass
      → (ctrl : DmaCtrl) → (keep_running : Bool) → Option (Recording × Session × Areas)
  record_stream opened rd_ok wr_ok to_file size zero_copy ps ctrl keep_running =
      dma_init hw b opened zero_copy rd_ok wr_ok (record ctrl { use_writer = 1 }) >>= λ start.
      elim start [
        | failed file areas ↦ none
        | ready c areas s ↦
            record_loop to_file size ps
              (record { ctrl = c; file = []; total_len = 0; keep_running = keep_running }) s
            >>= λ r. dma_cleanup hw b r.0.ctrl areas r.1 >>= λ q. some (r.0, q.0, q.1)
      ]

  -- The outer loop of `litepcie_play`; `sw_underflows` is set back with the statistics.
  unfoldable pub play_loop :
      (file : List ℕ) → (loops : ℕ) → List Pass → Playing → Session → Option (Playing × Session)
  play_loop file loops [] p s = some (p, s)
  play_loop file loops (w ∷ ws) p s = elim (p.keep_running) [
    | false ↦ some (p, s)
    | true ↦ (do
      (c, s) ← process hw b w.polled w.read_len w.write_len p.ctrl s
      p ← play_buffers file loops (c.buffers_available_write + 1) (record p { ctrl = c })
      play_loop file loops ws
          (record p { sw_underflows = if slt64 200 w.duration then 0 else p.sw_underflows }) s)
  ]

  -- `litepcie_play` of an open file, into memory that holds `buf_wr`; `none` is exit(1) or abort.
  unfoldable pub play_stream :
      Option Session
      → (rd_ok wr_ok : Bool) → (file : List ℕ) → (loops zero_copy : ℕ) → List Pass
      → (ctrl : DmaCtrl) → (buf_wr : ℕ → List ℕ) → (keep_running : Bool)
      → Option (Playing × Session × Areas)
  play_stream opened rd_ok wr_ok file loops zero_copy ws ctrl buf_wr keep_running =
      dma_init hw b opened zero_copy rd_ok wr_ok (record ctrl { use_reader = 1 }) >>= λ start.
      elim start [
        | failed opened areas ↦ none
        | ready c areas s ↦
            play_loop file loops ws
              (record {
                ctrl = c;
                buf_wr = buf_wr;
                at = 0;
                current_loop = 0;
                sw_underflows = 0;
                keep_running = keep_running;
              })
              s
            >>= λ p. dma_cleanup hw b p.0.ctrl areas p.1 >>= λ q. some (p.0, q.0, q.1)
      ]
