-- ===== src/Stream/Passes.antt =====
-- software/user/litepcie_test.c, `litepcie_record`: the outer loop.
use litepcie_ptm_test.Base.{
  ℕ, zero, suc, Bool, true, false, ◌+◌, ◌-◌, ◌*◌, ◌%◌, ◌^◌, ◌<◌, ◌≤◌, ◌≡◌, refl, sym, ap, ◌∙◌, List,
  [], ◌∷◌, ◌++◌, some, append_assoc, append-nil, length, length-append, min, arith,
}
use litepcie_ptm_test.Config.{dma_buffer_size, dma_buffer_count}
use litepcie_ptm_test.Bus.{Hw}
use litepcie_ptm_test.File.Request.{Build, Session}
use litepcie_ptm_test.User.{DmaCtrl, process}
use litepcie_ptm_test.Stream.{take, Recording, record_buffers, Pass, record_loop}
use litepcie_ptm_test.Stream.Bytes.{take-append, take-none}
use litepcie_ptm_test.Stream.Record.{stream, record_buffers_lem}

length-stream :
    (mem : ℕ → List ℕ) (off n : ℕ)
    → ((at : ℕ) → length (mem at) ≡ dma_buffer_size)
    → length (stream mem off n) ≡ n * dma_buffer_size
unfolding stream
length-stream mem off zero full = refl
length-stream mem off (suc n) full =
    let rest = length-stream mem ((off + 1) % dma_buffer_count) n full in
    let here = full (off % dma_buffer_count * dma_buffer_size) in
    rw
      (
        length-append (mem (off % dma_buffer_count * dma_buffer_size))
            (stream mem ((off + 1) % dma_buffer_count) n),
        here,
        rest,
      )
      (omega arith)

pub elim-true : {A : Type 0} (k : Bool) (x y : A) → k ≡ true → elim k [ false ↦ x | true ↦ y ] ≡ y
elim-true true x y e = refl
elim-true false x y e = absurd (ground arith)

module _ (hw : Hw) (b : Build) (size : ℕ) where
  -- The passes from a state and a session on, in which `litepcie_dma_process` succeeds and the
  -- buffers are full, and at most the ring's 256 are available, up to a pass that finds `keep_running` cleared; the bytes of the buffers that it
  -- makes available in them, and the last session.
  pub data Passes : List Pass → Recording → Session → List ℕ → Session → Type 0 where
    over : {r : Recording} {s : Session} → Passes [] r s [] s
    stopped :
        {ps : List Pass} {r : Recording} {s : Session} → r.keep_running ≡ false → Passes ps r s [] s
    passes :
        {ps : List Pass} {r : Recording} {s s1 s' : Session} {bytes : List ℕ} (p : Pass)
        (c : DmaCtrl)
        → r.keep_running ≡ true
        → process hw b p.polled p.read_len p.write_len r.ctrl s ≡ some (c, s1)
        → ((at : ℕ) → length (p.received at) ≡ dma_buffer_size)
        → c.buffers_available_read ≤ dma_buffer_count
        → c.usr_read_buf_offset < dma_buffer_count
        → ((r1 : Recording)
            → record_buffers p.received true size
                (c.buffers_available_read + 1)
                (record r { ctrl = c })
              ≡ some r1
            → Passes ps r1 s1 bytes s')
        → Passes
            (p ∷ ps)
            r
            s
            (stream p.received c.usr_read_buf_offset c.buffers_available_read ++ bytes)
            s'

  record_loop-stopped :
      (ps : List Pass) (r : Recording) (s : Session)
      → r.keep_running ≡ false
      → record_loop hw b true size ps r s ≡ some (r, s)
  unfolding record_loop
  record_loop-stopped [] r s e = refl
  record_loop-stopped (p ∷ ps) r s e = rw e refl

  record_loop-next :
      (p : Pass) (ps : List Pass) (r r1 : Recording) (s s1 : Session) (c : DmaCtrl)
      → r.keep_running ≡ true
      → process hw b p.polled p.read_len p.write_len r.ctrl s ≡ some (c, s1)
      → record_buffers p.received true size (c.buffers_available_read + 1) (record r { ctrl = c })
        ≡ some r1
      → record_loop hw b true size (p ∷ ps) r s ≡ record_loop hw b true size ps r1 s1
  unfolding record_loop
  record_loop-next p ps r r1 s s1 c on processed runs =
      elim-true r.keep_running _ _ on ∙ rw (processed, runs) refl

  counted :
      (total n l : ℕ)
      → min size (min size (total + n * dma_buffer_size) + l)
        ≡ min size (total + (n * dma_buffer_size + l))
  counted total n l = omega arith

  -- The bytes of a pass and of the passes after it, up to what the size leaves.
  two_parts :
      (total n : ℕ) (file xs ys : List ℕ)
      → length xs ≡ n * dma_buffer_size
      → (file ++ take (size - total) xs) ++ take (size - min size (total + n * dma_buffer_size)) ys
        ≡ file ++ take (size - total) (xs ++ ys)
  two_parts total n file xs ys all =
      let left : size - min size (total + n * dma_buffer_size) ≡ size - total - length xs =
        omega arith in
      rw (left, append_assoc file (take (size - total) xs) (take (size - total - length xs) ys))
        (ap (λ l. file ++ l) (sym (take-append (size - total) xs ys)))

  -- The outer loop of `litepcie_record` to a file, with a size below 2 ^ 32 of which no more than it is
  -- in the file before, over passes in which `litepcie_dma_process` succeeds and makes at most the
  -- ring's 256 buffers available, which are full, and which end or meet one that finds `keep_running`
  -- cleared: it returns, with the file continued by the bytes of all these buffers, in order, none twice and none left out, up
  -- to the size, and `total_len` counts them.
  pub record_loop_lem :
      (ps : List Pass) (r : Recording) (s s' : Session) (bytes : List ℕ)
      → Passes ps r s bytes s'
      → r.total_len ≤ size
      → size < 2 ^ 32
      → (r' : Recording) × (record_loop hw b true size ps r s ≡ some (r', s'))
        × (r'.file ≡ r.file ++ take (size - r.total_len) bytes)
        × (r'.total_len ≡ min size (r.total_len + length bytes))
  unfolding record_loop
  record_loop_lem _ r s _ _ over room bound =
      (r, refl, rw (take-none {A = ℕ} (size - r.total_len), append-nil r.file) refl, ground arith)
  record_loop_lem ps r s _ _ (stopped e) room bound = (
    r,
    record_loop-stopped ps r s e,
    rw (take-none {A = ℕ} (size - r.total_len), append-nil r.file) refl,
    ground arith,
  )
  record_loop_lem _ r s s' _ (passes {bytes = bytes} p c on processed full all_different low rest)
        room bound =
      let n = c.buffers_available_read in
      let xs = stream p.received c.usr_read_buf_offset n in
      let all = length-stream p.received c.usr_read_buf_offset n full in
      let (r1, runs, file, count) =
        record_buffers_lem p.received size n (n + 1) (record r { ctrl = c }) full refl low
          (omega arith) room bound in
      let (r', loops, file', count') =
        record_loop_lem _ r1 _ s' bytes (rest r1 runs) (omega arith) bound in
      (
        r',
        record_loop-next p _ r r1 s _ c on processed runs ∙ loops,
        file' ∙ rw (file, count) (two_parts r.total_len n r.file xs bytes all),
        count'
            ∙ ap (λ t. min size (t + length bytes)) count
            ∙ counted r.total_len n (length bytes)
            ∙ ap (λ l. min size (r.total_len + l))
                (sym (length-append xs bytes ∙ ap (λ k. k + length bytes) all)),
      )
