-- ===== src/Stream/Fill.antt =====
-- software/user/litepcie_test.c, `litepcie_play`: the reads that fill one buffer.
use litepcie_ptm_test.Base.{
  ℕ, zero, suc, Bool, true, false, ◌+◌, ◌-◌, ◌<◌, ◌≤◌, ◌≡◌, refl, ap, List, ◌++◌, arith, ltb→lt,
  inl, inr, Bool-cases, ◌∙◌, sym, append-nil, length-append, ltb, if◌then◌else◌, length, min,
}
use litepcie_ptm_test.Config.{dma_buffer_size}
use litepcie_ptm_test.Stream.{take, drop, fill_buffer}
use litepcie_ptm_test.Stream.Bytes.{
  take-append-within, take-append-beyond, length-take, length-drop, take-more, drop-more,
}

-- The bytes of one buffer from place `at` of the file on, which starts again after its end.
pub block : List ℕ → ℕ → List ℕ
block file at = take dma_buffer_size (drop at file ++ file)

-- The place one buffer further.
abbrev pub further : List ℕ → ℕ → ℕ
further file at =
    if ltb (length file) (at + dma_buffer_size)
    then at + dma_buffer_size - length file
    else at + dma_buffer_size

-- The place `j` buffers after `at`.
abbrev pub place_after : List ℕ → ℕ → ℕ → ℕ
place_after file at zero = at
place_after file at (suc j) = place_after file (further file at) j

-- The reads of `n` bytes, one up to the end of the file and one from its start.
module _ (n : ℕ) (file : List ℕ) (at : ℕ) (inside : at ≤ length file) where
  first-length : length (take n (drop at file)) ≡ min n (length file - at)
  first-length = rw (length-take n (drop at file), length-drop at file) refl

  ltb-first : ltb (length (take n (drop at file))) n ≡ ltb (length file) (at + n)
  ltb-first = rw first-length (ground arith)

  first_over : length file < at + n → take n (drop at file) ≡ drop at file
  first_over over = take-more n (drop at file) (rw (length-drop at file) (omega arith))

  again-length :
      length file < at + n
      → n ≤ length file
      → length (take (n - length (take n (drop at file))) file) ≡ at + n - length file
  again-length over long =
      rw (length-take (n - length (take n (drop at file))) file, first-length) (omega arith)

  words_over :
      (old : List ℕ)
      → length file < at + n
      → n ≤ length file
      → length old ≤ n
      → take n (drop at file)
          ++ take (n - length (take n (drop at file))) file
          ++ drop
              (length (take n (drop at file))
                + length (take (n - length (take n (drop at file))) file))
              old
        ≡ take n (drop at file ++ file)
  words_over old over long whole =
      let parts : length (take n (drop at file))
            + length (take (n - length (take n (drop at file))) file)
          ≡ n =
        rw (again-length over long, first-length) (omega arith) in
      let split : length (drop at file) + (n - length (drop at file)) ≡ n =
        rw (length-drop at file) (omega arith) in
      let both = take-append-beyond (n - length (drop at file)) (drop at file) file in
      rw (parts, drop-more n old whole, append-nil _, first_over over)
        (sym both ∙ ap (λ k. take k (drop at file ++ file)) split)

  fills :
      (old : List ℕ)
      → n ≤ length file
      → length old ≡ n
      → let first = take n (drop at file) in
        let again = take (n - length first) file in
        let got : List ℕ × ℕ × Bool =
          if ltb (length first) n
          then (first ++ again ++ drop (length first + length again) old, length again, true)
          else (first, at + n, false) in
        let wanted : List ℕ × ℕ × Bool = (
          take n (drop at file ++ file),
          if ltb (length file) (at + n) then at + n - length file else at + n,
          ltb (length file) (at + n),
        ) in
        got ≡ wanted
  fills old long whole = elim (Bool-cases (ltb (length file) (at + n))) [
    | inl over ↦
        let past = ltb→lt (length file) (at + n) over in
        let words = words_over old past long (omega arith) in
        rw (ltb-first, over, words, again-length past long) refl
    | inr within ↦
        let room : n ≤ length (drop at file) = rw (length-drop at file) (ground arith) in
        rw (ltb-first, within, take-append-within n (drop at file) file room) refl
  ]

-- A buffer of the ring is filled from a file that is no shorter than it.
pub fill_buffer_lem :
    (file old : List ℕ) (at : ℕ)
    → at ≤ length file
    → dma_buffer_size ≤ length file
    → length old ≡ dma_buffer_size
    → let wanted : List ℕ × ℕ × Bool =
        (block file at, further file at, ltb (length file) (at + dma_buffer_size)) in
      fill_buffer file old at ≡ wanted
unfolding fill_buffer block
fill_buffer_lem file old at inside long whole = fills dma_buffer_size file at inside old long whole

pub block-length :
    (file : List ℕ) (at : ℕ)
    → at ≤ length file
    → dma_buffer_size ≤ length file
    → length (block file at) ≡ dma_buffer_size
unfolding block
block-length file at inside long =
    rw (length-take dma_buffer_size (drop at file ++ file), length-append (drop at file) file)
      (omega arith)
