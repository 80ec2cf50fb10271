-- ===== src/Util/Loopback/Shift.antt =====
-- software/user/litepcie_util.c, `dma_test`: the stream of buffers with the pattern, cut elsewhere.
use litepcie_ptm_test.Base.{ℕ, zero, suc, ◌+◌, ◌-◌, ◌%◌, ◌<◌, ◌≡◌, refl, sym, ap, ◌∙◌, ◌++◌, arith}
use litepcie_ptm_test.Stream.{take, drop}
use litepcie_ptm_test.Util.Pattern.{buffer_words, get_data_mask}
use litepcie_ptm_test.Util.Check.{pattern_words}
use litepcie_ptm_test.Util.Loopback.Receive.{received_words}

module _ (mask : ℕ) where
  take-pattern_words :
      (n m seed : ℕ) → take n (pattern_words mask seed (n + m)) ≡ pattern_words mask seed n
  unfolding pattern_words
  take-pattern_words zero m seed = refl
  take-pattern_words (suc n) m seed =
      let e : suc n + m ≡ suc (n + m) = omega arith in
      rw (e, take-pattern_words n m (seed + 1)) refl

  drop-pattern_words :
      (n m seed : ℕ) → drop n (pattern_words mask seed (n + m)) ≡ pattern_words mask (seed + n) m
  unfolding pattern_words
  drop-pattern_words zero m seed =
      let (e, e') : (0 + m ≡ m) × (seed + 0 ≡ seed) = (omega arith, omega arith) in rw (e, e') refl
  drop-pattern_words (suc n) m seed =
      let (e, e') : (suc n + m ≡ suc (n + m)) × (seed + suc n ≡ seed + 1 + n) =
        (omega arith, omega arith) in
      rw (e, e', drop-pattern_words n m (seed + 1)) refl

  pattern_words-append :
      (n m seed : ℕ)
      → pattern_words mask seed n ++ pattern_words mask (seed + n) m
        ≡ pattern_words mask seed (n + m)
  unfolding pattern_words
  pattern_words-append zero m seed =
      let (e, e') : (0 + m ≡ m) × (seed + 0 ≡ seed) = (omega arith, omega arith) in rw (e, e') refl
  pattern_words-append (suc n) m seed =
      let (e, e') : (suc n + m ≡ suc (n + m)) × (seed + suc n ≡ seed + 1 + n) =
        (omega arith, omega arith) in
      rw (e, e', ← pattern_words-append n m (seed + 1)) refl

  pattern_words-period :
      (n seed : ℕ) → pattern_words mask (seed + buffer_words) n ≡ pattern_words mask seed n
  unfolding pattern_words
  pattern_words-period zero seed = refl
  pattern_words-period (suc n) seed =
      let around : (seed + buffer_words) % buffer_words ≡ seed % buffer_words = omega arith in
      let on : seed + buffer_words + 1 ≡ seed + 1 + buffer_words = omega arith in
      rw (around, on, pattern_words-period n (seed + 1)) refl

module _ (undef data_width : ℕ) where
  -- The end of a buffer with the pattern, from a word on, and the start of another up to there, are the
  -- pattern from that word on.
  pub received_words-shifted :
      (delay : ℕ)
      → delay < buffer_words
      → drop delay (received_words undef data_width 0)
          ++ take delay (received_words undef data_width 0)
        ≡ received_words undef data_width delay
  received_words-shifted delay low =
      let mask = get_data_mask undef data_width in
      let left = buffer_words - delay in
      let from_zero : 0 + delay ≡ delay = omega arith in
      let (whole, again, past) : (buffer_words ≡ delay + left)
          × (buffer_words ≡ left + delay)
          × (delay + left ≡ 0 + buffer_words) =
        (omega arith, omega arith, omega arith) in
      let first : drop delay (pattern_words mask 0 buffer_words) ≡ pattern_words mask delay left =
        ap (λ n. drop delay (pattern_words mask 0 n)) whole
        ∙ drop-pattern_words mask delay left 0
        ∙ ap (λ n. pattern_words mask n left) from_zero in
      let second : take delay (pattern_words mask 0 buffer_words)
          ≡ pattern_words mask (delay + left) delay =
        ap (λ n. take delay (pattern_words mask 0 n)) whole
        ∙ take-pattern_words mask delay left 0
        ∙ sym (ap (λ n. pattern_words mask n delay) past ∙ pattern_words-period mask delay 0) in
      ap (λ l. l ++ take delay (pattern_words mask 0 buffer_words)) first
      ∙ ap (λ l. pattern_words mask delay left ++ l) second
      ∙ pattern_words-append mask left delay delay
      ∙ ap (λ n. pattern_words mask delay n) (sym again)
