-- ===== src/Util/Check.antt =====
-- software/user/litepcie_util.c: `write_pn_data` and `check_pn_data`.
use litepcie_ptm_test.Base.{
  ℕ, zero, suc, ◌+◌, ◌%◌, ◌<◌, ◌≡◌, refl, ap, List, [], ◌∷◌, length, arith, ◌==◌, if◌then◌else◌,
  Bool-cases, inl, inr, ==_refl,
}
use litepcie_ptm_test.Util.Pattern.{
  buffer_words, add_mod_int, next_seed, pn_word, write_words, check_words, get_data_mask,
  write_pn_data, check_pn_data,
}

-- Of a seed below 2048 the next one is the successor, and after the last the first.
pub next_seed_lem : (seed : ℕ) → seed < buffer_words → next_seed seed ≡ (seed + 1) % buffer_words
unfolding add_mod_int
next_seed_lem seed h = ground arith

next_seed-mod :
    (seed start : ℕ) → seed ≡ start % buffer_words → next_seed seed ≡ (start + 1) % buffer_words
next_seed-mod seed start e =
    let step : next_seed seed ≡ (seed + 1) % buffer_words = next_seed_lem seed (omega arith) in
    omega arith

module _ (mask : ℕ) where
  -- The `count` words from a seed on.
  unfoldable pub pattern_words : ℕ → ℕ → List ℕ
  pattern_words seed zero = []
  pattern_words seed (suc count) =
      pn_word mask (seed % buffer_words) ∷ pattern_words (seed + 1) count

  -- At how many places a buffer differs from the words from a seed on.
  unfoldable pub mismatches : List ℕ → ℕ → ℕ
  mismatches [] seed = 0
  mismatches (w ∷ buf) seed =
      (if w == pn_word mask (seed % buffer_words) then 0 else 1) + mismatches buf (seed + 1)

  write_words_lem :
      (count seed start : ℕ)
      → seed ≡ start % buffer_words
      → write_words mask count seed ≡ (pattern_words start count, (start + count) % buffer_words)
  unfolding write_words pattern_words
  write_words_lem zero seed start e =
      let last : (start + 0) % buffer_words ≡ start % buffer_words = omega arith in rw (e, last)
  write_words_lem (suc count) seed start e =
      let last : (start + 1 + count) % buffer_words ≡ (start + suc count) % buffer_words =
        omega arith in
      rw (write_words_lem count (next_seed seed) (start + 1) (next_seed-mod seed start e), e, last)

  check_words_lem :
      (buf : List ℕ) (errors seed start : ℕ)
      → seed ≡ start % buffer_words
      → check_words mask buf errors seed
        ≡ (errors + mismatches buf start, (start + length buf) % buffer_words)
  unfolding check_words mismatches
  check_words_lem [] errors seed start e =
      let last : (start + 0) % buffer_words ≡ start % buffer_words = omega arith in
      let all : errors + 0 ≡ errors = omega arith in rw (e, last, all)
  check_words_lem (w ∷ buf) errors seed start e =
      let last : (start + 1 + length buf) % buffer_words
          ≡ (start + suc (length buf)) % buffer_words =
        omega arith in
      let next = next_seed-mod seed start e in
      elim (Bool-cases (w == pn_word mask seed)) [
        | inl same ↦
            let no_more : errors + mismatches buf (start + 1)
                ≡ errors + (0 + mismatches buf (start + 1)) =
              omega arith in
            rw (
              ← e,
              same,
              check_words_lem buf errors (next_seed seed) (start + 1) next,
              last,
              no_more,
            )
        | inr other ↦
            let one_more : errors + 1 + mismatches buf (start + 1)
                ≡ errors + (1 + mismatches buf (start + 1)) =
              omega arith in
            rw (
              ← e,
              other,
              check_words_lem buf (errors + 1) (next_seed seed) (start + 1) next,
              last,
              one_more,
            )
      ]

  pub mismatches-pattern_words : (seed count : ℕ) → mismatches (pattern_words seed count) seed ≡ 0
  unfolding mismatches pattern_words
  mismatches-pattern_words seed zero = refl
  mismatches-pattern_words seed (suc count) =
      rw (==_refl (pn_word mask (seed % buffer_words)), mismatches-pattern_words (seed + 1) count)
        refl

  pub length-pattern_words : (seed count : ℕ) → length (pattern_words seed count) ≡ count
  unfolding pattern_words
  length-pattern_words seed zero = refl
  length-pattern_words seed (suc count) = ap suc (length-pattern_words (seed + 1) count)

-- `write_pn_data` from a seed below 2048 writes the words of the seeds that follow, 0 after 2047,
-- and leaves the seed behind the last of them.
pub write_pn_data_lem :
    (undef count seed data_width : ℕ)
    → seed < buffer_words
    → write_pn_data undef count seed data_width
      ≡ (pattern_words (get_data_mask undef data_width) seed count, (seed + count) % buffer_words)
unfolding write_pn_data
write_pn_data_lem undef count seed w low =
    write_words_lem (get_data_mask undef w) count seed seed (omega arith)

-- `check_pn_data` from a seed below 2048 counts the places at which the buffer differs from the
-- words of the seeds that follow, 0 after 2047, and leaves the seed behind the last of them.
pub check_pn_data_lem :
    (undef : ℕ) (buf : List ℕ) (seed data_width : ℕ)
    → seed < buffer_words
    → check_pn_data undef buf seed data_width
      ≡ (mismatches (get_data_mask undef data_width) buf seed, (seed + length buf) % buffer_words)
unfolding check_pn_data
check_pn_data_lem undef buf seed w low =
    let mask = get_data_mask undef w in
    let none_before : 0 + mismatches mask buf seed ≡ mismatches mask buf seed = omega arith in
    rw (check_words_lem mask buf 0 seed seed (omega arith), none_before)

-- What `write_pn_data` writes from a seed below 2048, `check_pn_data` accepts without an error when
-- it starts from the same seed with the same width, and it leaves the same seed.
pub check_pn_data-write_pn_data :
    (undef count seed data_width : ℕ)
    → seed < buffer_words
    → let (buf, last) = write_pn_data undef count seed data_width in
      check_pn_data undef buf seed data_width ≡ (0, last)
check_pn_data-write_pn_data undef count seed w low =
    let mask = get_data_mask undef w in
    rw
      (
        write_pn_data_lem undef count seed w low,
        check_pn_data_lem undef (pattern_words mask seed count) seed w low,
        mismatches-pattern_words mask seed count,
        length-pattern_words mask seed count,
      )
      refl
