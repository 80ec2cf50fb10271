-- ===== src/Util/Pattern.antt =====
-- software/user/litepcie_util.c: the pseudo-random words of the loopback test. A buffer is the list
-- of its words. `undef` stands for the value of `1 << data_width` from a width of 31 bits on, which
-- C leaves undefined on an int.
use litepcie_ptm_test.Base.{
  ℕ, zero, suc, ◌+◌, ◌-◌, ◌*◌, ◌/◌, ◌^◌, List, [], ◌∷◌, not, ◌==◌, ltb, if◌then◌else◌, bit_and,
  bit_or,
}
use litepcie_ptm_test.Base.Word.{u32, add64, sub64, slt64, ◌<<<◌}
use litepcie_ptm_test.Config.{dma_buffer_size}

-- `DMA_BUFFER_SIZE / sizeof(uint32_t)`
abbrev pub buffer_words : ℕ
buffer_words = dma_buffer_size / 4

-- `add_mod_int`
unfoldable pub add_mod_int : ℕ → ℕ → ℕ → ℕ
add_mod_int a b m = let a = add64 a b in if slt64 a m then a else sub64 a m

-- The loop of `get_next_pow2`, with fuel.
unfoldable pub double_up : ℕ → ℕ → ℕ → ℕ
double_up zero x data_width = x
double_up (suc fuel) x data_width =
    let rest = double_up fuel (x <<< 1) data_width in if ltb x data_width then rest else x

-- `get_next_pow2`: the bits of a positive int are used up after 31 rounds.
unfoldable pub get_next_pow2 : ℕ → ℕ
get_next_pow2 data_width = double_up 31 1 data_width

-- `seed_to_data`, under DMA_RANDOM_DATA
unfoldable pub seed_to_data : ℕ → ℕ
seed_to_data seed = u32 (seed * 69069 + 1)

-- `1 << data_width`
abbrev pub one_shl : ℕ → ℕ → ℕ
one_shl undef data_width = if ltb data_width 31 then 1 <<< data_width else undef

-- The loop of `get_data_mask`. A first shift by 32 places, of a mask that is 0, is taken as 0.
unfoldable pub mask_rounds : ℕ → ℕ → ℕ → ℕ → ℕ
mask_rounds undef data_width zero mask = mask
mask_rounds undef data_width (suc left) mask =
    mask_rounds undef data_width left (
      bit_or (u32 (mask <<< get_next_pow2 data_width))
        (u32 (one_shl undef data_width + 2 ^ 32 - 1)))

-- `get_data_mask`
unfoldable pub get_data_mask : ℕ → ℕ → ℕ
get_data_mask undef data_width = mask_rounds undef data_width (32 / get_next_pow2 data_width) 0

-- The next seed, in both loops.
abbrev pub next_seed : ℕ → ℕ
next_seed seed = u32 (add_mod_int seed 1 buffer_words)

module _ (mask : ℕ) where
  -- The word for a seed, in both loops.
  abbrev pub pn_word : ℕ → ℕ
  pn_word seed = bit_and (seed_to_data seed) mask

  -- The loop of `write_pn_data`: the words written, and the seed after them.
  unfoldable pub write_words : ℕ → ℕ → List ℕ × ℕ
  write_words zero seed = ([], seed)
  write_words (suc count) seed =
      let (buf, last) = write_words count (next_seed seed) in (pn_word seed ∷ buf, last)

  -- The loop of `check_pn_data`, over the `count` words of the buffer.
  unfoldable pub check_words : List ℕ → ℕ → ℕ → ℕ × ℕ
  check_words [] errors seed = (errors, seed)
  check_words (w ∷ buf) errors seed =
      check_words buf (if not (w == pn_word seed) then errors + 1 else errors) (next_seed seed)

module _ (undef : ℕ) where
  -- `write_pn_data`
  unfoldable pub write_pn_data : ℕ → ℕ → ℕ → List ℕ × ℕ
  write_pn_data count seed data_width = write_words (get_data_mask undef data_width) count seed

  -- `check_pn_data`: the number of errors, and the seed after the words.
  unfoldable pub check_pn_data : List ℕ → ℕ → ℕ → ℕ × ℕ
  check_pn_data buf seed data_width = check_words (get_data_mask undef data_width) buf 0 seed
