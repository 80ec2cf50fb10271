-- ===== src/Tools/Options.antt =====
-- software/user/litepcie_util.c and software/user/litepcie_test.c, `main`: the loops over the options.
pub mod Last
use litepcie_ptm_test.Base.{
  ℕ, Bool, false, List, [], ◌∷◌, Option, none, some, ◌==◌, ◌||◌, if◌then◌else◌, ◌≡◌, refl,
  ℕ_discrete, arith, ap, ◌∙◌, inl, inr, true, false, Bool-cases,
}
use litepcie_ptm_test.Tools.{Word, atoi}

-- What getopt(3) returns: the letter, `?` for one that it does not know, and `optarg`.
pub record Opt : Type 0 where
  pub letter : ℕ
  pub optarg : Word

-- The variables that the options set; litepcie_test.c has the first and the third.
pub record Options : Type 0 where
  pub device_num : ℕ
  pub data_width : ℕ
  pub zero_copy : ℕ
  pub external_loopback : ℕ
  pub auto_rx_delay : ℕ

abbrev pub defaults : Options
defaults = record {
  device_num = 0;
  data_width = 16;
  zero_copy = 0;
  external_loopback = 0;
  auto_rx_delay = 0;
}

-- How the loop goes on: `help`, which ends the program, exit(1), or the next option.
pub data Parsed : Type 0 where
  help rejected : Parsed
  parsed : Options → Parsed

-- The switch of litepcie_util.c.
abbrev pub util_option : Opt → Options → Parsed
util_option p o =
    if p.letter == b'h'
    then help
    else if p.letter == b'c'
    then parsed (record o { device_num = atoi p.optarg })
    else if p.letter == b'w'
    then parsed (record o { data_width = atoi p.optarg })
    else if p.letter == b'z'
    then parsed (record o { zero_copy = 1 })
    else if p.letter == b'e'
    then parsed (record o { external_loopback = 1 })
    else if p.letter == b'a'
    then parsed (record o { auto_rx_delay = 1 })
    else rejected

-- The switch of litepcie_test.c.
abbrev pub test_option : Opt → Options → Parsed
test_option p o =
    if p.letter == b'h'
    then help
    else if p.letter == b'c'
    then parsed (record o { device_num = atoi p.optarg })
    else if p.letter == b'z'
    then parsed (record o { zero_copy = 1 })
    else rejected

-- The loop, on what getopt(3) returns until it is -1.
unfoldable pub option_loop : (Opt → Options → Parsed) → List Opt → Options → Parsed
option_loop step [] o = parsed o
option_loop step (p ∷ ps) o = elim (step p o) [
  | help ↦ help
  | rejected ↦ rejected
  | parsed o' ↦ option_loop step ps o'
]
