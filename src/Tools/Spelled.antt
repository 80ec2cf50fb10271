-- ===== src/Tools/Spelled.antt =====
-- Command lines of software/user/litepcie_util.c and software/user/litepcie_test.c, written from the
-- command that is meant.
use litepcie_ptm_test.Base.{ℕ, zero, suc, ◌^◌, ◌<◌, ◌≤◌, ◌≡◌, List, [], ◌∷◌, none, some}
use litepcie_ptm_test.Tools.{Word, codes, print_digits, decimal}
use litepcie_ptm_test.Tools.Options.{Opt, Options}
use litepcie_ptm_test.Tools.Main.{
  UtilCommand, info, scratch_test, flash_reload, flash_write, flash_read, dma_test, TestCommand,
  litepcie_record, litepcie_play,
}

abbrev unsigned : ℕ → Word
unsigned n = print_digits 10 10 n []

abbrev flag : ℕ → ℕ → List Opt → List Opt
flag letter zero opts = opts
flag letter (suc n) opts = record { letter = letter; optarg = [] } ∷ opts

-- The options that set the variables, the flags that are 0 left out.
abbrev pub util_opts : Options → List Opt
util_opts o =
    record { letter = b'c'; optarg = decimal o.device_num }
    ∷ record { letter = b'w'; optarg = decimal o.data_width }
    ∷ flag b'z' o.zero_copy (flag b'e' o.external_loopback (flag b'a' o.auto_rx_delay []))

abbrev pub test_opts : (device_num zero_copy : ℕ) → List Opt
test_opts device_num zero_copy =
    record { letter = b'c'; optarg = decimal device_num } ∷ flag b'z' zero_copy []

-- The words of a command.
abbrev pub util_words : UtilCommand → List Word
util_words info = codes "info" ∷ []
util_words scratch_test = codes "scratch_test" ∷ []
util_words flash_reload = codes "flash_reload" ∷ []
util_words (flash_write filename offset) = codes "flash_write" ∷ filename ∷ unsigned offset ∷ []
util_words (flash_read filename size offset) =
    codes "flash_read" ∷ filename ∷ unsigned size ∷ unsigned offset ∷ []
util_words (dma_test _ _ _ _) = codes "dma_test" ∷ []

abbrev pub test_words : TestCommand → List Word
test_words (litepcie_record none size) = codes "record" ∷ []
test_words (litepcie_record (some filename) size) = codes "record" ∷ filename ∷ unsigned size ∷ []
test_words (litepcie_play filename loops) = codes "play" ∷ filename ∷ unsigned loops ∷ []

-- The numbers of a command are words of 32 bits, and the loopback test gets the options.
unfoldable pub Possible : Options → UtilCommand → Type 0
Possible o info = Unit
Possible o scratch_test = Unit
Possible o flash_reload = Unit
Possible o (flash_write filename offset) = offset < 2 ^ 32
Possible o (flash_read filename size offset) = (size < 2 ^ 32) × (offset < 2 ^ 32)
Possible o (dma_test zero_copy external_loopback data_width auto_rx_delay) =
    (o.zero_copy ≡ zero_copy)
    × (o.external_loopback ≡ external_loopback)
    × (o.data_width ≡ data_width)
    × (o.auto_rx_delay ≡ auto_rx_delay)

-- Ints and flags, as C has them.
pub record IsOptions (o : Options) : Type 0 where
  pub device_num : o.device_num < 2 ^ 32
  pub data_width : o.data_width < 2 ^ 32
  pub zero_copy : o.zero_copy ≤ 1
  pub external_loopback : o.external_loopback ≤ 1
  pub auto_rx_delay : o.auto_rx_delay ≤ 1

-- A size without a file is 0.
unfoldable pub Recordable : TestCommand → Type 0
Recordable (litepcie_record none size) = 0 ≡ size
Recordable (litepcie_record (some filename) size) = size < 2 ^ 32
Recordable (litepcie_play filename loops) = loops < 2 ^ 32
