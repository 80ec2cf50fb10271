-- ===== src/Tools/Main.antt =====
-- software/user/litepcie_util.c and software/user/litepcie_test.c, `main`: the choice of the command.
-- getopt(3) leaves the words that are no options, `argv[optind]` and on, as a list.
use litepcie_ptm_test.Base.{ℕ, Bool, List, [], ◌∷◌, Option, none, some, ◌&&◌, if◌then◌else◌}
use litepcie_ptm_test.Tools.{Word, codes, same_word, strtoul, litepcie_device}
use litepcie_ptm_test.Tools.Options.{
  Opt, Options, defaults, Parsed, help, rejected, parsed, util_option, test_option, option_loop,
}

-- The functions of litepcie_util.c that `main` calls, with their arguments.
pub data UtilCommand : Type 0 where
  info scratch_test flash_reload : UtilCommand
  flash_write : (filename : Word) (offset : ℕ) → UtilCommand
  flash_read : (filename : Word) (size offset : ℕ) → UtilCommand
  dma_test : (zero_copy external_loopback data_width auto_rx_delay : ℕ) → UtilCommand

-- Those of litepcie_test.c.
pub data TestCommand : Type 0 where
  litepcie_record : (filename : Option Word) (size : ℕ) → TestCommand
  litepcie_play : (filename : Word) (loops : ℕ) → TestCommand

-- The program ends with its help or with exit(1), or calls a function for a device.
pub data Main (C : Type 0) : Type 0 where
  shows_help exits : Main C
  calls : (device : Word) → C → Main C

-- A number that may be left out.
abbrev pub number_or : ℕ → List Word → ℕ
number_or start [] = start
number_or start (w ∷ ws) = strtoul w

-- The commands that take arguments; `none` is the jump to `show_help`.
abbrev pub flash_write_command : List Word → Option UtilCommand
flash_write_command [] = none
flash_write_command (filename ∷ args) = some (flash_write filename (number_or 0 args))

abbrev pub flash_read_command : List Word → Option UtilCommand
flash_read_command (filename ∷ size ∷ args) =
    some (flash_read filename (strtoul size) (number_or 0 args))
flash_read_command _ = none

abbrev pub record_command : List Word → Option TestCommand
record_command [] = some (litepcie_record none 0)
record_command (filename ∷ []) = none
record_command (filename ∷ size ∷ args) = some (litepcie_record (some filename) (strtoul size))

abbrev pub play_command : List Word → Option TestCommand
play_command [] = none
play_command (filename ∷ args) = some (litepcie_play filename (number_or 1 args))

-- The command of litepcie_util.c; `has_flash` is whether the build defines CSR_FLASH_BASE.
unfoldable pub util_command :
    (has_flash : Bool) → Options → (cmd : Word) → List Word → Option UtilCommand
util_command has_flash o cmd args =
    if same_word cmd (codes "info")
    then some info
    else if same_word cmd (codes "scratch_test")
    then some scratch_test
    else if has_flash && same_word cmd (codes "flash_write")
    then flash_write_command args
    else if has_flash && same_word cmd (codes "flash_read")
    then flash_read_command args
    else if has_flash && same_word cmd (codes "flash_reload")
    then some flash_reload
    else if same_word cmd (codes "dma_test")
    then some (dma_test o.zero_copy o.external_loopback o.data_width o.auto_rx_delay)
    else none

-- The command of litepcie_test.c. `litepcie_record` and `litepcie_play` also get the zero-copy flag.
unfoldable pub test_command : Options → (cmd : Word) → List Word → Option TestCommand
test_command o cmd args =
    if same_word cmd (codes "record")
    then record_command args
    else if same_word cmd (codes "play")
    then play_command args
    else none

module _ {C : Type 0} (command : Options → (cmd : Word) → List Word → Option C) where
  -- What follows the options.
  abbrev pub choose : Options → List Word → Main C
  choose o [] = shows_help
  choose o (cmd ∷ args) = elim (command o cmd args) [
    | none ↦ shows_help
    | some c ↦ calls (litepcie_device o.device_num) c
  ]

  abbrev pub after_options : Parsed → List Word → Main C
  after_options help args = shows_help
  after_options rejected args = exits
  after_options (parsed o) args = choose o args

-- `main` of litepcie_util.c
unfoldable pub util_main : (has_flash : Bool) → List Opt → List Word → Main UtilCommand
util_main has_flash opts args =
    after_options (util_command has_flash) (option_loop util_option opts defaults) args

-- `main` of litepcie_test.c
unfoldable pub test_main : List Opt → List Word → Main TestCommand
test_main opts args = after_options test_command (option_loop test_option opts defaults) args
