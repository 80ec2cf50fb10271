-- ===== src/Tests/Tools.antt =====
-- The command lines at concrete inputs.
use litepcie_ptm_test.Base.{◌≡◌, refl, List, [], ◌∷◌, true, some, none, ◌==◌, if◌then◌else◌}
use litepcie_ptm_test.Bus.{Hw, rd, wr}
use litepcie_ptm_test.File.Request.{Build}
use litepcie_ptm_test.Util.Board.{scratch_test, scratch_test_lem}
use litepcie_ptm_test.Tests.Data.{idle_session}
use litepcie_ptm_test.Tools.{codes, atoi, strtoul, litepcie_device, decimal, print_digits}
use litepcie_ptm_test.Tools.Options.{Opt, Options, defaults, parsed, util_option, option_loop}
use litepcie_ptm_test.Tools.Options.Last.{stopped, first_other, last_options, option_loop-util}
use litepcie_ptm_test.Tools.Main.{
  UtilCommand, flash_read, TestCommand, litepcie_record, shows_help, util_main, util_command,
  test_main, test_command,
}

hexadecimal : strtoul (codes " 0x1Fz") ≡ 31
unfolding strtoul
hexadecimal = refl

octal : strtoul (codes "010") ≡ 8
unfolding strtoul
octal = refl

too_large : strtoul (codes "99999999999999999999") ≡ 4294967295
unfolding strtoul
too_large = refl

minus_one : atoi (codes "-1") ≡ 4294967295
unfolding atoi
minus_one = refl

device_one : litepcie_device 1 ≡ codes "/dev/litepcie1"
unfolding litepcie_device decimal print_digits
device_one = refl

-- The operands of `flash_read` are too few.
too_few : util_main true [] (codes "flash_read" ∷ codes "out" ∷ []) ≡ shows_help
unfolding util_main option_loop util_command
too_few = refl

-- `record` with a file name only: the help, though the usage has both in brackets.
name_only : test_main [] (codes "record" ∷ codes "out" ∷ []) ≡ shows_help
unfolding test_main option_loop test_command
name_only = refl

abbrev three : List Opt
three =
    record { letter = b'w'; optarg = codes "32" }
    ∷ record { letter = b'w'; optarg = codes "24" }
    ∷ record { letter = b'z'; optarg = [] }
    ∷ []

three_options :
    option_loop util_option three defaults
    ≡ parsed (record defaults { data_width = 24; zero_copy = 1 })
unfolding option_loop atoi
three_options = refl

option_loop-util_example :
    option_loop util_option three defaults
    ≡ stopped (first_other three) (last_options three defaults)
option_loop-util_example = option_loop-util three defaults

abbrev wide : Options
wide = record {
  device_num = 2;
  data_width = 32;
  zero_copy = 1;
  external_loopback = 0;
  auto_rx_delay = 1;
}

abbrev dump : UtilCommand
dump = flash_read (codes "out") 0x10000 0x800000

abbrev ten : TestCommand
ten = litepcie_record (some (codes "out")) 10

abbrev bare : Build
bare = record { flash_csr = none; icap_csr = none }

-- A device whose registers answer with the last value written to them.
abbrev keeping : Hw
keeping [] addr = 0
keeping (rd a v ∷ t) addr = let rest = keeping t addr in rest
keeping (wr a v ∷ t) addr = let rest = keeping t addr in if a == addr then v else rest

scratch_test_lem_example :
    scratch_test keeping bare (some idle_session)
    ≡ some (
      record idle_session {
        trace =
            rd 0x4 0xdeadbeef
            ∷ wr 0x4 0xdeadbeef
            ∷ rd 0x4 0x12345678
            ∷ wr 0x4 0x12345678
            ∷ idle_session.trace;
      },
      0x12345678,
      0xdeadbeef,
    )
scratch_test_lem_example = scratch_test_lem keeping bare idle_session (λ t val. refl)
