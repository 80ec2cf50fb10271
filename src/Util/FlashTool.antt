-- ===== src/Util/FlashTool.antt =====
-- software/user/litepcie_util.c: `flash_program` and `flash_write`.
use litepcie_ptm_test.Base.{
  ℕ, ◌+◌, ◌-◌, ◌*◌, ◌/◌, ◌%◌, ◌<◌, ◌≤◌, ◌≡◌, Option, some, arith, ltb, if◌then◌else◌, ◌==◌, ◌&&◌,
  none, Bool,
}
use litepcie_ptm_test.Bus.{Hw}
use litepcie_ptm_test.File.Request.{Build, Session}
use litepcie_ptm_test.User.Flash.{flash_sector_size}
use litepcie_ptm_test.User.Flash.Program.{Run, ok, flash_write_all, ◌>>=◌}

-- The size padded to whole sectors, on positive ints whose sum does not overflow.
unfoldable pub padded_size : ℕ → ℕ
padded_size size1 = (size1 + flash_sector_size - 1) / flash_sector_size * flash_sector_size

-- The buffer: the bytes of the file, and zeros.
unfoldable pub padded : (ℕ → ℕ) → ℕ → ℕ → ℕ
padded buf1 size1 k = if ltb k size1 then buf1 k else 0

-- The file to write: its size, an int, and its bytes.
pub record SourceFile : Type 0 where
  pub size : ℕ
  pub bytes : ℕ → ℕ

-- How `flash_write` ends: by exit(1), after perror, or when the flash is written.
pub data WriteEnd : Type 0 where
  exits complains : WriteEnd
  written : Session → WriteEnd

-- Only a result of 0 is no error.
abbrev pub write_end : Session → ℕ → WriteEnd
write_end s errors = if errors == 0 then written s else exits

module _ (hw : Hw) (b : Build) (cs_addr : ℕ) where
  -- `flash_program`, with the results of open(2) and calloc.
  unfoldable pub flash_program :
      (opened : Option Session)
      → (calloc_ok : Bool) → (rounds patience base : ℕ) → (ℕ → ℕ)
      → (size1 : ℕ) → Run WriteEnd
  flash_program none calloc_ok rounds patience base buf1 size1 = ok exits
  flash_program (some s) calloc_ok rounds patience base buf1 size1 =
      if calloc_ok
      then (flash_write_all hw b cs_addr rounds patience base (padded buf1 size1)
            (padded_size size1) s
          >>= λ r. ok (write_end r.0 r.1))
      else ok exits

  -- `flash_write`, with the results of fopen and malloc, and whether the bytes of the file can be
  -- read; fread gives no item of size 0.
  unfoldable pub flash_write :
      (opened : Option Session)
      → (malloc_ok readable calloc_ok : Bool) → (rounds patience : ℕ) → Option SourceFile
      → (offset : ℕ) → Run WriteEnd
  flash_write opened malloc_ok readable calloc_ok rounds patience none offset = ok exits
  flash_write opened malloc_ok readable calloc_ok rounds patience (some f) offset =
      if malloc_ok
      then (if readable && ltb 0 f.size
          then flash_program opened calloc_ok rounds patience offset f.bytes f.size
          else ok complains)
      else ok exits

-- The padding of `flash_program`: the fewest whole sectors that hold the file; so pages of 256
-- bytes, or of 1, that start inside the buffer end inside it.
pub padded_size_lem :
    (size1 page : ℕ)
    → page * 256 < padded_size size1
    → (size1 ≤ padded_size size1)
      × (padded_size size1 < size1 + flash_sector_size)
      × (padded_size size1 % flash_sector_size ≡ 0)
      × (page * 256 + 256 ≤ padded_size size1)
unfolding padded_size
padded_size_lem size1 page h = omega arith
