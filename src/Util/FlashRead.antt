-- ===== src/Util/FlashRead.antt =====
-- software/user/litepcie_util.c: `flash_read`.
use litepcie_ptm_test.Base.{
  ℕ, zero, suc, Bool, ◌+◌, ◌≡◌, refl, ap, List, [], ◌∷◌, Option, none, some, if◌then◌else◌, length,
}
use litepcie_ptm_test.Base.Word.{u32}
use litepcie_ptm_test.Bus.{Hw}
use litepcie_ptm_test.File.Request.{FlashCsr, Build, Session}
use litepcie_ptm_test.User.{◌>>=◌}
use litepcie_ptm_test.User.Flash.{flash_read}
use litepcie_ptm_test.User.Flash.Returns.{flash_read-Gives}

module _ (hw : Hw) (b : Build) (cs_addr : ℕ) where
  -- The loop of `flash_read`, from byte `i` on: the bytes written to the file.
  unfoldable pub read_file : (base left i : ℕ) → Session → Option (Session × List ℕ)
  read_file base zero i s = some (s, [])
  read_file base (suc left) i s = do
    (s, byte) ← flash_read hw b cs_addr (u32 (base + i)) s
    (s, bytes) ← read_file base left (i + 1) s
    some (s, byte ∷ bytes)

  -- `flash_read`, with the results of fopen and open(2); `none` is exit(1) or abort.
  unfoldable pub flash_read_tool :
      (created : Bool) → (opened : Option Session) → (size offset : ℕ) → Option (Session × List ℕ)
  flash_read_tool created opened size offset =
      if created then (opened >>= λ s. read_file offset size 0 s) else none

module _ (hw : Hw) (b : Build) (cs_addr : ℕ) (csr : FlashCsr)
    (has_flash : b.flash_csr ≡ some csr) where
  -- The loop of `flash_read` in a build with a flash: it does not abort and gives `size` bytes.
  pub read_file-Gives :
      (base size i : ℕ) (s : Session)
      → (s' : Session) × (bytes : List ℕ) × (read_file hw b cs_addr base size i s
          ≡ some (s', bytes))
        × (length bytes ≡ size)
  unfolding read_file
  read_file-Gives base zero i s = (s, [], refl, refl)
  read_file-Gives base (suc size) i s =
      let (s1, byte, e) = flash_read-Gives hw b cs_addr csr has_flash (u32 (base + i)) s in
      let (s2, bytes, e', all) = read_file-Gives base size (i + 1) s1 in
      (s2, byte ∷ bytes, rw (e, e') refl, ap suc all)
