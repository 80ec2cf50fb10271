-- ===== src/File/Ioctl/Masks.antt =====
-- What the two engine ioctls share.
use litepcie_ptm_test.Base.{ℕ, Bool, true, false, ◌≡◌, refl, ◌∷◌}
use litepcie_ptm_test.Base.Bits.{bit}
use litepcie_ptm_test.Config.{csr_pcie_msi_enable_addr}
use litepcie_ptm_test.Bus.{Trace, wr}
use litepcie_ptm_test.File.Request.{Session, Reply, give_back}

pub sess-give_back : (ok : Bool) (r : Reply) (s : Session) → (give_back ok r s).sess ≡ s
sess-give_back true r s = refl
sess-give_back false r s = refl

-- The newest access sets or clears bit `n` of the interrupt enable mask.
pub record MaskSet (n v : ℕ) (t : Trace) : Type 0 where
  pub mask : ℕ
  pub before : Trace
  pub newest : t ≡ wr csr_pcie_msi_enable_addr mask ∷ before
  pub sets : bit n mask ≡ v
