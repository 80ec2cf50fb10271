-- ===== src/User/Registers.antt =====
-- software/user/liblitepcie/litepcie_helpers.c: registers and the reload of the FPGA from user space.
use litepcie_ptm_test.Base.{ℕ, Option, none, some}
use litepcie_ptm_test.Bus.{Hw}
use litepcie_ptm_test.File.Request.{Request, Reply, Build, Session}
use litepcie_ptm_test.User.{checked_ioctl, ◌>>=◌}

-- The value in the answer of the register ioctl.
abbrev pub val_of : Option Reply → Option ℕ
val_of (some (Reply.reg m)) = some m.val
val_of other = none

module _ (hw : Hw) (b : Build) where
  -- `litepcie_readl`
  unfoldable pub user_readl : ℕ → Session → Option (Session × ℕ)
  user_readl addr s = do
    (s, reply) ←
        checked_ioctl hw b (Request.reg (some (record { addr = addr; val = 0; is_write = 0 }))) s
    val ← val_of reply
    some (s, val)

  -- `litepcie_writel`
  unfoldable pub user_writel : ℕ → ℕ → Session → Option Session
  user_writel addr val s =
      checked_ioctl hw b (Request.reg (some (record { addr = addr; val = val; is_write = 1 }))) s
      >>= λ r. some r.0

  -- `litepcie_reload`
  unfoldable pub reload : Session → Option Session
  reload s =
      checked_ioctl hw b (Request.icap (some (record { addr = 0x4; data_word = 0xf }))) s >>= λ r.
      some r.0
