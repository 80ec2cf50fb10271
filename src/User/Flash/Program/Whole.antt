-- ===== src/User/Flash/Program/Whole.antt =====
-- software/user/liblitepcie/litepcie_flash.c: the whole of `litepcie_flash_write`.
use litepcie_ptm_test.Base.{
  ℕ, zero, suc, Bool, true, false, ◌+◌, ◌-◌, ◌*◌, ◌/◌, ◌^◌, ◌<◌, ◌≤◌, ◌≡◌, refl, some, arith, ltb,
  ltb→lt, Bool-cases, inl, inr, ◌⊎◌, if◌then◌else◌,
}
use litepcie_ptm_test.Base.Word.{u32}
use litepcie_ptm_test.Bus.{Hw}
use litepcie_ptm_test.File.Request.{FlashCsr, Build, Session}
use litepcie_ptm_test.File.Ioctl.{ioctl, ioctl_reg}
use litepcie_ptm_test.User.{checked_ioctl}
use litepcie_ptm_test.User.Registers.{user_readl, user_writel}
use litepcie_ptm_test.User.Flash.{
  flash_program_size, flash_spi_cs, flash_sector_size, flash_read_id, flash_write_enable,
  flash_write_disable, flash_erase_sector,
}
use litepcie_ptm_test.User.Flash.Program.Waits.{Polls, wait_ready-Polls}
use litepcie_ptm_test.User.Flash.Returns.{
  flash_read_id-Gives, flash_write_enable-Goes, flash_write_disable-Goes, flash_erase_sector-Goes,
}
use litepcie_ptm_test.User.Flash.Program.{ok, erase_loop, flash_write_all, page_loop}
use litepcie_ptm_test.User.Flash.Program.Pages.{Settles, Programmed, page_loop-Ends}

-- The page size is 256 or 1.
abbrev pub IsPageSize : ℕ → Type 0
IsPageSize n = (0 < n) × (n ≤ 256)

either-IsPageSize : (t : Bool) → IsPageSize (if t then 256 else 1)
either-IsPageSize true = omega arith
either-IsPageSize false = omega arith

module _ (hw : Hw) (b : Build) (cs_addr patience base : ℕ) (buf : ℕ → ℕ) where
  -- The sectors from `i` on are erased one after the other, each with writes enabled and the flash
  -- polled until it is ready.
  pub data Erased (size : ℕ) : ℕ → Session → Session → Type 0 where
    over : (i : ℕ) (s : Session) → size ≤ i → Erased size i s s
    sector :
        (i : ℕ) (s s1 s2 s3 s' : Session)
        → i < size
        → flash_write_enable hw b cs_addr s ≡ some s1
        → flash_erase_sector hw b cs_addr (u32 (base + i)) s1 ≡ some s2
        → Polls hw b cs_addr s2 s3
        → Erased size (i + flash_sector_size) s3 s'
        → Erased size i s s'

  -- A run from a session to another: the page size is asked for, the id read, and the sectors are
  -- erased with writes enabled; then the pages that cover the buffer are programmed in order, each of
  -- them read back right, up to the last session.
  pub record Verified (size : ℕ) (s s' : Session) : Type 0 where
    pub page_size : ℕ
    pub is_page : IsPageSize page_size
    pub id : ℕ
    pub sized : Session
    pub identified : Session
    pub enabled : Session
    pub erased : Session
    pub disabled : Session
    pub sizes : flash_program_size hw b cs_addr s ≡ some (sized, page_size)
    pub identifies : flash_read_id hw b cs_addr 0 sized ≡ some (identified, id)
    pub enables : flash_write_enable hw b cs_addr identified ≡ some enabled
    pub erases : Erased size 0 enabled erased
    pub disables : flash_write_disable hw b cs_addr erased ≡ some disabled
    pub programs : Programmed hw b cs_addr patience base buf size page_size 0 0 disabled s'

module _ (hw : Hw) (b : Build) (cs_addr : ℕ) (csr : FlashCsr)
    (has_flash : b.flash_csr ≡ some csr) where
  flash_program_size-IsPageSize :
      (s : Session)
      → (s' : Session) × (n : ℕ) × (flash_program_size hw b cs_addr s ≡ some (s', n)) × IsPageSize n
  unfolding flash_program_size flash_spi_cs user_readl user_writel checked_ioctl ioctl ioctl_reg
  flash_program_size-IsPageSize s = (_, _, refl, either-IsPageSize _)

  module _ (patience base : ℕ) (buf : ℕ → ℕ) (settles : Settles hw b cs_addr patience base buf)
      (small : (k : ℕ) → buf k < 2 ^ 8) where
    erase_loop-returns :
        (rounds size i : ℕ) (s : Session)
        → size ≤ 2 ^ 31
        → (size + 65535 - i) / 65536 < rounds
        → (s' : Session) × (erase_loop hw b cs_addr rounds patience base size i s ≡ ok s')
          × Erased hw b cs_addr patience base buf size i s s'
    unfolding erase_loop
    erase_loop-returns zero size i s fits enough = absurd (omega arith)
    erase_loop-returns (suc rounds) size i s fits enough = elim (Bool-cases (ltb i size)) [
      | inr done ↦ (s, rw (erase_loop, done) refl, over i s (ground (arith, done)))
      | inl more ↦
          let inside = ltb→lt i size more in
          let (s1, e1) = flash_write_enable-Goes hw b cs_addr csr has_flash s in
          let (s2, e2) = flash_erase_sector-Goes hw b cs_addr csr has_flash (u32 (base + i)) s1 in
          let (s3, e3) = settles s2 in
          let (s', e, rest) =
            erase_loop-returns rounds size (i + flash_sector_size) s3 fits (omega arith) in
          let same : u32 (i + flash_sector_size) ≡ i + flash_sector_size = omega arith in
          (
            s',
            rw (erase_loop, more, e1, e2, e3, same) e,
            sector i s s1 s2 s3 s' inside e1 e2 (wait_ready-Polls hw b cs_addr patience s2 s3 e3)
                rest,
          )
    ]

    page_loop-returns :
        (size n : ℕ) (s : Session)
        → size ≤ 2 ^ 31
        → IsPageSize n
        → (s' : Session) × (r : ℕ) × (page_loop hw b cs_addr
              (17 * size + 17)
              patience
              base
              buf
              size
              n
              0
              0
              s
            ≡ ok (s', r))
          × (((r ≡ 0) × Programmed hw b cs_addr patience base buf size n 0 0 s s') ⊎ (r ≡ 1))
    page_loop-returns size n s fits page =
        let (s', ended) =
          page_loop-Ends hw b cs_addr patience base buf csr has_flash settles small size n s page.0
            page.1 fits in
        elim ended [
          | inr (e, up) ↦ (s', 1, e, inr refl)
          | inl (e, done) ↦ (s', 0, e, inl (refl, done))
        ]

    -- `litepcie_flash_write` in a build with a flash that becomes ready whenever it is waited for,
    -- of up to 2 ^ 31 bytes: it ends, and returns 0 or 1; and where it returns 0, its run erased the
    -- sectors and programmed each page of the buffer. The rounds are 17 for each byte and 17 more.
    pub flash_write_all-returns :
        (size : ℕ) (s : Session)
        → size ≤ 2 ^ 31
        → (s' : Session) × (r : ℕ) × (flash_write_all hw b cs_addr
              (17 * size + 17)
              patience
              base
              buf
              size
              s
            ≡ ok (s', r))
          × (((r ≡ 0) × Verified hw b cs_addr patience base buf size s s') ⊎ (r ≡ 1))
    unfolding flash_write_all
    flash_write_all-returns size s fits =
        let (s0, n, e0, page) = flash_program_size-IsPageSize s in
        let (s1, id, e1) = flash_read_id-Gives hw b cs_addr csr has_flash 0 s0 in
        let (s2, e2) = flash_write_enable-Goes hw b cs_addr csr has_flash s1 in
        let (s3, e3, erases) = erase_loop-returns (17 * size + 17) size 0 s2 fits (omega arith) in
        let (s4, e4) = flash_write_disable-Goes hw b cs_addr csr has_flash s3 in
        let (s', r, e5, result) = page_loop-returns size n s4 fits page in
        let run : flash_write_all hw b cs_addr (17 * size + 17) patience base buf size s
            ≡ ok (s', r) =
          rw (e0, e1, e2, e3, e4, e5) refl in
        elim result [
          | inr failed ↦ (s', r, run, inr failed)
          | inl (zero_errors, programs) ↦ (
            s',
            r,
            run,
            inl (
              zero_errors,
              record {
                page_size = n;
                is_page = page;
                id = id;
                sized = s0;
                identified = s1;
                enabled = s2;
                erased = s3;
                disabled = s4;
                sizes = e0;
                identifies = e1;
                enables = e2;
                erases = erases;
                disables = e4;
                programs = programs;
              },
            ),
          )
        ]
