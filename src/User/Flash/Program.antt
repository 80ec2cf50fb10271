-- ===== src/User/Flash/Program.antt =====
-- software/user/liblitepcie/litepcie_flash.c: `litepcie_flash_write`. A loop that waits for the flash
-- has `patience` rounds, the loop over the pages `rounds`; where they do not suffice the result is
-- `hang`. An ioctl that fails ends the program, `abort`.
pub mod Waits
pub mod Compare
pub mod Pages
pub mod Whole
use litepcie_ptm_test.Base.{
  ℕ, zero, suc, Bool, true, false, ◌+◌, ◌%◌, ◌^◌, List, [], ◌∷◌, Option, none, some, ◌==◌, ltb,
  if◌then◌else◌, ◌&&◌, bit_and,
}
use litepcie_ptm_test.Base.Word.{u32}
use litepcie_ptm_test.Bus.{Hw}
use litepcie_ptm_test.File.Request.{Build, Session, nonzero}
use litepcie_ptm_test.User.Flash.{
  flash_wip, flash_sector_size, flash_retries, flash_read_id, flash_write_enable,
  flash_write_disable, flash_read_status, flash_erase_sector, flash_write_buffer, flash_read_buffer,
  flash_program_size,
}

pub data Run {ℓ} (A : Type ℓ) : Type ℓ where
  ok : A → Run A
  abort : Run A
  hang : Run A

infixl 5 ◌>>=◌
abbrev pub ◌>>=◌ {ℓ κ} : {A : Type ℓ} {B : Type κ} → Run A → (A → Run B) → Run B
ok a >>= f = f a
abort >>= f = abort
hang >>= f = hang

-- A call of the library that may abort.
abbrev pub call {ℓ} : {A : Type ℓ} → Option A → Run A
call none = abort
call (some a) = ok a

-- `memcmp(buf + at, cmp_buf, …) == 0`
abbrev pub same_bytes : (ℕ → ℕ) → ℕ → List ℕ → Bool
same_bytes buf at [] = true
same_bytes buf at (x ∷ cmp_buf) = buf at == x && same_bytes buf (at + 1) cmp_buf

module _ (hw : Hw) (b : Build) (cs_addr : ℕ) where
  -- `while (flash_read_status(fd) & FLASH_WIP)`
  unfoldable pub wait_ready : ℕ → Session → Run Session
  wait_ready zero s = hang
  wait_ready (suc patience) s = elim (flash_read_status hw b cs_addr s) [
    | none ↦ abort
    | some r ↦ elim (nonzero (bit_and r.1 flash_wip)) [
      | true ↦ wait_ready patience r.0
      | false ↦ ok r.0
    ]
  ]

  -- The loop that erases the sectors; `i` is an int, compared as unsigned.
  unfoldable pub erase_loop : (rounds patience base size i : ℕ) → Session → Run Session
  erase_loop zero patience base size i s = hang
  erase_loop (suc rounds) patience base size i s = elim (ltb i size) [
    | false ↦ ok s
    | true ↦ call (flash_write_enable hw b cs_addr s) >>= λ s.
        call (flash_erase_sector hw b cs_addr (u32 (base + i)) s) >>= λ s.
        wait_ready patience s >>= λ s.
        erase_loop rounds patience base size (u32 (i + flash_sector_size)) s
  ]

  -- One try at the page at `i`: write it, read it back; whether it is right.
  unfoldable pub try_page :
      (patience base : ℕ) → (ℕ → ℕ) → (page_size i : ℕ) → Session → Run (Session × Bool)
  try_page patience base buf page_size i s = wait_ready patience s >>= λ s.
      call (flash_write_enable hw b cs_addr s) >>= λ s.
      call (flash_write_buffer hw b cs_addr (u32 (base + i)) buf i page_size s) >>= λ s.
      call (flash_write_disable hw b cs_addr s) >>= λ s. wait_ready patience s >>= λ s.
      call (flash_read_buffer hw b cs_addr (u32 (base + i)) page_size s) >>= λ r.
      ok (r.0, same_bytes buf i r.1)

  -- The loop over the pages: the result of `litepcie_flash_write`.
  unfoldable pub page_loop :
      (rounds patience base : ℕ)
      → (ℕ → ℕ)
      → (size page_size i retries : ℕ) → Session
      → Run (Session × ℕ)
  page_loop zero patience base buf size page_size i retries s = hang
  page_loop (suc rounds) patience base buf size page_size i retries s = elim (ltb i size) [
    | false ↦ ok (s, 0)
    | true ↦ try_page patience base buf page_size i s >>= λ r. elim (r.1) [
      | true ↦ page_loop rounds patience base buf size page_size (u32 (i + page_size)) 0 r.0
      | false ↦ elim (ltb flash_retries (retries + 1)) [
        | true ↦ ok (r.0, 1)
        | false ↦ page_loop rounds patience base buf size page_size i (retries + 1) r.0
      ]
    ]
  ]

  -- `litepcie_flash_write`
  unfoldable pub flash_write_all :
      (rounds patience base : ℕ) → (ℕ → ℕ) → (size : ℕ) → Session → Run (Session × ℕ)
  flash_write_all rounds patience base buf size s =
      call (flash_program_size hw b cs_addr s) >>= λ p.
      call (flash_read_id hw b cs_addr 0 (p.0)) >>= λ r.
      call (flash_write_enable hw b cs_addr (r.0)) >>= λ s.
      erase_loop rounds patience base size 0 s >>= λ s.
      call (flash_write_disable hw b cs_addr s) >>= λ s.
      page_loop rounds patience base buf size (p.1) 0 0 s
