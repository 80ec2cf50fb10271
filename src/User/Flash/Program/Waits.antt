-- ===== src/User/Flash/Program/Waits.antt =====
-- software/user/liblitepcie/litepcie_flash.c: a wait for the flash ends at a status that says ready.
use litepcie_ptm_test.Base.{
  ℕ, zero, suc, ◌≡◌, ◌≢◌, refl, sym, ap, ◌∙◌, some, arith, inl, inr, Bool-cases, bit_and,
}
use litepcie_ptm_test.Bus.{Hw}
use litepcie_ptm_test.Chdev.Rollback.{Option-cases}
use litepcie_ptm_test.File.Request.{Build, Session, nonzero}
use litepcie_ptm_test.User.Flash.{flash_wip, flash_read_status}
use litepcie_ptm_test.User.Flash.Program.{ok, abort, wait_ready}

module _ (hw : Hw) (b : Build) (cs_addr : ℕ) where
  -- From a session to another the status register of the flash is read until its WIP bit is clear.
  pub data Polls : Session → Session → Type 0 where
    clear :
        (s s' : Session) (status : ℕ)
        → flash_read_status hw b cs_addr s ≡ some (s', status)
        → bit_and status flash_wip ≡ 0
        → Polls s s'
    busy :
        (s s1 s' : Session) (status : ℕ)
        → flash_read_status hw b cs_addr s ≡ some (s1, status)
        → bit_and status flash_wip ≢ 0
        → Polls s1 s'
        → Polls s s'

  pub wait_ready-Polls :
      (patience : ℕ) (s s' : Session) → wait_ready hw b cs_addr patience s ≡ ok s' → Polls s s'
  unfolding wait_ready
  wait_ready-Polls zero s s' h = absurd (cc h)
  wait_ready-Polls (suc patience) s s' h = elim (Option-cases (flash_read_status hw b cs_addr s)) [
    | inl e ↦
        let fails : wait_ready hw b cs_addr (suc patience) s ≡ abort = rw (wait_ready, e) refl in
        absurd (cc (sym fails ∙ h))
    | inr (r, e) ↦ elim (Bool-cases (nonzero (bit_and r.1 flash_wip))) [
      | inl on ↦
          let again : wait_ready hw b cs_addr (suc patience) s
              ≡ wait_ready hw b cs_addr patience r.0 =
            rw (wait_ready, e, on) refl in
          busy s r.0 s' r.1 e (ground (arith, on))
            (wait_ready-Polls patience r.0 s' (sym again ∙ h))
      | inr off ↦
          let done : wait_ready hw b cs_addr (suc patience) s ≡ ok r.0 =
            rw (wait_ready, e, off) refl in
          let here : r.0 ≡ s' = cc (sym done ∙ h) in
          clear s s' r.1 (e ∙ ap (λ s. some (s, r.1)) here) (ground (arith, off))
    ]
  ]
