-- ===== src/User/Flash/Program/Pages.antt =====
-- software/user/liblitepcie/litepcie_flash.c: the loop of `litepcie_flash_write` over the pages ends,
-- and what its result says.
use litepcie_ptm_test.Base.{
  ℕ, zero, suc, Bool, true, false, ◌+◌, ◌-◌, ◌*◌, ◌^◌, ◌<◌, ◌≤◌, ◌≡◌, refl, some, arith, ltb,
  ltb→lt, Bool-cases, inl, inr, ◌⊎◌, ◌∙◌, List,
}
use litepcie_ptm_test.Base.Word.{u32}
use litepcie_ptm_test.Bus.{Hw}
use litepcie_ptm_test.File.Request.{FlashCsr, Build, Session}
use litepcie_ptm_test.User.Flash.Returns.{
  flash_write_enable-Goes, flash_write_disable-Goes, flash_write_buffer-Goes,
  flash_read_buffer-Reads,
}
use litepcie_ptm_test.User.Flash.{
  flash_retries, flash_write_enable, flash_write_disable, flash_write_buffer, flash_read_buffer,
}
use litepcie_ptm_test.User.Flash.Program.Compare.{Compared, same_bytes-Compared}
use litepcie_ptm_test.User.Flash.Program.Waits.{Polls, wait_ready-Polls}
use litepcie_ptm_test.User.Flash.Program.{ok, wait_ready, try_page, page_loop, same_bytes}

module _ (hw : Hw) (b : Build) (cs_addr : ℕ) (patience base : ℕ) (buf : ℕ → ℕ) where
  -- The flash becomes ready within the patience of the program, whenever it is asked.
  abbrev pub Settles : Type 0
  Settles = (s : Session) → (s' : Session) × (wait_ready hw b cs_addr patience s ≡ ok s')

  -- A try at a page, before and after, with its outcome: the flash is polled until ready, writes are enabled, the
  -- bytes of the buffer are sent to the page, writes are disabled, the flash is ready again, and the
  -- page is read back; the outcome says whether what was read back is what was sent.
  pub record Tried (page_size i : ℕ) (right : Bool) (s s' : Session) : Type 0 where
    pub ready : Session
    pub enabled : Session
    pub sent : Session
    pub disabled : Session
    pub settled : Session
    pub cmp_buf : List ℕ
    pub waits : Polls hw b cs_addr s ready
    pub enables : flash_write_enable hw b cs_addr ready ≡ some enabled
    pub sends : flash_write_buffer hw b cs_addr (u32 (base + i)) buf i page_size enabled ≡ some sent
    pub disables : flash_write_disable hw b cs_addr sent ≡ some disabled
    pub waits_again : Polls hw b cs_addr disabled settled
    pub reads :
        flash_read_buffer hw b cs_addr (u32 (base + i)) page_size settled ≡ some (s', cmp_buf)
    pub compares : Compared buf i page_size cmp_buf right
    pub returns : try_page hw b cs_addr patience base buf page_size i s ≡ ok (s', right)

  pub try_page-Tried :
      (csr : FlashCsr)
      → b.flash_csr ≡ some csr
      → Settles
      → ((k : ℕ) → buf k < 2 ^ 8)
      → (page_size i : ℕ) (s : Session)
      → (s' : Session) × (right : Bool) × Tried page_size i right s s'
  unfolding try_page
  try_page-Tried csr has_flash settles small page_size i s =
      let (s1, e1) = settles s in
      let (s2, e2) = flash_write_enable-Goes hw b cs_addr csr has_flash s1 in
      let (s3, e3) =
        flash_write_buffer-Goes hw b cs_addr csr has_flash (u32 (base + i)) buf i page_size s2
          (omega arith) small in
      let (s4, e4) = flash_write_disable-Goes hw b cs_addr csr has_flash s3 in
      let (s5, e5) = settles s4 in
      let (s6, cmp_buf, e6, all) =
        flash_read_buffer-Reads hw b cs_addr csr has_flash (u32 (base + i)) page_size s5
          (omega arith) in
      (
        s6,
        same_bytes buf i cmp_buf,
        record {
          ready = s1;
          enabled = s2;
          sent = s3;
          disabled = s4;
          settled = s5;
          cmp_buf = cmp_buf;
          waits = wait_ready-Polls hw b cs_addr patience s s1 e1;
          enables = e2;
          sends = e3;
          disables = e4;
          waits_again = wait_ready-Polls hw b cs_addr patience s4 s5 e5;
          reads = e6;
          compares = same_bytes-Compared buf i page_size cmp_buf all;
          returns = rw (e1, e2, e3, e4, e5, e6) refl;
        },
      )

  -- The pages from `i` on are right, one after the other: each of them after tries that failed, `retries` of them before
  -- the first, and never 17 in a row.
  pub data Programmed (size page_size : ℕ) : (i retries : ℕ) → Session → Session → Type 0 where
    complete : (i retries : ℕ) (s : Session) → size ≤ i → Programmed size page_size i retries s s
    page :
        (i retries : ℕ) (s s1 s' : Session)
        → i < size
        → Tried page_size i true s s1
        → Programmed size page_size (i + page_size) 0 s1 s'
        → Programmed size page_size i retries s s'
    again :
        (i retries : ℕ) (s s1 s' : Session)
        → retries < flash_retries
        → Tried page_size i false s s1
        → Programmed size page_size i (retries + 1) s1 s'
        → Programmed size page_size i retries s s'

  -- The 17th try in a row at some page failed.
  pub data GivenUp (size page_size : ℕ) : (i retries : ℕ) → Session → Session → Type 0 where
    last_try :
        (i : ℕ) (s s' : Session)
        → i < size
        → Tried page_size i false s s'
        → GivenUp size page_size i flash_retries s s'
    later_page :
        (i retries : ℕ) (s s1 s' : Session)
        → i < size
        → Tried page_size i true s s1
        → GivenUp size page_size (i + page_size) 0 s1 s'
        → GivenUp size page_size i retries s s'
    one_more_try :
        (i retries : ℕ) (s s1 s' : Session)
        → retries < flash_retries
        → Tried page_size i false s s1
        → GivenUp size page_size i (retries + 1) s1 s'
        → GivenUp size page_size i retries s s'

  -- How the loop ends.
  abbrev pub Ends : (rounds size page_size i retries : ℕ) → Session → Type 0
  Ends rounds size page_size i retries s =
      (s' : Session) × ((page_loop hw b cs_addr rounds patience base buf size page_size i retries s
            ≡ ok (s', 0))
          × Programmed size page_size i retries s s'
        ⊎ (page_loop hw b cs_addr rounds patience base buf size page_size i retries s ≡ ok (s', 1))
          × GivenUp size page_size i retries s s')

  -- The steps of the loop.
  module _ (rounds size page_size i retries : ℕ) (s s1 : Session) where
    on_right :
        ltb i size ≡ true
        → Tried page_size i true s s1
        → page_loop hw b cs_addr (suc rounds) patience base buf size page_size i retries s
          ≡ page_loop hw b cs_addr rounds patience base buf size page_size
              (u32 (i + page_size))
              0
              s1
    unfolding page_loop
    on_right more tried = rw (page_loop, more, tried.returns)

    on_wrong :
        ltb i size ≡ true
        → Tried page_size i false s s1
        → ltb flash_retries (retries + 1) ≡ false
        → page_loop hw b cs_addr (suc rounds) patience base buf size page_size i retries s
          ≡ page_loop hw b cs_addr rounds patience base buf size page_size i (retries + 1) s1
    unfolding page_loop
    on_wrong more tried few = rw (page_loop, more, tried.returns) (cc few)

    on_last :
        ltb i size ≡ true
        → Tried page_size i false s s1
        → ltb flash_retries (retries + 1) ≡ true
        → page_loop hw b cs_addr (suc rounds) patience base buf size page_size i retries s
          ≡ ok (s1, 1)
    unfolding page_loop
    on_last more tried many = rw (page_loop, more, tried.returns) (cc many)

  -- The end of the loop after one more step.
  Ends-right :
      (rounds size page_size i retries : ℕ) (s s1 : Session)
      → ltb i size ≡ true
      → i + page_size < 2 ^ 32
      → Tried page_size i true s s1
      → Ends rounds size page_size (i + page_size) 0 s1
      → Ends (suc rounds) size page_size i retries s
  Ends-right rounds size page_size i retries s s1 more fits tried (s', inl (e, done)) =
      let same : u32 (i + page_size) ≡ i + page_size = omega arith in
      let step = on_right rounds size page_size i retries s s1 more tried in
      (s', inl (step ∙ rw same e, page i retries s s1 s' (ltb→lt i size more) tried done))
  Ends-right rounds size page_size i retries s s1 more fits tried (s', inr (e, up)) =
      let same : u32 (i + page_size) ≡ i + page_size = omega arith in
      let step = on_right rounds size page_size i retries s s1 more tried in
      (s', inr (step ∙ rw same e, later_page i retries s s1 s' (ltb→lt i size more) tried up))

  Ends-wrong :
      (rounds size page_size i retries : ℕ) (s s1 : Session)
      → ltb i size ≡ true
      → retries < flash_retries
      → Tried page_size i false s s1
      → Ends rounds size page_size i (retries + 1) s1
      → Ends (suc rounds) size page_size i retries s
  Ends-wrong rounds size page_size i retries s s1 more few tried (s', inl (e, done)) =
      let step = on_wrong rounds size page_size i retries s s1 more tried (ground arith) in
      (s', inl (step ∙ e, again i retries s s1 s' few tried done))
  Ends-wrong rounds size page_size i retries s s1 more few tried (s', inr (e, up)) =
      let step = on_wrong rounds size page_size i retries s s1 more tried (ground arith) in
      (s', inr (step ∙ e, one_more_try i retries s s1 s' few tried up))

  module _ (csr : FlashCsr) (has_flash : b.flash_csr ≡ some csr) (settles : Settles)
      (small : (k : ℕ) → buf k < 2 ^ 8) where
    page_loop-Ends-from :
        (rounds size page_size i retries : ℕ) (s : Session)
        → 0 < page_size
        → page_size ≤ 256
        → size ≤ 2 ^ 31
        → retries ≤ flash_retries
        → 17 * (size - i) + 17 ≤ rounds + retries
        → Ends rounds size page_size i retries s
    unfolding page_loop
    page_loop-Ends-from zero size page_size i retries s pos page_fits fits few enough =
        absurd (omega arith)
    page_loop-Ends-from (suc rounds) size page_size i retries s pos page_fits fits few enough =
        elim (Bool-cases (ltb i size)) [
          | inr over ↦ (s, inl (rw (page_loop, over) refl, complete i retries s (ground arith)))
          | inl more ↦
              let inside = ltb→lt i size more in
              let (s1, right, tried) = try_page-Tried csr has_flash settles small page_size i s in
              (elim right
                  as (λ right.
                    Tried page_size i right s s1 → Ends (suc rounds) size page_size i retries s) [
                      | true ↦ λ tried.
                          Ends-right rounds size page_size i retries s s1 more (omega arith) tried (
                            page_loop-Ends-from rounds size page_size (i + page_size) 0 s1 pos
                              page_fits fits (omega arith) (omega arith))
                      | false ↦ λ tried. elim (Bool-cases (ltb retries flash_retries)) [
                        | inl left ↦
                            Ends-wrong rounds size page_size i retries s s1 more (ltb→lt _ _ left)
                              tried
                              (page_loop-Ends-from rounds size page_size i (retries + 1) s1 pos
                                page_fits fits (ground arith) (omega arith))
                        | inr none_left ↦
                            let full : retries ≡ flash_retries = ground arith in
                            let step =
                              on_last rounds size page_size i retries s s1 more tried
                                (ground arith) in
                            (s1, inr (step, rw full (last_try i s s1 inside tried)))
                      ]
                    ])
                tried
        ]

    -- The loop of `litepcie_flash_write` over the pages, in a build with a flash that becomes ready
    -- whenever it is waited for, for up to 2 ^ 31 bytes in pages of 1 to 256: it ends, within 17
    -- rounds for each byte and 17 more. In each try the bytes of the page are sent to the flash, with
    -- writes enabled, and the page is read back. The result is 0 if for every page, in order, the
    -- bytes read back were those of the buffer after at most 16 tries in a row in which they were not,
    -- and 1 if at some page they were not in 17 tries in a row.
    pub page_loop-Ends :
        (size page_size : ℕ) (s : Session)
        → 0 < page_size
        → page_size ≤ 256
        → size ≤ 2 ^ 31
        → Ends (17 * size + 17) size page_size 0 0 s
    page_loop-Ends size page_size s pos page_fits fits =
        page_loop-Ends-from (17 * size + 17) size page_size 0 0 s pos page_fits fits (omega arith)
          (omega arith)
