-- ===== src/Stream/Sent.antt =====
-- software/user/litepcie_test.c, `litepcie_play`: the outer loop.
use litepcie_ptm_test.Base.{
  ℕ, zero, suc, true, false, ◌+◌, ◌<◌, ◌≤◌, ◌≡◌, ◌≢◌, refl, sym, ap, ◌∙◌, List, [], ◌∷◌, ◌++◌, none,
  some, length, subst, arith, if◌then◌else◌,
}
use litepcie_ptm_test.Base.Word.{slt64}
use litepcie_ptm_test.Config.{dma_buffer_size, dma_buffer_count}
use litepcie_ptm_test.Bus.{Hw}
use litepcie_ptm_test.File.Request.{Build, Session}
use litepcie_ptm_test.User.{DmaCtrl, process}
use litepcie_ptm_test.Util.Loopback.Receive.{ring_offset}
use litepcie_ptm_test.Stream.{Playing, play_buffers, Pass, play_loop}
use litepcie_ptm_test.Stream.Passes.{elim-true}
use litepcie_ptm_test.Stream.Fill.{block, further, place_after}
use litepcie_ptm_test.Stream.Play.{further-inside, play_buffers-Played}

-- The buffers from the `j`-th of a ring on, from slot `off`.
pub handed : (ℕ → List ℕ) → (off j n : ℕ) → List (List ℕ)
handed mem off j zero = []
handed mem off j (suc n) = mem (ring_offset off j) ∷ handed mem off (j + 1) n

-- The blocks of the file from the `j`-th after a place on; it starts again after its end.
pub blocks : (file : List ℕ) → (at j n : ℕ) → List (List ℕ)
blocks file at j zero = []
blocks file at j (suc n) = block file (place_after file at j) ∷ blocks file at (j + 1) n

module _ (file : List ℕ) where
  place_after-further :
      (at n j : ℕ) → place_after file (place_after file at n) j ≡ place_after file at (n + j)
  place_after-further at zero j = let e : 0 + j ≡ j = omega arith in rw e refl
  place_after-further at (suc n) j =
      let e : suc n + j ≡ suc (n + j) = omega arith in
      rw e (place_after-further (further file at) n j)

  blocks-further :
      (at n j m : ℕ) → blocks file (place_after file at n) j m ≡ blocks file at (n + j) m
  unfolding blocks
  blocks-further at n j zero = refl
  blocks-further at n j (suc m) =
      let e : n + (j + 1) ≡ n + j + 1 = omega arith in
      rw (place_after-further at n j, blocks-further at n (j + 1) m, e) refl

  blocks-append :
      (at j n m : ℕ) → blocks file at j n ++ blocks file at (j + n) m ≡ blocks file at j (n + m)
  unfolding blocks
  blocks-append at j zero m =
      let (e, e') : (j + 0 ≡ j) × (0 + m ≡ m) = (omega arith, omega arith) in rw (e, e') refl
  blocks-append at j (suc n) m =
      let (e, e') : (suc n + m ≡ suc (n + m)) × (j + suc n ≡ j + 1 + n) =
        (omega arith, omega arith) in
      rw (e, e') (ap (λ l. block file (place_after file at j) ∷ l) (blocks-append at (j + 1) n m))

  handed-blocks :
      (mem : ℕ → List ℕ) (off at total j n : ℕ)
      → ((i : ℕ) → i < total → mem (ring_offset off i) ≡ block file (place_after file at i))
      → j + n ≤ total
      → handed mem off j n ≡ blocks file at j n
  unfolding handed blocks
  handed-blocks mem off at total j zero filled fits = refl
  handed-blocks mem off at total j (suc n) filled fits =
      rw (filled j (omega arith), handed-blocks mem off at total (j + 1) n filled (omega arith))
        refl

  place_after-inside :
      (long : dma_buffer_size ≤ length file) (at n : ℕ)
      → at ≤ length file
      → place_after file at n ≤ length file
  place_after-inside long at zero h = h
  place_after-inside long at (suc n) h =
      place_after-inside long (further file at) n (further-inside file 0 long at h)

-- The statistics at the end of a pass.
abbrev pub after_pass : Pass → Playing → Playing
after_pass w p = record p { sw_underflows = if slt64 200 w.duration then 0 else p.sw_underflows }

module _ (hw : Hw) (b : Build) (file : List ℕ) (loops : ℕ) where
  -- What the passes of a zero-copy program fill the mapped buffers of the ring with: after each of
  -- them, the buffers that were available in it.
  pub sent : List Pass → Playing → Session → List (List ℕ)
  sent [] p s = []
  sent (w ∷ ws) p s = elim (p.keep_running) [
    | false ↦ []
    | true ↦ elim (process hw b w.polled w.read_len w.write_len p.ctrl s) [
      | none ↦ []
      | some r ↦
          elim (play_buffers file loops (r.0.buffers_available_write + 1)
            (record p { ctrl = r.0 })) [
              | none ↦ []
              | some q ↦
                  handed q.buf_wr r.0.usr_write_buf_offset 0 r.0.buffers_available_write
                  ++ sent ws (after_pass w q) r.1
            ]
    ]
  ]

  -- The passes of a zero-copy program from a state and a session on, in which `litepcie_dma_process` succeeds, up to one
  -- that finds `keep_running` cleared; how many buffers it makes available in them, and the last
  -- session.
  pub data Plays : List Pass → Playing → Session → ℕ → Session → Type 0 where
    over : {p : Playing} {s : Session} → Plays [] p s 0 s
    stopped :
        {ws : List Pass} {p : Playing} {s : Session} → p.keep_running ≡ false → Plays ws p s 0 s
    plays :
        {ws : List Pass} {p : Playing} {s s1 s' : Session} {n : ℕ} (w : Pass) (c : DmaCtrl)
        → p.keep_running ≡ true
        → process hw b w.polled w.read_len w.write_len p.ctrl s ≡ some (c, s1)
        → c.zero_copy ≢ 0
        → c.buffers_available_write ≤ dma_buffer_count
        → c.usr_write_buf_offset < dma_buffer_count
        → ((q : Playing)
            → play_buffers file loops (c.buffers_available_write + 1) (record p { ctrl = c })
              ≡ some q
            → Plays ws (after_pass w q) s1 n s')
        → Plays (w ∷ ws) p s (c.buffers_available_write + n) s'

  both_stopped :
      (ws : List Pass) (p : Playing) (s : Session)
      → p.keep_running ≡ false
      → (play_loop hw b file loops ws p s ≡ some (p, s)) × (sent ws p s ≡ [])
  unfolding play_loop sent
  both_stopped [] p s e = (refl, refl)
  both_stopped (w ∷ ws) p s e = (rw e refl, rw e refl)

  both_next :
      (w : Pass) (ws : List Pass) (p q : Playing) (s s1 : Session) (c : DmaCtrl)
      → p.keep_running ≡ true
      → process hw b w.polled w.read_len w.write_len p.ctrl s ≡ some (c, s1)
      → play_buffers file loops (c.buffers_available_write + 1) (record p { ctrl = c }) ≡ some q
      → (play_loop hw b file loops (w ∷ ws) p s ≡ play_loop hw b file loops ws (after_pass w q) s1)
        × (sent (w ∷ ws) p s
            ≡ handed q.buf_wr c.usr_write_buf_offset 0 c.buffers_available_write
              ++ sent ws (after_pass w q) s1)
  unfolding play_loop sent
  both_next w ws p q s s1 c on processed runs = (
    elim-true p.keep_running _ _ on ∙ rw (processed, runs) refl,
    elim-true p.keep_running _ _ on ∙ rw (processed, runs) refl,
  )

  -- The outer loop of a zero-copy `litepcie_play` of a file of at least 8192 bytes, in a memory of whole buffers
  -- and from a place inside the file, over passes in which `litepcie_dma_process` succeeds and makes
  -- at most the ring's buffers available, and which end or meet one that finds `keep_running`
  -- cleared: it returns, and what it fills the mapped buffers with in all passes together is the file from that
  -- place on in blocks of 8192 bytes, starting again right after its last byte, with no byte twice and
  -- none left out; the place in the file is the one after the last of them.
  pub play_loop_lem :
      (ws : List Pass) (p : Playing) (s s' : Session) (n : ℕ)
      → Plays ws p s n s'
      → dma_buffer_size ≤ length file
      → p.at ≤ length file
      → ((slot : ℕ) → length (p.buf_wr slot) ≡ dma_buffer_size)
      → (p' : Playing) × (play_loop hw b file loops ws p s ≡ some (p', s'))
        × (p'.at ≡ place_after file p.at n)
        × (sent ws p s ≡ blocks file p.at 0 n)
  unfolding play_loop sent blocks
  play_loop_lem _ p s _ _ over long inside whole = (p, refl, refl, refl)
  play_loop_lem ws p s _ _ (stopped e) long inside whole =
      let (loops_end, none_sent) = both_stopped ws p s e in (p, loops_end, refl, none_sent)
  play_loop_lem _ p s s' _
        (plays {ws = ws} {s1 = s1} {n = n} w c on processed mapped room slot rest) long inside
        whole =
      let k = c.buffers_available_write in
      let (q, runs, played) =
        play_buffers-Played file loops long (k + 1) (record p { ctrl = c }) (omega arith) room slot
          inside whole in
      let here =
        subst (λ a. a ≤ length file) (sym played.place)
          (place_after-inside file long p.at k inside) in
      let (p', loops_end, place, log) =
        play_loop_lem ws (after_pass w q) s1 s' n (rest q runs) long here played.whole in
      let (next, next_sent) = both_next w ws p q s s1 c on processed runs in
      let same_start : k + 0 ≡ 0 + k = omega arith in
      let first =
        handed-blocks file q.buf_wr c.usr_write_buf_offset p.at k 0 k played.filled (omega arith) in
      (
        p',
        next ∙ loops_end,
        place ∙ ap (λ a. place_after file a n) played.place ∙ place_after-further file p.at k n,
        next_sent
            ∙ ap (λ l. l ++ sent ws (after_pass w q) s1) first
            ∙ ap (λ l. blocks file p.at 0 k ++ l)
                (log
                  ∙ ap (λ a. blocks file a 0 n) played.place
                  ∙ blocks-further file p.at k 0 n
                  ∙ ap (λ j. blocks file p.at j n) same_start)
            ∙ blocks-append file p.at 0 k n,
      )
