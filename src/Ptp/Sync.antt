-- ===== src/Ptp/Sync.antt =====
-- software/kernel/main.c: `litepcie_phc_get_syncdevicetime` and its preparation in the probe.
use litepcie_ptm_test.Base.{
  ℕ, ◌≡◌, ◌↔◌, refl, ◌∙◌, ap, ◌+◌, ◌-◌, ◌*◌, ◌/◌, ◌^◌, ◌<◌, ◌≤◌, ◌∷◌, Option, none, some, arith,
  inl, inr, bit_or, ◌==◌, Bool-cases,
}
use litepcie_ptm_test.Base.Halves.{u32-bound, join}
use litepcie_ptm_test.Base.Word.{◌<<<◌}
use litepcie_ptm_test.Config.{
  csr_ptm_requester_control_addr, ptm_control_enable, ptm_control_trigger, ptm_t1_time_l,
  ptm_t1_time_h, ptm_master_time_l, ptm_master_time_h, csr_ptm_requester_link_delay_addr,
  csr_ptm_requester_t4_time_addr,
}
use litepcie_ptm_test.Bus.{Trace, Hw, rd, wr, readl}
use litepcie_ptm_test.File.{Ret, Errno}
use litepcie_ptm_test.Ptp.{
  Ptm, Stamp, ptm_wait, read_low_high, master_time, get_syncdevicetime, prepare_ptm,
}
use litepcie_ptm_test.Ptp.Dialog.{
  Tries, Waited, answered, exhausted, Words, ptm_wait-Waited, read64_lem, read_low_high_lem,
}

-- A PTM request.
abbrev pub triggered : Trace → Trace
triggered t = wr csr_ptm_requester_control_addr (ptm_control_enable + ptm_control_trigger) ∷ t

-- The register accesses of one answered dialog, and the four values that they give.
pub record Dialog (before after : Trace) (t1 t2 delay t4 : ℕ) : Type 0 where
  pub t1_high : ℕ
  pub t1_low : ℕ
  pub t2_high : ℕ
  pub t2_low : ℕ
  pub t4_high : ℕ
  pub t4_low : ℕ
  pub t1_words : Words t1_high t1_low t1
  pub t2_words : Words t2_high t2_low t2
  pub t4_words : Words t4_high t4_low t4
  pub delay_word : delay < 2 ^ 32
  pub accesses :
      after
      ≡ rd (csr_ptm_requester_t4_time_addr + 4) t4_low
        ∷ rd csr_ptm_requester_t4_time_addr t4_high
        ∷ rd csr_ptm_requester_link_delay_addr delay
        ∷ rd ptm_master_time_h t2_high
        ∷ rd ptm_master_time_l t2_low
        ∷ rd ptm_t1_time_h t1_high
        ∷ rd ptm_t1_time_l t1_low
        ∷ before

-- How a crosstimestamp ends: after 100 busy reads of the status, with nothing changed; or after a
-- read without the busy bit and a dialog, whose T1 is the device's time and whose T1 and T4 are
-- kept.
pub data Ends {ℓ} {K C : Type ℓ} (ktime : ℕ → K) (counter : ℕ → C) (dev : Ptm) (t : Trace)
    : Ret → Option (Stamp K C) → Ptm → Trace → Type ℓ where
  timed_out :
      (u : Trace)
      → Tries 100 (triggered t) u
      → Ends ktime counter dev t (Ret.fail Errno.etimedout) none dev u
  stamped :
      (left : ℕ) (u after : Trace) (t1 t2 delay t4 : ℕ)
      → 0 < left
      → Waited 100 (triggered t) left u
      → Dialog u after t1 t2 delay t4
      → Ends ktime counter dev t
          (Ret.done 0)
          (some (record { device = ktime t1; system = counter (master_time t2 dev delay) }))
          (record { t1_prev = t1; t4_prev = t4 })
          after

-- The PTM Master Time formula on 64-bit times that are in order, T4 at least the link delay after
-- T1 and half of the rest at most T2: it is exact, nothing wraps around.
pub master_time_exact :
    (t2 delay : ℕ) (dev : Ptm)
    → t2 < 2 ^ 64
    → dev.t4_prev < 2 ^ 64
    → dev.t1_prev + delay ≤ dev.t4_prev
    → (dev.t4_prev - dev.t1_prev - delay) / 2 ≤ t2
    → master_time t2 dev delay ≡ t2 - (dev.t4_prev - dev.t1_prev - delay) / 2
master_time_exact t2 delay dev a b c e = omega arith

all_busy : (count left : ℕ) (t u : Trace) → Waited count t left u → left ≡ 0 → Tries count t u
all_busy count _ t _ (answered n v l u p some_left tries e) z = absurd (omega (arith, some_left, z))
all_busy count _ t _ (exhausted u tries) z = tries

module _ {ℓ} {K C : Type ℓ} (hw : Hw) (ktime : ℕ → K) (counter : ℕ → C) where
  -- `litepcie_phc_get_syncdevicetime` triggers a PTM request and reads the status at most 100 times.
  -- If each of 100 reads has the busy bit it returns ETIMEDOUT, without a stamp and with the values
  -- of the previous dialog kept. Otherwise it returns 0 with the stamp of a dialog that it has read
  -- after that: T1 of this dialog, and the master time from T2, the link delay and the previous
  -- dialog's T1 and T4; it keeps this dialog's T1 and T4.
  pub get_syncdevicetime-Ends :
      (dev : Ptm) (t : Trace)
      → let (ret, stamp, dev', t') = get_syncdevicetime hw ktime counter dev t in
        Ends ktime counter dev t ret stamp dev' t'
  unfolding get_syncdevicetime
  get_syncdevicetime-Ends dev t =
      let (left, u) = ptm_wait hw 100 (triggered t) in
      let w = ptm_wait-Waited hw 100 (triggered t) in
      let (t1, after_t1) = read_low_high hw ptm_t1_time_l ptm_t1_time_h u in
      let (h1, l1, w1, a1) = read_low_high_lem hw ptm_t1_time_l ptm_t1_time_h u in
      let (t2, after_t2) = read_low_high hw ptm_master_time_l ptm_master_time_h after_t1 in
      let (h2, l2, w2, a2) = read_low_high_lem hw ptm_master_time_l ptm_master_time_h after_t1 in
      let (delay, after_delay) = readl hw csr_ptm_requester_link_delay_addr after_t2 in
      let (h4, l4, w4, a4) = read64_lem hw csr_ptm_requester_t4_time_addr after_delay in
      elim (Bool-cases (left == 0)) [
        | inl e ↦ rw e (timed_out u (all_busy 100 left _ u w (ground arith)))
        | inr e ↦ rw e (
            stamped left u _ t1 t2 delay _ (ground arith) w (record {
              t1_high = h1;
              t1_low = l1;
              t2_high = h2;
              t2_low = l2;
              t4_high = h4;
              t4_low = l4;
              t1_words = w1;
              t2_words = w2;
              t4_words = w4;
              delay_word = u32-bound _;
              accesses =
                  a4
                  ∙ ap
                      (λ x.
                        rd (csr_ptm_requester_t4_time_addr + 4) l4
                        ∷ rd csr_ptm_requester_t4_time_addr h4
                        ∷ rd csr_ptm_requester_link_delay_addr delay
                        ∷ x)
                      (a2 ∙ ap (λ x. rd ptm_master_time_h h2 ∷ rd ptm_master_time_l l2 ∷ x) a1);
            }))
      ]

swapped :
    (low high : ℕ)
    → low < 2 ^ 32
    → high < 2 ^ 32
    → bit_or (low <<< 32) high ≡ high * 2 ^ 32 + low ↔ high ≡ low
swapped low high a b =
    let e = join low high a b in (λ h. omega (arith, e, h, a, b), λ h. omega (arith, e, h))

-- The probe keeps as T1 a value with the halves exchanged: it is the 64-bit T1 that the two
-- registers hold exactly if the halves are equal.
pub prepare_ptm_swaps :
    (hw : Hw) (t : Trace)
    → let (dev, t') = prepare_ptm hw t in
      (low high : ℕ) × (before : Trace) × (t'
        ≡ rd ptm_t1_time_h high ∷ rd ptm_t1_time_l low ∷ before)
      × (dev.t1_prev ≡ high * 2 ^ 32 + low ↔ high ≡ low)
unfolding prepare_ptm
prepare_ptm_swaps hw t = (_, _, _, refl, swapped _ _ (u32-bound _) (u32-bound _))
