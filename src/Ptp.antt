-- ===== src/Ptp.antt =====
-- software/kernel/main.c: the PTP clock of the device and the PTM requester. The kernel's time
-- conversions are parameters. A time in ns is the bit pattern of its 64-bit integer. In a C
-- expression that reads two registers the left one is read first.
pub mod Generator
pub mod Clock
pub mod Dialog
pub mod Sync
use litepcie_ptm_test.Base.{
  ℕ, zero, suc, Bool, ◌+◌, Option, none, some, ◌==◌, if◌then◌else◌, bit_and, bit_or,
}
use litepcie_ptm_test.Base.Word.{sub64, ◌<<<◌, ◌>>>◌}
use litepcie_ptm_test.Config.{
  csr_time_generator_control_addr, time_control_write_time_l, time_control_write_time_h,
  time_control_read_time_l, time_control_read_time_h, time_control_enable, time_control_read,
  time_control_write, csr_ptm_requester_control_addr, csr_ptm_requester_status_addr,
  csr_ptm_requester_link_delay_addr, csr_ptm_requester_t4_time_addr, ptm_control_enable,
  ptm_control_trigger, ptm_status_busy, ptm_t1_time_l, ptm_t1_time_h, ptm_master_time_l,
  ptm_master_time_h,
}
use litepcie_ptm_test.Bus.{Trace, Hw, readl, writel}
use litepcie_ptm_test.File.{Ret, Errno}

-- `struct timespec64`
pub record Timespec : Type 0 where
  pub tv_sec : ℕ
  pub tv_nsec : ℕ

-- The functions of the kernel that the clock calls.
pub record TimeApi : Type 0 where
  pub ns_to_timespec64 : ℕ → Timespec
  pub timespec64_to_ns : Timespec → ℕ
  pub timespec64_add : Timespec → Timespec → Timespec

-- The fields of `struct litepcie_device` that outlive a PTM request.
pub record Ptm : Type 0 where
  pub t1_prev : ℕ
  pub t4_prev : ℕ

-- What a crosstimestamp hands back: the device's time and the system's counter.
pub record Stamp {ℓ} (Ktime Counter : Type ℓ) : Type ℓ where
  pub device : Ktime
  pub system : Counter

-- `litepcie_ptp_adjfine`
unfoldable pub adjfine : ℕ → Ret
adjfine scaled_ppm = if scaled_ppm == 0 then Ret.done 0 else Ret.fail Errno.eopnotsupp

-- `litepcie_ptp_enable`
abbrev pub ptp_enable : Ret
ptp_enable = Ret.fail Errno.eopnotsupp

-- The PTM Master Time formula, on u64.
abbrev pub master_time : ℕ → Ptm → ℕ → ℕ
master_time t2 dev prop_delay = sub64 t2 (sub64 (sub64 dev.t4_prev dev.t1_prev) prop_delay >>> 1)

module _ (hw : Hw) where
  -- `litepcie_read64`
  unfoldable pub read64 : ℕ → Trace → ℕ × Trace
  read64 addr t =
      let (high, t) = readl hw addr t in
      let (low, t) = readl hw (addr + 4) t in (bit_or (high <<< 32) (bit_and low 0xffffffff), t)

  -- The busy loop on the PTM status, with `count` tries left: what is left of `count` at its end.
  -- The source tests `--count` after each try, so it never starts with 0.
  unfoldable pub ptm_wait : ℕ → Trace → ℕ × Trace
  ptm_wait zero t = (0, t)
  ptm_wait (suc count) t =
      let (reg, t') = readl hw csr_ptm_requester_status_addr t in
      let rest = ptm_wait count t' in
      if bit_and reg ptm_status_busy == 0 then (suc count, t') else rest

  -- The two register words that a 64-bit PTM time is read from, low word first.
  unfoldable pub read_low_high : ℕ → ℕ → Trace → ℕ × Trace
  read_low_high l h t =
      let (low, t) = readl hw l t in let (high, t) = readl hw h t in (bit_or (high <<< 32) low, t)

  -- The end of `litepcie_pci_probe`: it starts the time counter, makes two PTM requests and keeps T1
  -- and T4 for the first crosstimestamp. How the waits end is not looked at.
  unfoldable pub prepare_ptm : Trace → Ptm × Trace
  prepare_ptm t =
      let trigger = bit_or ptm_control_enable ptm_control_trigger in
      let t = writel csr_time_generator_control_addr time_control_enable t in
      let t = writel csr_ptm_requester_control_addr trigger t in
      let (left, t) = ptm_wait 100 t in
      let t = writel csr_ptm_requester_control_addr trigger t in
      let (left, t) = ptm_wait 100 t in
      let (t4, t) = read64 csr_ptm_requester_t4_time_addr t in
      let (first, t) = readl hw ptm_t1_time_l t in
      let (second, t) = readl hw ptm_t1_time_h t in
      (record { t1_prev = bit_or (first <<< 32) second; t4_prev = t4 }, t)

  module _ (api : TimeApi) where
    -- `litepcie_read_time`
    unfoldable pub read_time : Trace → Timespec × Trace
    read_time t =
        let t =
          writel csr_time_generator_control_addr (bit_or time_control_enable time_control_read) t in
        let (high, t) = readl hw time_control_read_time_h t in
        let (low, t) = readl hw time_control_read_time_l t in
        (api.ns_to_timespec64 (bit_or (high <<< 32) (bit_and low 0xffffffff)), t)

    -- `litepcie_write_time`
    unfoldable pub write_time : Timespec → Trace → Trace
    write_time ts t =
        let value = api.timespec64_to_ns ts in
        let t = writel time_control_write_time_l (bit_and (value >>> 0) 0xffffffff) t in
        let t = writel time_control_write_time_h (bit_and (value >>> 32) 0xffffffff) t in
        writel csr_time_generator_control_addr (bit_or time_control_enable time_control_write) t

    -- `litepcie_ptp_gettimex64`, without the two system timestamps around the read
    unfoldable pub gettimex64 : Trace → Ret × Timespec × Trace
    gettimex64 t = let (ts, t) = read_time t in (Ret.done 0, ts, t)

    -- `litepcie_ptp_settime`
    unfoldable pub settime : Timespec → Trace → Ret × Trace
    settime ts t = (Ret.done 0, write_time ts t)

    -- `litepcie_ptp_adjtime`
    unfoldable pub adjtime : ℕ → Trace → Ret × Trace
    adjtime delta t =
        let step = api.ns_to_timespec64 delta in
        let (now, t) = read_time t in
        let now = api.timespec64_add now step in (Ret.done 0, write_time now t)

  module _ {ℓ} {K C : Type ℓ} (ns_to_ktime : ℕ → K) (convert_art_ns_to_tsc : ℕ → C) where
    -- `litepcie_phc_get_syncdevicetime`, on an x86 with a TSC: the result, the stamp, what is kept for
    -- the next request.
    unfoldable pub get_syncdevicetime : Ptm → Trace → Ret × Option (Stamp K C) × Ptm × Trace
    get_syncdevicetime dev t =
        let t =
          writel csr_ptm_requester_control_addr (bit_or ptm_control_enable ptm_control_trigger) t in
        let (count, t) = ptm_wait 100 t in
        if count == 0
        then (Ret.fail Errno.etimedout, none, dev, t)
        else (let (t1_curr, t) = read_low_high ptm_t1_time_l ptm_t1_time_h t in
            let (t2_curr, t) = read_low_high ptm_master_time_l ptm_master_time_h t in
            let (prop_delay, t) = readl hw csr_ptm_requester_link_delay_addr t in
            let ptm_master_time = master_time t2_curr dev prop_delay in
            let (t4, t) = read64 csr_ptm_requester_t4_time_addr t in
            (
              Ret.done 0,
              some (record {
                device = ns_to_ktime t1_curr;
                system = convert_art_ns_to_tsc ptm_master_time;
              }),
              record { t1_prev = t1_curr; t4_prev = t4 },
              t,
            ))
