-- ===== src/Tests/Ptp.antt =====
-- The clock and the PTM requester at concrete inputs.
use litepcie_ptm_test.Base.{
  ℕ, ◌+◌, ◌-◌, ◌*◌, ◌/◌, ◌%◌, ◌^◌, ◌<◌, ◌≡◌, ◌↔◌, arith, [], ◌∷◌, ◌==◌, inr, ltb, if◌then◌else◌,
}
use litepcie_ptm_test.Config.{ptm_t1_time_h, ptm_t1_time_l}
use litepcie_ptm_test.Bus.{Trace, Hw, rd}
use litepcie_ptm_test.File.{Ret}
use litepcie_ptm_test.Ptp.{Timespec, TimeApi, Ptm, adjtime, get_syncdevicetime, prepare_ptm}
use litepcie_ptm_test.Ptp.Generator.{generator}
use litepcie_ptm_test.Ptp.Clock.{AddsTimes, adjtime_shifts}
use litepcie_ptm_test.Ptp.Sync.{Ends, get_syncdevicetime-Ends, prepare_ptm_swaps}

-- Conversions like the kernel's, on the bit patterns of signed numbers.
abbrev from_ns : ℕ → Timespec
from_ns n =
    if ltb n (2 ^ 63)
    then record { tv_sec = n / 1000000000; tv_nsec = n % 1000000000 }
    else record {
      tv_sec = 2 ^ 64 - 1 - (2 ^ 64 - 1 - n) / 1000000000;
      tv_nsec = 999999999 - (2 ^ 64 - 1 - n) % 1000000000;
    }

abbrev total : Timespec → ℕ
total ts = ts.tv_sec * 1000000000 + ts.tv_nsec

abbrev add_times : Timespec → Timespec → Timespec
add_times a b =
    if ltb (a.tv_nsec + b.tv_nsec) 1000000000
    then record { tv_sec = a.tv_sec + b.tv_sec; tv_nsec = a.tv_nsec + b.tv_nsec }
    else record { tv_sec = a.tv_sec + b.tv_sec + 1; tv_nsec = a.tv_nsec + b.tv_nsec - 1000000000 }

abbrev api : TimeApi
api = record {
  ns_to_timespec64 = from_ns;
  timespec64_to_ns = λ ts. total ts % 2 ^ 64;
  timespec64_add = add_times;
}

total-from_ns : (n : ℕ) → n < 2 ^ 64 → total (from_ns n) % 2 ^ 64 ≡ n
total-from_ns n h = ground arith

total-add : (a b : Timespec) → total (add_times a b) ≡ total a + total b
total-add a b = ground arith

api-AddsTimes : AddsTimes api
api-AddsTimes = record {
  adds = λ now delta a d b.
      let delta_fits : delta < 2 ^ 64 = omega (arith, d) in
      let x = total-from_ns now (omega (arith, a)) in
      let y = total-from_ns delta delta_fits in
      rw (total-add (from_ns now) (from_ns delta)) (omega (arith, x, y));
}

-- A device whose two time words are 1 and 7.
abbrev clock : Hw
clock t addr = if addr == 0x3804 then 1 else 7

-- The clock goes back by 3 ns.
adjtime_shifts_example :
    let (ret, t') = adjtime clock api (2 ^ 64 - 3) [] in
    (ret ≡ Ret.done 0) × ((generator t').loaded ≡ (2 ^ 32 + 4) ∷ (generator []).loaded)
adjtime_shifts_example =
    adjtime_shifts clock api (2 ^ 64 - 3) [] api-AddsTimes (inr (omega arith, omega arith))
      (omega arith) (omega arith)

abbrev previous : Ptm
previous = record { t1_prev = 1000; t4_prev = 1900 }

get_syncdevicetime-Ends_example :
    let (ret, stamp, dev', t') = get_syncdevicetime clock (λ n. n) (λ n. n) previous [] in
    Ends (λ n. n) (λ n. n) previous [] ret stamp dev' t'
get_syncdevicetime-Ends_example = get_syncdevicetime-Ends clock (λ n. n) (λ n. n) previous []

prepare_ptm_swaps_example :
    let (dev, t') = prepare_ptm clock [] in
    (low high : ℕ) × (before : Trace) × (t' ≡ rd ptm_t1_time_h high ∷ rd ptm_t1_time_l low ∷ before)
    × (dev.t1_prev ≡ high * 2 ^ 32 + low ↔ high ≡ low)
prepare_ptm_swaps_example = prepare_ptm_swaps clock []
