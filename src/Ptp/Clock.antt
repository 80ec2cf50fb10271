-- ===== src/Ptp/Clock.antt =====
-- software/kernel/main.c: reading, setting and shifting the clock.
use litepcie_ptm_test.Base.{ℕ, ◌≡◌, refl, ◌∙◌, ap, ◌+◌, ◌-◌, ◌*◌, ◌%◌, ◌^◌, ◌<◌, ◌∷◌, arith, ◌⊎◌}
use litepcie_ptm_test.Base.Halves.{u32-bound, low_half, high_half, join_masked}
use litepcie_ptm_test.Base.Word.{u32}
use litepcie_ptm_test.Config.{
  csr_time_generator_control_addr, time_control_read_time_l, time_control_read_time_h,
  time_control_enable, time_control_read,
}
use litepcie_ptm_test.Bus.{Trace, Hw, rd, wr}
use litepcie_ptm_test.File.{Ret}
use litepcie_ptm_test.Ptp.{Timespec, TimeApi, read_time, write_time, gettimex64, settime, adjtime}
use litepcie_ptm_test.Ptp.Generator.{generator, clock_write}

-- The accesses of reading the clock: the control word with the read bit, then the time, high word
-- first.
abbrev pub asked : Trace → Trace
asked t = wr csr_time_generator_control_addr (time_control_enable + time_control_read) ∷ t

abbrev pub high_word : Hw → Trace → ℕ
high_word hw t = u32 (hw (asked t) time_control_read_time_h)

abbrev pub high_read : Hw → Trace → Trace
high_read hw t = rd time_control_read_time_h (high_word hw t) ∷ asked t

abbrev pub low_word : Hw → Trace → ℕ
low_word hw t = u32 (hw (high_read hw t) time_control_read_time_l)

abbrev pub clock_read : Hw → Trace → Trace
clock_read hw t = rd time_control_read_time_l (low_word hw t) ∷ high_read hw t

-- The 64-bit time that the device answers to them.
abbrev pub clock_value : Hw → Trace → ℕ
clock_value hw t = high_word hw t * 2 ^ 32 + low_word hw t

-- The times in ns that the kernel's conversions keep exactly: KTIME_SEC_MAX seconds, from where
-- timespec64_to_ns answers KTIME_MAX.
abbrev pub ns_limit : ℕ
ns_limit = 9223372036 * 1000000000

-- What the conversions do on the way of an adjustment that stays within the limit. `delta` is the
-- bit pattern of a signed number.
pub record AddsTimes (api : TimeApi) : Type 0 where
  pub adds :
      (now delta : ℕ)
      → now < ns_limit
      → (delta < ns_limit) ⊎ ((2 ^ 64 - ns_limit < delta) × (delta < 2 ^ 64))
      → (now + delta) % 2 ^ 64 < ns_limit
      → api.timespec64_to_ns
          (api.timespec64_add (api.ns_to_timespec64 now) (api.ns_to_timespec64 delta))
        ≡ (now + delta) % 2 ^ 64

module _ (hw : Hw) (api : TimeApi) where
  read_time_lem :
      (t : Trace) → read_time hw api t ≡ (api.ns_to_timespec64 (clock_value hw t), clock_read hw t)
  unfolding read_time
  read_time_lem t =
      ap (λ n. (api.ns_to_timespec64 n, clock_read hw t))
        (join_masked (high_word hw t) (low_word hw t) (u32-bound _) (u32-bound _))

  write_time_loads :
      (ts : Timespec) (t : Trace)
      → api.timespec64_to_ns ts < 2 ^ 64
      → (generator (write_time hw api ts t)).loaded ≡ api.timespec64_to_ns ts ∷ (generator t).loaded
  unfolding write_time generator clock_write
  write_time_loads ts t w =
      let v = api.timespec64_to_ns ts in
      rw (low_half v w, high_half v w) (ap (λ n. n ∷ (generator t).loaded) (omega arith))

  read_time_generator : (t : Trace) → (generator (clock_read hw t)).loaded ≡ (generator t).loaded
  unfolding generator clock_write
  read_time_generator t = refl

  -- `litepcie_ptp_settime` succeeds and loads the time, as the 64-bit number of ns that the kernel
  -- converts it to, into the clock: the newest loaded time is that number and no other time is
  -- loaded.
  pub settime_loads :
      (ts : Timespec) (t : Trace)
      → api.timespec64_to_ns ts < 2 ^ 64
      → let (ret, t') = settime hw api ts t in
        (ret ≡ Ret.done 0)
        × ((generator t').loaded ≡ api.timespec64_to_ns ts ∷ (generator t).loaded)
  unfolding settime
  settime_loads ts t w = (refl, write_time_loads ts t w)

  -- `litepcie_ptp_gettimex64` asks for the time with the control word, reads its high and its low
  -- half, and gives back the 64-bit number that they make, converted; it loads no time.
  pub gettimex64_reads :
      (t : Trace)
      → (gettimex64 hw api t
          ≡ (Ret.done 0, api.ns_to_timespec64 (clock_value hw t), clock_read hw t))
        × ((generator (clock_read hw t)).loaded ≡ (generator t).loaded)
  unfolding gettimex64
  gettimex64_reads t = (ap (λ r. (Ret.done 0, r.0, r.1)) (read_time_lem t), read_time_generator t)

  -- `litepcie_ptp_adjtime` reads the clock and loads the time that it read plus `delta`, provided
  -- that the time read, `delta` as a signed number and the sum stay within what the kernel's
  -- conversions keep; it succeeds and loads nothing else.
  pub adjtime_shifts :
      (delta : ℕ) (t : Trace)
      → AddsTimes api
      → (delta < ns_limit) ⊎ ((2 ^ 64 - ns_limit < delta) × (delta < 2 ^ 64))
      → clock_value hw t < ns_limit
      → (clock_value hw t + delta) % 2 ^ 64 < ns_limit
      → let (ret, t') = adjtime hw api delta t in
        (ret ≡ Ret.done 0)
        × ((generator t').loaded ≡ (clock_value hw t + delta) % 2 ^ 64 ∷ (generator t).loaded)
  unfolding adjtime
  adjtime_shifts delta t laws d a b =
      let now = clock_value hw t in
      let sum = laws.adds now delta a d b in
      let then_ts = api.timespec64_add (api.ns_to_timespec64 now) (api.ns_to_timespec64 delta) in
      let l = write_time_loads then_ts (clock_read hw t) (omega (arith, sum, b)) in
      let m = read_time_generator t in (refl, rw (read_time_lem t) (l ∙ rw (sum, m) refl))
