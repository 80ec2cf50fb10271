-- ===== src/Ptp/Generator.antt =====
-- The times that a sequence of register writes loads into the time generator, read off the names of
-- its registers: a write of the control word with the write bit loads the 64 bits that its two
-- time registers hold. It is the yardstick for the driver's writes.
use litepcie_ptm_test.Base.{ℕ, ◌+◌, ◌*◌, ◌^◌, List, [], ◌∷◌, ◌==◌, if◌then◌else◌}
use litepcie_ptm_test.Base.Bits.{bit}
use litepcie_ptm_test.Config.{
  csr_time_generator_control_addr, time_control_write_time_l, time_control_write_time_h,
}
use litepcie_ptm_test.Bus.{Trace, rd, wr}

-- The newest loaded time stands first. `control` is the last control word.
pub record Generator : Type 0 where
  pub low : ℕ
  pub high : ℕ
  pub control : ℕ
  pub loaded : List ℕ

unfoldable pub clock_write : ℕ → ℕ → Generator → Generator
clock_write addr val g =
    if addr == time_control_write_time_l
    then record g { low = val }
    else if addr == time_control_write_time_h
    then record g { high = val }
    else if addr == csr_time_generator_control_addr
    then record g {
      control = val;
      loaded = if bit 2 val == 1 then (g.high * 2 ^ 32 + g.low) ∷ g.loaded else g.loaded;
    }
    else g

unfoldable pub generator : Trace → Generator
generator [] = record { low = 0; high = 0; control = 0; loaded = [] }
generator (rd addr val ∷ t) = generator t
generator (wr addr val ∷ t) = clock_write addr val (generator t)
