-- ===== src/Dma/Engine.antt =====
-- The state that a sequence of writes leaves one DMA engine in, read off the registers' names and
-- the comments of the driver: size and parameters, low address word, then the write strobe with
-- the high address word, which appends a descriptor. It is the yardstick for the driver's writes.
use litepcie_ptm_test.Base.{ℕ, ◌+◌, ◌-◌, ◌*◌, ◌/◌, ◌%◌, ◌^◌, List, [], ◌∷◌, ◌==◌, if◌then◌else◌}
use litepcie_ptm_test.Config.{Regs}
use litepcie_ptm_test.Bus.{Trace, rd, wr}

-- `irq` and `last` are 1 where the descriptor asks for an interrupt, or for a last flag.
pub record Descriptor : Type 0 where
  pub addr : ℕ
  pub size : ℕ
  pub irq : ℕ
  pub last : ℕ

pub record Engine : Type 0 where
  pub enabled : ℕ
  pub looping : ℕ
  pub value : ℕ
  pub lsb : ℕ
  pub table : List Descriptor

abbrev pub power_up : Engine
power_up = record { enabled = 0; looping = 0; value = 0; lsb = 0; table = [] }

abbrev pub descriptor : ℕ → ℕ → ℕ → Descriptor
descriptor value lsb msb = record {
  addr = msb * 2 ^ 32 + lsb;
  size = value % 2 ^ 24;
  irq = 1 - value / 2 ^ 24 % 2;
  last = 1 - value / 2 ^ 25 % 2;
}

module _ (r : Regs) (base : ℕ) where
  unfoldable pub on_write : ℕ → ℕ → Engine → Engine
  on_write addr val e =
      if addr == base + r.enable
      then record e { enabled = val }
      else if addr == base + r.table_value
      then record e { value = val }
      else if addr == base + r.table_value + 4
      then record e { lsb = val }
      else if addr == base + r.table_we
      then record e { table = descriptor e.value e.lsb val ∷ e.table }
      else if addr == base + r.table_loop_prog_n
      then record e { looping = val }
      else if addr == base + r.table_flush
      then record e { table = [] }
      else e

  -- The newest descriptor stands first.
  unfoldable pub engine : Trace → Engine
  engine [] = power_up
  engine (rd addr val ∷ t) = engine t
  engine (wr addr val ∷ t) = on_write addr val (engine t)
