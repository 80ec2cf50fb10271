-- ===== src/Dma/Program.antt =====
-- The descriptor tables and engine states that the start and stop functions leave behind, read by
-- `Engine.engine`.
use native.Mathlib.Numerals.{add-one}
use litepcie_ptm_test.Base.{
  ℕ, zero, suc, ◌+◌, ◌/◌, ◌%◌, ◌^◌, ◌<◌, ◌≡◌, ◌≢◌, refl, ◌∙◌, ap, List, [], ◌∷◌, ◌==◌,
  if◌then◌else◌, arith, bit_and, Bool-cases, inl, inr,
}
use litepcie_ptm_test.Base.Bits.{bit_and_low}
use litepcie_ptm_test.Base.Word.{u32, ◌>>>◌}
use litepcie_ptm_test.Config.{
  Regs, writer_regs, reader_regs, dma_buffer_count, dma_buffer_per_irq, dma_buffer_size,
}
use litepcie_ptm_test.Bus.{Trace, wr, writel}
use litepcie_ptm_test.Dma.{
  DmaChan, descriptor_value, fill_descriptors, dma_writer_start, dma_writer_stop, dma_reader_start,
  dma_reader_stop,
}
use litepcie_ptm_test.Dma.Engine.{Descriptor, Engine, descriptor, on_write, engine}

-- No two registers of an engine share an offset.
record IsDistinct (r : Regs) : Type 0 where
  enable_value : r.enable ≢ r.table_value
  enable_lsb : r.enable ≢ r.table_value + 4
  enable_we : r.enable ≢ r.table_we
  enable_prog : r.enable ≢ r.table_loop_prog_n
  enable_flush : r.enable ≢ r.table_flush
  value_we : r.table_value ≢ r.table_we
  value_prog : r.table_value ≢ r.table_loop_prog_n
  value_flush : r.table_value ≢ r.table_flush
  lsb_we : r.table_value + 4 ≢ r.table_we
  lsb_prog : r.table_value + 4 ≢ r.table_loop_prog_n
  lsb_flush : r.table_value + 4 ≢ r.table_flush
  we_prog : r.table_we ≢ r.table_loop_prog_n
  we_flush : r.table_we ≢ r.table_flush
  prog_flush : r.table_loop_prog_n ≢ r.table_flush

writer-IsDistinct : IsDistinct writer_regs
writer-IsDistinct = omega arith

reader-IsDistinct : IsDistinct reader_regs
reader-IsDistinct = omega arith

-- The descriptor for buffer `i`: its whole address, the buffer size, an interrupt on every
-- 32nd buffer, no last flag.
abbrev pub wanted : (ℕ → ℕ) → ℕ → Descriptor
wanted handle i = record {
  addr = handle i;
  size = dma_buffer_size;
  irq = if i % dma_buffer_per_irq == 0 then 1 else 0;
  last = 0;
}

-- The descriptors of buffers 0 to n - 1, the newest first.
pub wanted_table : (ℕ → ℕ) → ℕ → List Descriptor
wanted_table handle zero = []
wanted_table handle (suc n) = wanted handle n ∷ wanted_table handle n

lsb_word : (h : ℕ) → h < 2 ^ 64 → u32 (bit_and (h >>> 0) 0xffffffff) ≡ h % 2 ^ 32
lsb_word h p = omega (arith, bit_and_low 64 32 (h >>> 0) (omega arith))

msb_word : (h : ℕ) → h < 2 ^ 64 → u32 (bit_and (h >>> 32) 0xffffffff) ≡ h / 2 ^ 32
msb_word h p = omega (arith, bit_and_low 64 32 (h >>> 32) (omega arith))

descriptor-wanted :
    (handle : ℕ → ℕ) (i : ℕ)
    → handle i < 2 ^ 64
    → descriptor
        (u32 (descriptor_value i))
        (u32 (bit_and (handle i >>> 0) 0xffffffff))
        (u32 (bit_and (handle i >>> 32) 0xffffffff))
      ≡ wanted handle i
unfolding descriptor_value
descriptor-wanted handle i p = elim (Bool-cases (i % dma_buffer_per_irq == 0)) [
  | inl e ↦ rw (e, lsb_word (handle i) p, msb_word (handle i) p) (ground arith)
  | inr e ↦ rw (e, lsb_word (handle i) p, msb_word (handle i) p) (ground arith)
]

-- Filling descriptors up to buffer `n` loads the table and leaves the rest of the engine alone.
record Filled (handle : ℕ → ℕ) (n : ℕ) (e e' : Engine) : Type 0 where
  full : e'.table ≡ wanted_table handle n
  same_enabled : e'.enabled ≡ e.enabled
  same_looping : e'.looping ≡ e.looping

-- A loaded table in loop mode, with the engine enabled or not.
pub record IsLoaded (handle : ℕ → ℕ) (on : ℕ) (e : Engine) : Type 0 where
  pub enabled : e.enabled ≡ on
  pub looping : e.looping ≡ 1
  pub table : e.table ≡ wanted_table handle dma_buffer_count

module _ (r : Regs) (base : ℕ) (dist : IsDistinct r) where
  -- What one write does to the engine, register by register.
  on_enable :
      (v : ℕ) (e : Engine) → on_write r base (base + r.enable) v e ≡ record e { enabled = v }
  unfolding on_write
  on_enable v e = ground arith

  on_value :
      (v : ℕ) (e : Engine) → on_write r base (base + r.table_value) v e ≡ record e { value = v }
  unfolding on_write
  on_value v e = ground arith

  on_lsb :
      (v : ℕ) (e : Engine) → on_write r base (base + r.table_value + 4) v e ≡ record e { lsb = v }
  unfolding on_write
  on_lsb v e = ground arith

  on_we :
      (v : ℕ) (e : Engine)
      → on_write r base (base + r.table_we) v e
        ≡ record e { table = descriptor e.value e.lsb v ∷ e.table }
  unfolding on_write
  on_we v e = ground arith

  on_prog :
      (v : ℕ) (e : Engine)
      → on_write r base (base + r.table_loop_prog_n) v e ≡ record e { looping = v }
  unfolding on_write
  on_prog v e = ground arith

  on_flush :
      (v : ℕ) (e : Engine) → on_write r base (base + r.table_flush) v e ≡ record e { table = [] }
  unfolding on_write
  on_flush v e = ground arith

  abbrev after_fill : (ℕ → ℕ) → ℕ → Trace → Trace
  after_fill handle i t = writel (base + r.table_we) (bit_and (handle i >>> 32) 0xffffffff) (
      writel (base + r.table_value + 4) (bit_and (handle i >>> 0) 0xffffffff)
        (writel (base + r.table_value) (descriptor_value i) t))

  -- The three writes of a round append the wanted descriptor and touch nothing else.
  after_fill-table :
      (handle : ℕ → ℕ) (i : ℕ) (t : Trace)
      → handle i < 2 ^ 64
      → ((engine r base (after_fill handle i t)).table ≡ wanted handle i ∷ (engine r base t).table)
        × ((engine r base (after_fill handle i t)).enabled ≡ (engine r base t).enabled)
        × ((engine r base (after_fill handle i t)).looping ≡ (engine r base t).looping)
  unfolding engine
  after_fill-table handle i t p =
      rw (on_we, on_lsb, on_value)
        (ap (λ d. d ∷ (engine r base t).table) (descriptor-wanted handle i p), refl, refl)

  -- By induction on the descriptors left.
  fill_descriptors-Filled :
      (handle : ℕ → ℕ)
      → ((j : ℕ) → handle j < 2 ^ 64)
      → (left i n : ℕ) (t : Trace) → i + left ≡ n
      → (engine r base t).table ≡ wanted_table handle i
      → Filled handle n (engine r base t) (engine r base (fill_descriptors r base handle left i t))
  unfolding fill_descriptors wanted_table
  fill_descriptors-Filled handle fits zero i n t e h =
      let e' : i ≡ n = omega arith in
      record { full = rw (← e') h; same_enabled = refl; same_looping = refl }
  fill_descriptors-Filled handle fits (suc left) i n t e h =
      let (one, same_e, same_l) = after_fill-table handle i t (fits i) in
      let more =
        fill_descriptors-Filled handle fits left (i + 1) n (after_fill handle i t) (omega arith)
          (rw (one, h, add-one)) in
      record {
        full = more.full;
        same_enabled = more.same_enabled ∙ same_e;
        same_looping = more.same_looping ∙ same_l;
      }

  -- The whole sequence of writes of a start function, up to the last but one.
  abbrev prepared : (ℕ → ℕ) → Trace → Trace
  prepared handle t = writel (base + r.table_loop_prog_n) 1 (
      fill_descriptors r base handle dma_buffer_count 0 (
        writel (base + r.table_loop_prog_n) 0
          (writel (base + r.table_flush) 1 (writel (base + r.enable) 0 t))))

  prepared-IsLoaded :
      (handle : ℕ → ℕ)
      → ((j : ℕ) → handle j < 2 ^ 64)
      → (t : Trace) → IsLoaded handle 0 (engine r base (prepared handle t))
  unfolding engine wanted_table
  prepared-IsLoaded handle fits t =
      let start =
        writel (base + r.table_loop_prog_n) 0
          (writel (base + r.table_flush) 1 (writel (base + r.enable) 0 t)) in
      let empty : (engine r base start).table ≡ [] = rw (on_prog, on_flush) in
      let off : (engine r base start).enabled ≡ 0 = rw (on_prog, on_flush, on_enable) in
      let full =
        fill_descriptors-Filled handle fits dma_buffer_count 0 dma_buffer_count start (omega arith)
          empty in
      rw on_prog (record { enabled = full.same_enabled ∙ off; looping = refl; table = full.full })

  started-IsLoaded :
      (handle : ℕ → ℕ)
      → ((j : ℕ) → handle j < 2 ^ 64)
      → (t : Trace)
      → IsLoaded handle 1 (engine r base (writel (base + r.enable) 1 (prepared handle t)))
  unfolding engine
  started-IsLoaded handle fits t =
      let l = prepared-IsLoaded handle fits t in
      rw on_enable (record { enabled = refl; looping = l.looping; table = l.table })

-- What starting an engine comes to: the last write enables the engine, all before it leave the
-- engine disabled with the table of all buffers loaded, and with the last write it runs on it.
pub record Starts (r : Regs) (base : ℕ) (handle : ℕ → ℕ) (t : Trace) : Type 0 where
  pub before : Trace
  pub last : t ≡ wr (base + r.enable) 1 ∷ before
  pub ready : IsLoaded handle 0 (engine r base before)
  pub running : IsLoaded handle 1 (engine r base t)

-- Whatever was written before, with bus addresses of at most 64 bits `litepcie_dma_writer_start`
-- first loads one descriptor for each of the 256 buffers, in order, each with its buffer's address
-- and size and an interrupt on every 32nd, into the disabled engine, and enables it last; it sets
-- the three writer counts to 0.
pub dma_writer_start-Starts :
    (d : DmaChan) (t : Trace)
    → ((j : ℕ) → d.writer_handle j < 2 ^ 64)
    → Starts writer_regs d.base d.writer_handle (dma_writer_start d t).1
      × ((dma_writer_start d t).0.writer_hw_count ≡ 0)
      × ((dma_writer_start d t).0.writer_hw_count_last ≡ 0)
      × ((dma_writer_start d t).0.writer_sw_count ≡ 0)
unfolding dma_writer_start
dma_writer_start-Starts d t fits = (
  record {
    before = _;
    last = refl;
    ready = prepared-IsLoaded writer_regs d.base writer-IsDistinct d.writer_handle fits t;
    running = started-IsLoaded writer_regs d.base writer-IsDistinct d.writer_handle fits t;
  },
  refl,
  refl,
  refl,
)

-- Whatever was written before, with bus addresses of at most 64 bits `litepcie_dma_reader_start`
-- first loads one descriptor for each of the 256 buffers, in order, each with its buffer's address
-- and size and an interrupt on every 32nd, into the disabled engine, and enables it last; it sets
-- the three reader counts to 0.
pub dma_reader_start-Starts :
    (d : DmaChan) (t : Trace)
    → ((j : ℕ) → d.reader_handle j < 2 ^ 64)
    → Starts reader_regs d.base d.reader_handle (dma_reader_start d t).1
      × ((dma_reader_start d t).0.reader_hw_count ≡ 0)
      × ((dma_reader_start d t).0.reader_hw_count_last ≡ 0)
      × ((dma_reader_start d t).0.reader_sw_count ≡ 0)
unfolding dma_reader_start
dma_reader_start-Starts d t fits = (
  record {
    before = _;
    last = refl;
    ready = prepared-IsLoaded reader_regs d.base reader-IsDistinct d.reader_handle fits t;
    running = started-IsLoaded reader_regs d.base reader-IsDistinct d.reader_handle fits t;
  },
  refl,
  refl,
  refl,
)

-- Both stop functions leave their engine disabled, out of loop mode and with an empty table.
pub dma_stop_quiets :
    (d : DmaChan) (t : Trace)
    → let w = engine writer_regs d.base (dma_writer_stop d t).1 in
      let r = engine reader_regs d.base (dma_reader_stop d t).1 in
      (w.enabled ≡ 0)
      × (w.looping ≡ 0)
      × (w.table ≡ [])
      × (r.enabled ≡ 0)
      × (r.looping ≡ 0)
      × (r.table ≡ [])
unfolding dma_writer_stop dma_reader_stop engine on_write
dma_stop_quiets d t =
    (ground arith, ground arith, ground arith, ground arith, ground arith, ground arith)
