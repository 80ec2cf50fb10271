-- ===== src/Util/Board.antt =====
-- software/user/litepcie_util.c: the info, scratch and reload commands. `opened` is the session that
-- open(2) gives; a program that ends by exit(1) or abort is `none`. The values read are printed.
use litepcie_ptm_test.Base.{ℕ, zero, suc, ◌+◌, ◌≡◌, refl, List, [], ◌∷◌, Option, some}
use litepcie_ptm_test.Base.Word.{u8, u32}
use litepcie_ptm_test.Bus.{rd, wr, Trace, Hw}
use litepcie_ptm_test.File.Request.{Build, Session}
use litepcie_ptm_test.File.Ioctl.{ioctl_reg, ioctl}
use litepcie_ptm_test.Probe.{csr_identifier_mem_base}
use litepcie_ptm_test.User.{checked_ioctl, ◌>>=◌}
use litepcie_ptm_test.User.Registers.{user_readl, user_writel, reload}

abbrev pub csr_ctrl_scratch_addr : ℕ
csr_ctrl_scratch_addr = 0x4

abbrev csr_dna_id_addr : ℕ
csr_dna_id_addr = 0x4800

-- CSR_XADC_TEMPERATURE_ADDR; VCCINT, VCCAUX and VCCBRAM follow it.
abbrev csr_xadc_temperature_addr : ℕ
csr_xadc_temperature_addr = 0x7000

-- What `info` prints: the text, the words of the DNA and the readings of the XADC.
pub record Info : Type 0 where
  pub fpga_identifier : List ℕ
  pub dna : List ℕ
  pub xadc : List ℕ

-- The bytes of the words.
abbrev pub low_bytes : List ℕ → List ℕ
low_bytes [] = []
low_bytes (w ∷ ws) = u8 w ∷ low_bytes ws

module _ (hw : Hw) (b : Build) where
  -- `count` registers from an address on, one after the other.
  unfoldable pub read_words : (count addr : ℕ) → Session → Option (Session × List ℕ)
  read_words zero addr s = some (s, [])
  read_words (suc count) addr s = do
    (s, val) ← user_readl hw b addr s
    (s, vals) ← read_words count (addr + 4) s
    some (s, val ∷ vals)

  -- `info`, with the two words of the DNA read in the order of the arguments.
  unfoldable pub info : (opened : Option Session) → Option (Session × Info)
  info opened = do
    s ← opened
    (s, fpga_identifier) ← read_words 256 csr_identifier_mem_base s
    (s, dna) ← read_words 2 csr_dna_id_addr s
    (s, xadc) ← read_words 4 csr_xadc_temperature_addr s
    some (s, record { fpga_identifier = low_bytes fpga_identifier; dna = dna; xadc = xadc })

  -- `scratch_test`, with the two values read back
  unfoldable pub scratch_test : (opened : Option Session) → Option (Session × ℕ × ℕ)
  scratch_test opened = do
    s ← opened
    s ← user_writel hw b csr_ctrl_scratch_addr 0x12345678 s
    (s, first) ← user_readl hw b csr_ctrl_scratch_addr s
    s ← user_writel hw b csr_ctrl_scratch_addr 0xdeadbeef s
    (s, second) ← user_readl hw b csr_ctrl_scratch_addr s
    some (s, first, second)

  -- `flash_reload`
  unfoldable pub flash_reload : (opened : Option Session) → Option Session
  flash_reload opened = opened >>= λ s. reload hw b s

  user_readl_lem :
      (addr : ℕ) (s : Session)
      → user_readl hw b addr s
        ≡ some
            (record s { trace = rd addr (u32 (hw s.trace addr)) ∷ s.trace }, u32 (hw s.trace addr))
  unfolding user_readl checked_ioctl ioctl ioctl_reg
  user_readl_lem addr s = refl

  user_writel_lem :
      (addr val : ℕ) (s : Session)
      → user_writel hw b addr val s ≡ some (record s { trace = wr addr (u32 val) ∷ s.trace })
  unfolding user_writel checked_ioctl ioctl ioctl_reg
  user_writel_lem addr val s = refl

  -- The scratch test on an open device whose scratch register answers with the last value written:
  -- it reads back both values that it writes, and makes no other access.
  pub scratch_test_lem :
      (s : Session)
      → ((t : Trace) (val : ℕ) → hw (wr csr_ctrl_scratch_addr val ∷ t) csr_ctrl_scratch_addr ≡ val)
      → scratch_test (some s)
        ≡ some (
          record s {
            trace =
                rd csr_ctrl_scratch_addr 0xdeadbeef
                ∷ wr csr_ctrl_scratch_addr 0xdeadbeef
                ∷ rd csr_ctrl_scratch_addr 0x12345678
                ∷ wr csr_ctrl_scratch_addr 0x12345678
                ∷ s.trace;
          },
          0x12345678,
          0xdeadbeef,
        )
  unfolding scratch_test
  scratch_test_lem s keeps =
      rw (user_writel_lem, user_readl_lem, keeps, user_writel_lem, user_readl_lem, keeps) refl

-- The registers from an address on, and the trace after reads of them, where each always answers
-- alike.
pub registers : (ℕ → ℕ) → (count addr : ℕ) → List ℕ
registers reg zero addr = []
registers reg (suc count) addr = u32 (reg addr) ∷ registers reg count (addr + 4)

pub read_all : (ℕ → ℕ) → (count addr : ℕ) → Trace → Trace
read_all reg zero addr t = t
read_all reg (suc count) addr t = read_all reg count (addr + 4) (rd addr (u32 (reg addr)) ∷ t)

module _ (hw : Hw) (b : Build) (reg : ℕ → ℕ)
    (steady : (t : Trace) (addr : ℕ) → hw t addr ≡ reg addr) where
  read_words_lem :
      (count addr : ℕ) (s : Session)
      → read_words hw b count addr s
        ≡ some (record s { trace = read_all reg count addr s.trace }, registers reg count addr)
  unfolding read_words registers read_all
  read_words_lem zero addr s = refl
  read_words_lem (suc count) addr s =
      let read = user_readl_lem hw b addr s in
      let value = steady s.trace addr in rw (read, value, read_words_lem count (addr + 4)) refl

  -- `info` on an open device each of whose registers always answers alike: the text has the low bytes
  -- of the 256 words of the identifier, the two words of the DNA and the four readings of the XADC
  -- follow, and all that it does with the device is to read them, each once and in this order.
  pub info_lem :
      (s : Session)
      → info hw b (some s)
        ≡ some (
          record s {
            trace = read_all reg 4 0x7000 (read_all reg 2 0x4800 (read_all reg 256 0x5000 s.trace));
          },
          record {
            fpga_identifier = low_bytes (registers reg 256 0x5000);
            dna = registers reg 2 0x4800;
            xadc = registers reg 4 0x7000;
          },
        )
  unfolding info
  info_lem s = rw (read_words_lem, read_words_lem, read_words_lem) refl
