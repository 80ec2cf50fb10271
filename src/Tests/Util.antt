-- ===== src/Tests/Util.antt =====
-- The loopback test and its parts at concrete inputs.
use litepcie_ptm_test.Base.{
  ℕ, Bool, Option, ap, sym, subst, ◌∙◌, inl, List, ◌++◌, true, false, ◌+◌, ◌%◌, ◌≡◌, refl, [], ◌∷◌,
  some, none, arith,
}
use litepcie_ptm_test.File.Request.{Session}
use litepcie_ptm_test.File.Ioctl.{
  ioctl, ioctl_dma_writer, ioctl_dma_reader, switch_writer, switch_reader,
}
use litepcie_ptm_test.User.{
  Polled, process, poll_writer, poll_reader, read_event, write_event, dma_writer, dma_reader,
  checked_ioctl, DmaCtrl, next_read_buffer, next_write_buffer,
}
use litepcie_ptm_test.User.Setup.{no_areas}
use litepcie_ptm_test.Util.Pattern.{get_data_mask, write_pn_data, check_pn_data, buffer_words}
use litepcie_ptm_test.Util.Check.{check_pn_data_lem, check_pn_data-write_pn_data, mismatches}
use litepcie_ptm_test.Util.Loopback.{
  LoopTest, Pass, find_delay, dma_test, put, test_pass, tx_loop, rx_loop, statistics,
}
use litepcie_ptm_test.Stream.{take, drop}
use litepcie_ptm_test.Util.Loopback.Receive.{received_words, find_delay_lem}
use litepcie_ptm_test.Util.Loopback.Passes.{IsGood, AllGood, FilledWith}
use litepcie_ptm_test.Util.Loopback.Whole.{first_vars, first_session, dma_test_lem}
use litepcie_ptm_test.Tests.Data.{idle_session, idle_chan, ones}
use litepcie_ptm_test.Tests.User.{build, ctrl}

check_pn_data_lem_example :
    check_pn_data 0 (1 ∷ 7 ∷ []) 2047 16
    ≡ (mismatches (get_data_mask 0 16) (1 ∷ 7 ∷ []) 2047, (2047 + 2) % buffer_words)
check_pn_data_lem_example = check_pn_data_lem 0 (1 ∷ 7 ∷ []) 2047 16 (omega arith)

check_pn_data-write_pn_data_example :
    check_pn_data 0 (write_pn_data 0 3 2046 16).0 2046 16 ≡ (0, (write_pn_data 0 3 2046 16).1)
check_pn_data-write_pn_data_example = check_pn_data-write_pn_data 0 3 2046 16 (omega arith)

-- A test with 2 buffers to fill, and what it knows of the delay.
abbrev vars : LoopTest
vars = record {
  ctrl = record ctrl { buffers_available_write = 2; usr_write_buf_offset = 255 };
  buf_wr = λ at. [];
  buf_rd = λ at. [];
  seed_wr = 7;
  seed_rd = 0;
  errors = 0;
  run = false;
  line = 0;
  reader_sw_count_last = 0;
}

find_delay_lem_example :
    find_delay 0 16 buffer_words 0 (received_words 0 16 5) vars
    ≡ record vars { seed_rd = 5; errors = 0; run = true }
find_delay_lem_example = find_delay_lem 0 16 5 vars (omega arith) (omega arith) (omega arith)

-- A device whose engines run already, with 10 buffers received and room for 1 to send.
abbrev running : Session
running = record idle_session {
  dma = record idle_chan {
    reader_hw_count = 40000;
    reader_sw_count = 40127;
    writer_hw_count = 40700;
    writer_sw_count = 40690;
    writer_enable = 1;
    reader_enable = 1;
  };
}

-- A pass in which only the event to write arrives.
abbrev first_pass : Pass
first_pass = record {
  polled = Polled.events 0x4;
  read_len = none;
  write_len = none;
  received = λ at. [];
  duration = 300;
}

-- A buffer as `dma_test` fills it.
abbrev one_buffer : List ℕ
one_buffer = (write_pn_data 0 buffer_words 0 16).0

-- A pass in which both events arrive, on a loopback that cuts the buffers at word 5.
abbrev second_pass : Pass
second_pass = record {
  polled = Polled.events 0x5;
  read_len = none;
  write_len = none;
  received = λ at. drop 5 one_buffer ++ take 5 one_buffer;
  duration = 300;
}

abbrev before : LoopTest
before = first_vars 1 0 1 vars

-- The buffer that the first pass fills is the one of slot 191.
abbrev between_ctrl : DmaCtrl
between_ctrl = record (before.ctrl) {
  events = 0x5;
  reader_hw_count = 40000;
  reader_sw_count = 40127;
  writer_hw_count = 40700;
  writer_sw_count = 40690;
  buffers_available_read = 0;
  buffers_available_write = 0;
  usr_write_buf_offset = 192;
}

abbrev between : LoopTest
between = record before {
  ctrl = between_ctrl;
  buf_wr = put before.buf_wr 1564672 one_buffer;
  seed_wr = (write_pn_data 0 buffer_words 0 16).1;
  buf_rd = λ at. [];
}

abbrev session1 : Session
session1 = first_session 0 running

abbrev session2 : Session
session2 = record session1 { dma = record (session1.dma) { reader_sw_count = 40128 } }

first_pass_lem :
    test_pass 0 16 ones build first_pass before session1 ≡ some (true, between, session2)
unfolding process poll_writer poll_reader read_event write_event dma_writer dma_reader checked_ioctl
    ioctl ioctl_dma_writer ioctl_dma_reader switch_writer switch_reader test_pass tx_loop rx_loop
    next_read_buffer next_write_buffer statistics
first_pass_lem = refl

-- After `litepcie_dma_process`, with one buffer to fill, and with ten to check.
abbrev filling_ctrl : DmaCtrl
filling_ctrl = record between_ctrl { buffers_available_write = 1; usr_write_buf_offset = 191 }

abbrev checking_ctrl : DmaCtrl
checking_ctrl = record between_ctrl {
  reader_sw_count = 40128;
  buffers_available_read = 10;
  usr_read_buf_offset = 242;
}

abbrev Filled : ℕ → Type 0
Filled = FilledWith 0 16 ones build filling_ctrl (λ at. ⊥)

second_pass-IsGood : IsGood 0 16 ones build 5 Filled second_pass between session2
unfolding process poll_writer poll_reader read_event write_event dma_writer dma_reader checked_ioctl
    ioctl ioctl_dma_writer ioctl_dma_reader switch_writer switch_reader
second_pass-IsGood = record {
  ctrl = checking_ctrl;
  session = _;
  processed = refl;
  read_room = omega arith;
  read_slot = omega arith;
  write_room = omega arith;
  write_slot = omega arith;
  looped =
      λ late j h. (1564672, 1564672, inl (0, omega arith, refl), inl (0, omega arith, refl), refl);
}

-- What a pass leaves, or else what the first one does.
abbrev left_by : Option (Bool × LoopTest × Session) → LoopTest × Session
left_by none = (between, session2)
left_by (some r) = (r.1, r.2)

both_passes-AllGood :
    AllGood 0 16 ones build 5 (λ at. ⊥) (first_pass ∷ second_pass ∷ []) before session1
unfolding process poll_writer poll_reader read_event write_event dma_writer dma_reader checked_ioctl
    ioctl ioctl_dma_writer ioctl_dma_reader switch_writer switch_reader
both_passes-AllGood = (
  record {
    ctrl = filling_ctrl;
    session = session2;
    processed = refl;
    read_room = omega arith;
    read_slot = omega arith;
    write_room = omega arith;
    write_slot = omega arith;
    looped = λ late j h. absurd (omega (arith, h));
  },
  λ u s' e.
      subst (λ r. AllGood 0 16 ones build 5 Filled (second_pass ∷ []) r.0 r.1)
        (ap left_by (sym first_pass_lem ∙ e)) (second_pass-IsGood, λ u s' e. tt),
)

dma_test_lem_example :
    (u : LoopTest) × (s' : Session) × (dma_test 0 16 ones build
        (some running)
        true
        true
        1
        0
        1
        (first_pass ∷ second_pass ∷ [])
        vars
      ≡ some (u, s', no_areas))
    × (u.errors ≡ 0)
    × (s'.dma.reader_enable ≡ 0)
    × (s'.dma.writer_enable ≡ 0)
    × (s'.dma.reader_lock ≡ 0)
    × (s'.dma.writer_lock ≡ 0)
dma_test_lem_example =
    dma_test_lem ones build 0 16 5 1 0 1 (first_pass ∷ second_pass ∷ []) vars running (omega arith)
      (omega arith) (omega arith) (λ e. absurd (omega (arith, e))) (λ e. absurd (omega (arith, e)))
      refl refl both_passes-AllGood
