-- ===== src/Tests/Stream.antt =====
-- software/user/litepcie_test.c at concrete inputs: a recording, and a file that is played.
use litepcie_ptm_test.Base.{
  ◌≤◌, ℕ, zero, suc, ◌≡◌, refl, List, [], ◌∷◌, ◌++◌, some, none, length, arith, true, min, ◌-◌, ◌+◌,
}
use litepcie_ptm_test.Config.{dma_buffer_size}
use litepcie_ptm_test.Stream.{take, Playing, Recording, Pass, record_loop, play_loop}
use litepcie_ptm_test.Stream.Record.{stream}
use litepcie_ptm_test.Stream.Passes.{Passes, over, passes, record_loop_lem}
use litepcie_ptm_test.Stream.Fill.{place_after}
use litepcie_ptm_test.Stream.Sent.{Plays, sent, blocks, play_loop_lem}
use litepcie_ptm_test.Tests.User.{ctrl, build}
use litepcie_ptm_test.Tests.Data.{ones, busy_session}
use litepcie_ptm_test.File.Request.{Session}
use litepcie_ptm_test.File.Ioctl.{
  ioctl, ioctl_dma_writer, ioctl_dma_reader, switch_writer, switch_reader,
}
use litepcie_ptm_test.User.{
  Polled, process, poll_writer, poll_reader, read_event, write_event, dma_writer, dma_reader,
  checked_ioctl,
}

abbrev repeated : ℕ → List ℕ
repeated zero = []
repeated (suc n) = 7 ∷ repeated n

repeated_lem : (n : ℕ) → length (repeated n) ≡ n
repeated_lem zero = refl
repeated_lem (suc n) = let e = repeated_lem n in omega (arith, e)

abbrev recording : Recording
recording = record {
  ctrl = record ctrl { buffers_available_read = 2; usr_read_buf_offset = 255 };
  file = 1 ∷ 2 ∷ [];
  total_len = 2;
  keep_running = true;
}

-- A pass with an event to read.
abbrev one_pass : Pass
one_pass = record {
  polled = Polled.events 0x41;
  read_len = none;
  write_len = none;
  received = λ at. repeated dma_buffer_size;
  duration = 300;
}

abbrev caught_up : Session
caught_up = record busy_session {
  dma = record (busy_session.dma) { writer_sw_count = busy_session.dma.writer_hw_count };
}

one_pass-Passes :
    Passes ones build 10000
      (one_pass ∷ [])
      recording
      busy_session
      (stream (λ at. repeated dma_buffer_size) 178 10 ++ [])
      caught_up
unfolding process poll_writer poll_reader read_event write_event dma_writer dma_reader checked_ioctl
    ioctl ioctl_dma_writer ioctl_dma_reader switch_writer switch_reader
one_pass-Passes =
    passes one_pass _ refl refl (λ at. repeated_lem dma_buffer_size) (omega arith) (omega arith)
      (λ r1 e. over)

record_loop_lem_example :
    (r' : Recording) × (record_loop ones build true 10000 (one_pass ∷ []) recording busy_session
      ≡ some (r', caught_up))
    × (r'.file
        ≡ (1 ∷ 2 ∷ []) ++ take (10000 - 2) (stream (λ at. repeated dma_buffer_size) 178 10 ++ []))
    × (r'.total_len ≡ min 10000 (2 + length (stream (λ at. repeated dma_buffer_size) 178 10 ++ [])))
record_loop_lem_example =
    record_loop_lem ones build 10000 (one_pass ∷ []) recording busy_session caught_up _
      one_pass-Passes (omega arith) (omega arith)

abbrev playing : Playing
playing = record {
  ctrl = record ctrl { buffers_available_write = 2; usr_write_buf_offset = 255 };
  buf_wr = λ slot. repeated dma_buffer_size;
  at = 4;
  current_loop = 0;
  sw_underflows = 0;
  keep_running = true;
}

file_is_long : dma_buffer_size ≤ length (repeated 10000)
file_is_long = rw (repeated_lem 10000) (omega arith)

place_inside : 4 ≤ length (repeated 10000)
place_inside = rw (repeated_lem 10000) (omega arith)

-- A pass with an event to write, in a program that uses the reader.
abbrev sending : Playing
sending = record playing { ctrl = record ctrl { zero_copy = 1; use_reader = 1; use_writer = 0 } }

abbrev send_pass : Pass
send_pass = record one_pass { polled = Polled.events 0x104 }

abbrev filled_up : Session
filled_up = record busy_session { dma = record (busy_session.dma) { reader_sw_count = 428 } }

send_pass-Plays :
    Plays ones build (repeated 10000) 1 (send_pass ∷ []) sending busy_session (118 + 0) filled_up
unfolding process poll_writer poll_reader read_event write_event dma_writer dma_reader checked_ioctl
    ioctl ioctl_dma_writer ioctl_dma_reader switch_writer switch_reader
send_pass-Plays =
    Plays.plays send_pass _ refl refl (λ e. absurd (omega (arith, e))) (omega arith) (omega arith)
      (λ q e. Plays.over)

play_loop_lem_example :
    (p' : Playing) × (play_loop ones build (repeated 10000) 1 (send_pass ∷ []) sending busy_session
      ≡ some (p', filled_up))
    × (p'.at ≡ place_after (repeated 10000) 4 (118 + 0))
    × (sent ones build (repeated 10000) 1 (send_pass ∷ []) sending busy_session
        ≡ blocks (repeated 10000) 4 0 (118 + 0))
play_loop_lem_example =
    play_loop_lem ones build (repeated 10000) 1 (send_pass ∷ []) sending busy_session filled_up
      (118 + 0) send_pass-Plays file_is_long place_inside (λ slot. repeated_lem dma_buffer_size)
