-- ===== src/Tests/Data.antt =====
-- A channel, sessions and devices for the examples.
use litepcie_ptm_test.Base.{ℕ, true, false, []}
use litepcie_ptm_test.Bus.{Hw}
use litepcie_ptm_test.Dma.{DmaChan}
use litepcie_ptm_test.File.{ChanPriv}
use litepcie_ptm_test.File.Request.{Session, EngineArgs, LockArgs}

-- The channel of the gateware, with its engines off.
abbrev pub idle_chan : DmaChan
idle_chan = record {
  base = 0x6000;
  writer_interrupt = 1;
  reader_interrupt = 0;
  reader_handle = λ j. 0x100000000;
  writer_handle = λ j. 0x200000000;
  reader_hw_count = 0;
  reader_hw_count_last = 0;
  reader_sw_count = 0;
  writer_hw_count = 0;
  writer_hw_count_last = 0;
  writer_sw_count = 0;
  writer_enable = 0;
  reader_enable = 0;
  writer_lock = 0;
  reader_lock = 0;
}

-- The same channel with both engines on and held, and data on the way.
abbrev pub busy_chan : DmaChan
busy_chan = record idle_chan {
  reader_hw_count = 300;
  reader_hw_count_last = 300;
  reader_sw_count = 310;
  writer_hw_count = 700;
  writer_hw_count_last = 700;
  writer_sw_count = 690;
  writer_enable = 1;
  reader_enable = 1;
  writer_lock = 1;
  reader_lock = 1;
}

-- A device that answers every read with all ones, and one that answers with 0.
abbrev pub ones : Hw
ones t addr = 0xffffffff

abbrev pub zeros : Hw
zeros t addr = 0

abbrev pub holds_none : ChanPriv
holds_none = record { reader = false; writer = false }

abbrev pub holds_both : ChanPriv
holds_both = record { reader = true; writer = true }

abbrev pub idle_session : Session
idle_session = record { dma = idle_chan; priv = holds_none; trace = [] }

abbrev pub busy_session : Session
busy_session = record { dma = busy_chan; priv = holds_both; trace = [] }

abbrev pub args : ℕ → EngineArgs
args enable = record { enable = enable; hw_count = 0; sw_count = 0 }

abbrev pub no_lock : LockArgs
no_lock = record {
  dma_reader_request = 0;
  dma_writer_request = 0;
  dma_reader_release = 0;
  dma_writer_release = 0;
  dma_reader_status = 0;
  dma_writer_status = 0;
}
