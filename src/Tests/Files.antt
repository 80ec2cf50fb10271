-- ===== src/Tests/Files.antt =====
-- Open files, their locks and the SPI flash at concrete inputs.
use litepcie_ptm_test.Base.{
  true, ◌+◌, ◌*◌, ◌^◌, ◌≡◌, refl, arith, [], some, none, ◌==◌, if◌then◌else◌, inl,
}
use litepcie_ptm_test.Base.Bits.{bit}
use litepcie_ptm_test.Config.{writer_regs, reader_regs, dma_buffer_size}
use litepcie_ptm_test.Dma.{clear_writer_counts, clear_reader_counts}
use litepcie_ptm_test.Dma.Engine.{engine}
use litepcie_ptm_test.File.{Ret, Errno, open_chan, release, poll, ChanPriv}
use litepcie_ptm_test.File.Session.{halted, release_lem, poll-write_eagain}
use litepcie_ptm_test.File.Transfer.{Wait, early, write}
use litepcie_ptm_test.File.Request.{LockArgs, FlashArgs, FlashCsr}
use litepcie_ptm_test.File.Lock.{lock_reader, ioctl_lock}
use litepcie_ptm_test.File.Lock.Moves.{OneOwner}
use litepcie_ptm_test.File.Lock.Owners.{
  World, opens, asks, begin, next, IsOwned, session, update, mutual_exclusion,
}
use litepcie_ptm_test.File.Lock.Requests.{lock_reader_steals}
use litepcie_ptm_test.File.Ioctl.{flash_spi}
use litepcie_ptm_test.File.Ioctl.Spi.{Exchange, flash_spi_exchanges}
use litepcie_ptm_test.Tests.Data.{
  idle_chan, busy_chan, busy_session, holds_none, holds_both, no_lock, ones,
}

release_lem_example :
    let (ret, d', t') = release ones holds_both busy_chan [] in
    (ret ≡ Ret.done 0)
    × (engine reader_regs 0x6000 t' ≡ halted (engine reader_regs 0x6000 []))
    × (engine writer_regs 0x6000 t' ≡ halted (engine writer_regs 0x6000 []))
    × (d'
        ≡ record (clear_writer_counts
            (record (clear_reader_counts busy_chan) { reader_lock = 0; reader_enable = 0 })) {
              writer_lock = 0;
              writer_enable = 0;
            })
release_lem_example = release_lem ones holds_both busy_chan [] (omega arith)

poll-write_eagain_example :
    (bit 2 (poll idle_chan) ≡ 1)
    × (write true Wait.woken (λ k. 0) (λ i. true) dma_buffer_size 8192 idle_chan
        ≡ some (early Errno.eagain 0))
poll-write_eagain_example =
    poll-write_eagain idle_chan 8192 Wait.woken (λ k. 0) (λ i. true) dma_buffer_size (omega arith)
      refl

-- File 3 opens and asks for both engines.
abbrev closed : World
closed = record { dma = idle_chan; trace = []; files = λ i. none }

abbrev ask_both : LockArgs
ask_both = record no_lock { dma_reader_request = 1; dma_writer_request = 1 }

abbrev opened : ChanPriv
opened = (open_chan true idle_chan).2

abbrev after_open : World
after_open = record closed {
  dma = (open_chan true idle_chan).1;
  files = update (λ i. none) 3 (some opened);
}

abbrev after_ask : World
after_ask = record after_open {
  dma = (ioctl_lock true ask_both (session after_open opened)).sess.dma;
  files =
      update (after_open.files) 3
        (some (ioctl_lock true ask_both (session after_open opened)).sess.priv);
}

mutual_exclusion_example : IsOwned after_ask
mutual_exclusion_example =
    mutual_exclusion ones closed after_ask refl refl (λ i. refl)
      (next (next begin (opens 3 refl)) (asks 3 opened ask_both true refl (inl refl) (inl refl)))

-- File 4 takes the reader that file 3 holds.
lock_reader_steals_example :
    let s = record busy_session { priv = holds_none } in
    let m = record no_lock { dma_reader_release = 1 } in
    let (s', status) = lock_reader ask_both (lock_reader m s).0 in
    (status ≡ 1)
    × (s'.priv.reader ≡ true)
    × ¬ OneOwner s'.dma.reader_lock (λ k. if k == 4 then s'.priv.reader else (k == 3))
lock_reader_steals_example =
    lock_reader_steals (record no_lock { dma_reader_release = 1 }) ask_both
      (record busy_session { priv = holds_none }) (λ k. k == 3) 4 3 (λ e. absurd (omega (arith, e)))
      (λ e. absurd (omega (arith, e))) refl refl (λ e. absurd (omega (arith, e)))

abbrev flash_csr : FlashCsr
flash_csr = record {
  spi_mosi_addr = 0x7000;
  spi_control_addr = 0x7008;
  spi_status_addr = 0x700c;
  spi_miso_addr = 0x7010;
}

flash_spi_exchanges_example :
    let m : FlashArgs = record { tx_len = 40; tx_data = 0x9f00000000; rx_data = 0 } in
    let (ret, m', t') = flash_spi ones flash_csr m [] in
    (x : Exchange flash_csr m [] t') × (ret ≡ Ret.done 0)
    × (m' ≡ record m { rx_data = x.high * 2 ^ 32 + x.low })
flash_spi_exchanges_example =
    flash_spi_exchanges ones flash_csr (record { tx_len = 40; tx_data = 0x9f00000000; rx_data = 0 })
      [] (omega arith) (omega arith) (omega arith)
