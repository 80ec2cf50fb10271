-- ===== src/Tests/Transfer.antt =====
-- Reads and writes at concrete inputs.
use litepcie_ptm_test.Base.{true, false, ◌+◌, ◌/◌, ◌≡◌, min, arith, some, ◌==◌, not}
use litepcie_ptm_test.Config.{dma_buffer_size}
use litepcie_ptm_test.File.{Ret}
use litepcie_ptm_test.File.Transfer.{Wait, Outcome, read, write}
use litepcie_ptm_test.File.Transfer.Read.{ReadLedger, read-ReadLedger}
use litepcie_ptm_test.File.Transfer.Write.{WriteLedger, write-WriteLedger}
use litepcie_ptm_test.File.Transfer.Exact.{copies_of, read_exact, write_exact}
use litepcie_ptm_test.Tests.Data.{busy_chan}

-- The hardware completes a buffer at every second look, and the third copy fails.
read-ReadLedger_example :
    (o : Outcome) × (read false Wait.woken
        (λ k. 700 + min k 100 / 2)
        (λ i. not (i == 2))
        dma_buffer_size
        50000
        busy_chan
      ≡ some o)
    × ReadLedger (λ k. 700 + min k 100 / 2) (λ i. not (i == 2)) dma_buffer_size 50000 690 o
read-ReadLedger_example =
    read-ReadLedger (λ k. 700 + min k 100 / 2) (λ i. not (i == 2)) dma_buffer_size 50000 busy_chan
      (omega arith) (λ k. omega arith)

write-WriteLedger_example :
    (o : Outcome) × (write false Wait.woken
        (λ k. 300 + min k 100 / 2)
        (λ i. not (i == 2))
        dma_buffer_size
        50000
        busy_chan
      ≡ some o)
    × WriteLedger (λ k. 300 + min k 100 / 2) (λ i. not (i == 2)) dma_buffer_size 50000 310 o
write-WriteLedger_example =
    write-WriteLedger (λ k. 300 + min k 100 / 2) (λ i. not (i == 2)) dma_buffer_size 50000 busy_chan
      (omega arith) (λ k. omega arith)

-- 900 - 690 buffers are ready, 82 of them too old; 100 fit the caller's memory.
read_exact_example :
    read false Wait.woken (λ _. 900) (λ _. true) dma_buffer_size 819200 busy_chan
    ≡ some (record {
      ret = Ret.done 819200;
      sw_count = 790;
      copies = copies_of dma_buffer_size 690 82 18;
      lost = 82;
    })
read_exact_example = read_exact dma_buffer_size 819200 900 busy_chan (omega arith) (omega arith)

write_exact_example :
    write false Wait.woken (λ _. 312) (λ _. true) dma_buffer_size 81920 busy_chan
    ≡ some (record {
      ret = Ret.done 81920;
      sw_count = 320;
      copies = copies_of dma_buffer_size 310 2 8;
      lost = 2;
    })
write_exact_example = write_exact dma_buffer_size 81920 312 busy_chan (omega arith) (omega arith)
