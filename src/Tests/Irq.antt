-- ===== src/Tests/Irq.antt =====
-- Interrupts and the enable mask at concrete inputs.
use litepcie_ptm_test.Base.{◌≡◌, arith, [], ◌∷◌}
use litepcie_ptm_test.Irq.Count.{run_counts, last_count, run_counts-eq-last}

-- Three interrupts, the second after the 24-bit count has wrapped around.
run_counts-eq-last_example :
    run_counts 16777000 (16777100 ∷ 16778000 ∷ 33554000 ∷ [])
    ≡ last_count 16777000 (16777100 ∷ 16778000 ∷ 33554000 ∷ [])
run_counts-eq-last_example = run_counts-eq-last 16777000 (16777100 ∷ 16778000 ∷ 33554000 ∷ []) (
  omega arith,
  omega arith,
  omega arith,
  (omega arith, omega arith, omega arith, (omega arith, omega arith, omega arith, tt)),
)
