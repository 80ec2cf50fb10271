-- ===== src/Tests/Devices.antt =====
-- Device nodes and mapped buffers at concrete inputs.
use litepcie_ptm_test.Base.{true, false, ◌*◌, ◌≡◌, refl, arith, none, [], ◌==◌, ◌⊎◌, not}
use litepcie_ptm_test.File.{Ret}
use litepcie_ptm_test.File.Mmap.{mmap, contiguous, mmap-contiguous}
use litepcie_ptm_test.Chdev.{alloc_chdev}
use litepcie_ptm_test.Chdev.Registry.{node, cdev}
use litepcie_ptm_test.Chdev.Rollback.{Registers, RollsBack, alloc_chdev_all_or_none}

-- Two channels from minor 4 on; the second node cannot be created.
alloc_chdev_all_or_none_example :
    let a = alloc_chdev (λ i. none) (λ i. not (i == 1)) 2 4 [] in
    Registers 2 4 [] a ⊎ RollsBack 2 4 [] a
unfolding node cdev
alloc_chdev_all_or_none_example =
    alloc_chdev_all_or_none (λ i. none) (λ i. not (i == 1)) 2 4 [] (λ x e. refl) (λ x e. refl)

-- The writer's buffers, pages of 4096 bytes.
mmap-contiguous_example :
    mmap 12
      (λ k. true)
      (λ k. 0x1000 * k)
      (λ k. 0x2000 * k)
      (record { vm_start = 0x700000; vm_end = 0x900000; vm_pgoff = 512 })
    ≡ (Ret.done 0, contiguous 12 (λ k. true) (λ k. 0x2000 * k) 0x700000 256)
mmap-contiguous_example =
    mmap-contiguous 12 (λ k. true) (λ k. 0x1000 * k) (λ k. 0x2000 * k)
      (record { vm_start = 0x700000; vm_end = 0x900000; vm_pgoff = 512 }) false (λ k. refl) refl
      (omega arith) (omega arith) refl
