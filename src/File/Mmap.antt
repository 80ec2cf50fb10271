-- ===== src/File/Mmap.antt =====
-- software/kernel/main.c: `litepcie_mmap`. The physical addresses of the buffers, the page size and
-- whether the i-th remap_pfn_range succeeds are arguments.
use native.Mathlib.Nat.{one-le-pow, pow-le-pow_right, le-div_iff_mul-le}
use litepcie_ptm_test.Base.{
  ℕ, zero, suc, Bool, true, false, ◌+◌, ◌*◌, ◌^◌, ◌<◌, ◌≤◌, ◌≡◌, ◌≢◌, ap, ◌∙◌, List, [], ◌∷◌, ◌==◌,
  if◌then◌else◌, arith, ne→==, ==_refl, ◌⊎◌, Option, none, some, Bool-cases, inl, inr,
}
use litepcie_ptm_test.Base.Word.{sub64, ◌>>>◌}
use litepcie_ptm_test.Config.{dma_buffer_count, dma_buffer_size, dma_buffer_total_size}
use litepcie_ptm_test.File.{Ret, Errno}

-- The fields of `struct vm_area_struct` that the driver reads.
pub record Vma : Type 0 where
  pub vm_start : ℕ
  pub vm_end : ℕ
  pub vm_pgoff : ℕ

-- One call of remap_pfn_range that succeeded.
pub record Mapping : Type 0 where
  pub addr : ℕ
  pub pfn : ℕ
  pub len : ℕ

module _ (page_shift : ℕ) (remap_ok : ℕ → Bool) where
  -- The loop over the buffers, with `left` to go from `i` on; the newest mapping stands first.
  unfoldable pub map_buffers : (ℕ → ℕ) → ℕ → ℕ → ℕ → List Mapping → Ret × List Mapping
  map_buffers pa vm_start zero i ms = (Ret.done 0, ms)
  map_buffers pa vm_start (suc left) i ms =
      let one : Mapping = record {
        addr = vm_start + i * dma_buffer_size;
        pfn = pa i >>> page_shift;
        len = dma_buffer_size;
      } in
      let rest = map_buffers pa vm_start left (i + 1) (one ∷ ms) in
      if remap_ok i then rest else (Ret.fail Errno.eagain, ms)

  -- Which buffers a page offset asks for: the reader's (true) or the writer's.
  abbrev pub direction : ℕ → Option Bool
  direction vm_pgoff =
      if vm_pgoff == 0
      then some true
      else (if vm_pgoff == dma_buffer_total_size >>> page_shift then some false else none)

  -- `litepcie_mmap`
  unfoldable pub mmap : (reader_pa writer_pa : ℕ → ℕ) → Vma → Ret × List Mapping
  mmap reader_pa writer_pa vma =
      if sub64 vma.vm_end vma.vm_start == dma_buffer_total_size
      then elim (direction vma.vm_pgoff) [
        | none ↦ (Ret.fail Errno.einval, [])
        | some is_tx ↦
            map_buffers (if is_tx then reader_pa else writer_pa) vma.vm_start dma_buffer_count 0 []
      ]
      else (Ret.fail Errno.einval, [])

  -- The mappings of buffers 0 to n - 1, one behind the other from an address on.
  pub contiguous : (ℕ → ℕ) → ℕ → ℕ → List Mapping
  contiguous pa start zero = []
  contiguous pa start (suc n) =
      record {
        addr = start + n * dma_buffer_size;
        pfn = pa n >>> page_shift;
        len = dma_buffer_size;
      }
      ∷ contiguous pa start n

  map_buffers-contiguous :
      (pa : ℕ → ℕ) (start left i : ℕ)
      → ((k : ℕ) → remap_ok k ≡ true)
      → map_buffers pa start left i (contiguous pa start i)
        ≡ (Ret.done 0, contiguous pa start (i + left))
  unfolding map_buffers contiguous
  map_buffers-contiguous pa start zero i ok =
      ap (λ n. (Ret.done 0, contiguous pa start n)) (omega arith)
  map_buffers-contiguous pa start (suc left) i ok =
      let next : i + 1 + left ≡ i + suc left = omega arith in
      let step : contiguous pa start (suc i) ≡ contiguous pa start (i + 1) =
        let one_more : suc i ≡ i + 1 = omega arith in ap (contiguous pa start) one_more in
      rw (ok i) (
        ap (map_buffers pa start left (i + 1)) step
        ∙ map_buffers-contiguous pa start left (i + 1) ok
        ∙ ap (λ n. (Ret.done 0, contiguous pa start n)) next)

  direction_lem :
      (is_tx : Bool) (off : ℕ)
      → page_shift ≤ 21
      → off ≡ (if is_tx then 0 else dma_buffer_total_size >>> page_shift)
      → direction off ≡ some is_tx
  direction_lem true off page e = rw e
  direction_lem false off page e =
      let fits : 2 ^ page_shift ≤ 2 ^ 21 = pow-le-pow_right {n = 2} (omega arith) page in
      let some_page =
        (le-div_iff_mul-le {k = 2 ^ page_shift} {x = 1} {y = dma_buffer_total_size}
            (omega (arith, one-le-pow page_shift 2))).1
          (omega (arith, fits)) in
      let later : off ≢ 0 = λ z. ground (arith, some_page, e, z) in
      let there : (off == dma_buffer_total_size >>> page_shift) ≡ true = rw e (==_refl _) in
      rw (ne→== off 0 later, there)

  -- `litepcie_mmap` of an area of the size of a direction's buffers, at page offset 0 for the reader
  -- or at that size for the writer, maps all 256 buffers of the direction, in order and without
  -- gaps, if the kernel maps each. Pages have at most 2 MB.
  pub mmap-contiguous :
      (reader_pa writer_pa : ℕ → ℕ) (vma : Vma) (is_tx : Bool)
      → ((k : ℕ) → remap_ok k ≡ true)
      → vma.vm_end ≡ vma.vm_start + dma_buffer_total_size
      → vma.vm_end < 2 ^ 64
      → page_shift ≤ 21
      → vma.vm_pgoff ≡ (if is_tx then 0 else dma_buffer_total_size >>> page_shift)
      → mmap reader_pa writer_pa vma ≡ (
        Ret.done 0,
        contiguous (if is_tx then reader_pa else writer_pa) vma.vm_start dma_buffer_count,
      )
  unfolding mmap contiguous
  mmap-contiguous reader_pa writer_pa vma is_tx ok size fits page off =
      let whole : (sub64 vma.vm_end vma.vm_start == dma_buffer_total_size) ≡ true = ground arith in
      let way = direction_lem is_tx vma.vm_pgoff page off in
      rw (whole, way)
        (map_buffers-contiguous (if is_tx then reader_pa else writer_pa) vma.vm_start
          dma_buffer_count 0 ok)

  -- `litepcie_mmap` of an area of any other size, or at any other page offset, is EINVAL and maps
  -- nothing.
  pub mmap_rejects :
      (reader_pa writer_pa : ℕ → ℕ) (vma : Vma)
      → (sub64 vma.vm_end vma.vm_start ≢ dma_buffer_total_size)
        ⊎ ((vma.vm_pgoff ≢ 0) × (vma.vm_pgoff ≢ dma_buffer_total_size >>> page_shift))
      → mmap reader_pa writer_pa vma ≡ (Ret.fail Errno.einval, [])
  unfolding mmap
  mmap_rejects reader_pa writer_pa vma (inl h) =
      rw (ne→== (sub64 vma.vm_end vma.vm_start) dma_buffer_total_size h)
  mmap_rejects reader_pa writer_pa vma (inr (h, k)) =
      elim (Bool-cases (sub64 vma.vm_end vma.vm_start == dma_buffer_total_size)) [
        | inl e ↦
            rw (
              e,
              ne→== vma.vm_pgoff 0 h,
              ne→== vma.vm_pgoff (dma_buffer_total_size >>> page_shift) k,
            )
        | inr e ↦ rw e
      ]
