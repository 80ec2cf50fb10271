-- ===== src/Probe/Irqs.antt =====
-- software/kernel/main.c: the interrupt handlers that the probe requests and the removal frees.
use litepcie_ptm_test.Base.{
  ℕ, zero, suc, true, ◌+◌, ◌<◌, ◌≡◌, refl, Option, none, some, if◌then◌else◌, arith, inl, inr, ◌∙◌,
  Bool-cases, ◌∙◌, Bool-cases,
}
use litepcie_ptm_test.File.{Errno}
use litepcie_ptm_test.Chdev.Ranges.{within}
use litepcie_ptm_test.Chdev.Rollback.{Option-cases}
use litepcie_ptm_test.Probe.{
  Cookie, litepcie_dev, pci_dev, set_irq, free_irq, request_irqs, free_down, free_up,
}

abbrev pub Irqs : Type 0
Irqs = ℕ → Option Cookie

-- The handlers of the driver on `n` vectors from `i` on, and `irqs` on the others.
abbrev pub handlers : ℕ → ℕ → Irqs → Irqs
handlers i n irqs j = if within i n j then some litepcie_dev else irqs j

-- How the loop of the probe ends.
pub data Requested (request : ℕ → Option Errno) (i left : ℕ) (irqs : Irqs)
    : Option (ℕ × Errno) × Irqs → Type 0 where
  all_given :
      (out : Irqs)
      → ((j : ℕ) → out j ≡ handlers i left irqs j)
      → Requested request i left irqs (none, out)
  one_refused :
      (k n : ℕ) (e : Errno) (out : Irqs)
      → k ≡ i + n
      → n < left
      → request k ≡ some e
      → ((j : ℕ) → out j ≡ handlers i n irqs j)
      → Requested request i left irqs (some (k, e), out)

-- One more handler before the loop goes on.
Requested-next :
    (request : ℕ → Option Errno) (i left : ℕ) (irqs : Irqs) (out : Option (ℕ × Errno) × Irqs)
    → request i ≡ none
    → Requested request (i + 1) left (set_irq i (some litepcie_dev) irqs) out
    → Requested request i (suc left) irqs out
Requested-next request i left irqs out e (all_given after all) =
    all_given after (λ j. ground (arith, all j))
Requested-next request i left irqs out e (one_refused k n error after place few refused all) =
    one_refused k (suc n) error after (omega arith) (omega arith) refused
      (λ j. ground (arith, all j))

pub request_irqs-Requested :
    (request : ℕ → Option Errno) (left i : ℕ) (irqs : Irqs)
    → Requested request i left irqs (request_irqs request left i irqs)
unfolding request_irqs
request_irqs-Requested request zero i irqs = all_given irqs (λ j. ground arith)
request_irqs-Requested request (suc left) i irqs = elim (Option-cases (request i)) [
  | inl e ↦
      rw (request_irqs, e)
        (Requested-next request i left irqs _ e
          (request_irqs-Requested request left (i + 1) (set_irq i (some litepcie_dev) irqs)))
  | inr (a, e) ↦
      rw (request_irqs, e)
        (one_refused i 0 a irqs (omega arith) (omega arith) e (λ j. ground arith))
]

-- The loop of the removal takes the driver's handlers off.
pub free_up-handlers :
    (left i : ℕ) (irqs : Irqs)
    → ((j : ℕ) → within i left j ≡ true → irqs j ≡ some litepcie_dev)
    → (j : ℕ) → free_up left i irqs j ≡ (if within i left j then none else irqs j)
unfolding free_up free_irq
free_up-handlers zero i irqs ours j = ground arith
free_up-handlers (suc left) i irqs ours j =
    let held : irqs i ≡ some litepcie_dev = ours i (ground arith) in
    let freed : free_irq i litepcie_dev irqs ≡ set_irq i none irqs = rw (free_irq, held) refl in
    let rest =
      free_up-handlers left (i + 1) (set_irq i none irqs) (λ j h. ground (arith, ours j)) j in
    rw freed (ground (arith, rest))

-- With the wrong cookie nothing is freed.
pub free_down-wrong :
    (i : ℕ) (irqs : Irqs)
    → ((j : ℕ) → j < i → irqs j ≡ some litepcie_dev)
    → free_down i pci_dev irqs ≡ irqs
unfolding free_down free_irq
free_down-wrong zero irqs ours = refl
free_down-wrong (suc i) irqs ours =
    rw (free_down, free_irq, ours i (omega arith))
      (free_down-wrong i irqs (λ j h. ours j (omega arith)))

-- The removal frees what the probe requested.
pub free_up-undoes :
    (n : ℕ) (before irqs : Irqs) (x : ℕ)
    → ((j : ℕ) → irqs j ≡ handlers 0 n before j)
    → ((j : ℕ) → before j ≡ none)
    → free_up n 0 irqs x ≡ none
free_up-undoes n before irqs x ours none_before =
    let held : (j : ℕ) → within 0 n j ≡ true → irqs j ≡ some litepcie_dev =
      λ j h. ours j ∙ rw h refl in
    let freed = free_up-handlers n 0 irqs held x in
    elim (Bool-cases (within 0 n x)) [
      | inl inside ↦ freed ∙ rw inside refl
      | inr outside ↦ freed ∙ rw outside (ours x ∙ rw outside (none_before x))
    ]
