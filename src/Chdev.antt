-- ===== src/Chdev.antt =====
-- software/kernel/main.c: the character devices of one device, `litepcie_alloc_chdev` and
-- `litepcie_free_chdev`. The calls of the kernel are recorded in a list, newest first, each with its
-- success. What cdev_add and device_create answer is an argument.
pub mod Registry
pub mod Ranges
pub mod Rollback
use litepcie_ptm_test.Base.{
  ℕ, zero, suc, Bool, true, false, ◌+◌, Option, none, some, List, ◌∷◌, if◌then◌else◌,
}
use litepcie_ptm_test.File.{Ret, Errno}

-- A character device is named by its channel, a node by its minor number.
pub data Call : Type 0 where
  cdev_init : ℕ → Call
  cdev_add : (chan minor : ℕ) (ok : Bool) → Call
  device_create : (minor : ℕ) (ok : Bool) → Call
  device_destroy : ℕ → Call
  cdev_del : ℕ → Call

-- The results, and what the call leaves in `minor_base` and `litepcie_minor_idx`.
pub record Alloc : Type 0 where
  pub ret : Ret
  pub minor_base : ℕ
  pub minor_idx : ℕ
  pub calls : List Call

-- The loop at `fail_create`, with `left` nodes to destroy from `index` on.
unfoldable pub destroy_all : ℕ → ℕ → List Call → List Call
destroy_all zero index c = c
destroy_all (suc left) index c = destroy_all left (index + 1) (Call.device_destroy index ∷ c)

-- The loop at `fail_alloc`, from channel `i` on.
unfoldable pub del_all : ℕ → ℕ → List Call → List Call
del_all zero i c = c
del_all (suc left) i c = del_all left (i + 1) (Call.cdev_del i ∷ c)

-- The loop of `litepcie_free_chdev`.
unfoldable pub free_all : ℕ → ℕ → ℕ → List Call → List Call
free_all zero i minor_base c = c
free_all (suc left) i minor_base c =
    free_all left (i + 1) minor_base (Call.cdev_del i ∷ Call.device_destroy (minor_base + i) ∷ c)

-- `litepcie_free_chdev`
unfoldable pub free_chdev : ℕ → ℕ → List Call → List Call
free_chdev channels minor_base c = free_all channels 0 minor_base c

module _ (add_error : ℕ → Option Errno) (create_ok : ℕ → Bool) where
  -- The first loop, with `left` channels to go from `i` on: the error of cdev_add, if any.
  unfoldable pub add_all : ℕ → ℕ → ℕ → List Call → Option Errno × List Call
  add_all zero i index c = (none, c)
  add_all (suc left) i index c =
      let c1 = Call.cdev_init i ∷ c in
      let rest = add_all left (i + 1) (index + 1) (Call.cdev_add i index true ∷ c1) in
      elim (add_error i) [ some e ↦ (some e, Call.cdev_add i index false ∷ c1) | none ↦ rest ]

  -- The second loop: the channel at which device_create fails, if any.
  unfoldable pub create_all : ℕ → ℕ → ℕ → List Call → Option ℕ × List Call
  create_all zero i index c = (none, c)
  create_all (suc left) i index c =
      let rest = create_all left (i + 1) (index + 1) (Call.device_create index true ∷ c) in
      if create_ok i then rest else (some i, Call.device_create index false ∷ c)

  -- `litepcie_alloc_chdev`
  unfoldable pub alloc_chdev : ℕ → ℕ → List Call → Alloc
  alloc_chdev channels minor_idx c =
      let failed : Errno → List Call → Alloc = λ e c. record {
        ret = Ret.fail e;
        minor_base = minor_idx;
        minor_idx = minor_idx;
        calls = del_all channels 0 c;
      } in
      let (error, c1) = add_all channels 0 minor_idx c in
      elim error [
        | some e ↦ failed e c1
        | none ↦
            let (at, c2) = create_all channels 0 minor_idx c1 in
            elim at [
              | some i ↦ failed Errno.einval (destroy_all i minor_idx c2)
              | none ↦ record {
                ret = Ret.done 0;
                minor_base = minor_idx;
                minor_idx = minor_idx + channels;
                calls = c2;
              }
            ]
      ]
