-- ===== src/Chdev/Ranges.antt =====
-- What each loop does to a range of nodes or character devices.
use litepcie_ptm_test.Base.{
  ℕ, zero, suc, Bool, false, ◌+◌, ◌≡◌, refl, List, ◌∷◌, if◌then◌else◌, ltb, leb, ◌&&◌, arith,
}
use litepcie_ptm_test.Chdev.{Call, destroy_all, del_all, free_all}
use litepcie_ptm_test.Chdev.Registry.{node, cdev}

-- `x` is one of the `n` numbers from `a` on.
abbrev pub within : ℕ → ℕ → ℕ → Bool
within a n x = leb a x && ltb x (a + n)

pub node-destroy_all :
    (left index : ℕ) (c : List Call) (x : ℕ)
    → node (destroy_all left index c) x ≡ (if within index left x then false else node c x)
unfolding destroy_all node
node-destroy_all zero index c x = ground arith
node-destroy_all (suc left) index c x =
    ground (arith, node-destroy_all left (index + 1) (Call.device_destroy index ∷ c) x)

pub cdev-destroy_all :
    (left index : ℕ) (c : List Call) (x : ℕ) → cdev (destroy_all left index c) x ≡ cdev c x
unfolding destroy_all cdev
cdev-destroy_all zero index c x = refl
cdev-destroy_all (suc left) index c x =
    cdev-destroy_all left (index + 1) (Call.device_destroy index ∷ c) x

pub node-del_all : (left i : ℕ) (c : List Call) (x : ℕ) → node (del_all left i c) x ≡ node c x
unfolding del_all node
node-del_all zero i c x = refl
node-del_all (suc left) i c x = node-del_all left (i + 1) (Call.cdev_del i ∷ c) x

pub cdev-del_all :
    (left i : ℕ) (c : List Call) (x : ℕ)
    → cdev (del_all left i c) x ≡ (if within i left x then false else cdev c x)
unfolding del_all cdev
cdev-del_all zero i c x = ground arith
cdev-del_all (suc left) i c x = ground (arith, cdev-del_all left (i + 1) (Call.cdev_del i ∷ c) x)

pub node-free_all :
    (left i base : ℕ) (c : List Call) (x : ℕ)
    → node (free_all left i base c) x ≡ (if within (base + i) left x then false else node c x)
unfolding free_all node
node-free_all zero i base c x = ground arith
node-free_all (suc left) i base c x = ground (
  arith,
  node-free_all left (i + 1) base (Call.cdev_del i ∷ Call.device_destroy (base + i) ∷ c) x,
)

pub cdev-free_all :
    (left i base : ℕ) (c : List Call) (x : ℕ)
    → cdev (free_all left i base c) x ≡ (if within i left x then false else cdev c x)
unfolding free_all cdev
cdev-free_all zero i base c x = ground arith
cdev-free_all (suc left) i base c x = ground (
  arith,
  cdev-free_all left (i + 1) base (Call.cdev_del i ∷ Call.device_destroy (base + i) ∷ c) x,
)
