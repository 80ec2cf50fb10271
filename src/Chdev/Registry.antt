-- ===== src/Chdev/Registry.antt =====
-- What is registered after a list of calls: the yardstick for allocation and its roll-back.
use litepcie_ptm_test.Base.{ℕ, Bool, true, false, List, [], ◌∷◌, ◌==◌, if◌then◌else◌}
use litepcie_ptm_test.Chdev.{Call, cdev_init, cdev_add, device_create, device_destroy, cdev_del}

-- Whether the node with a minor number exists.
unfoldable pub node : List Call → ℕ → Bool
node [] m = false
node (cdev_init i ∷ c) m = node c m
node (cdev_add i k ok ∷ c) m = node c m
node (device_create k ok ∷ c) m = if ok then (if m == k then true else node c m) else node c m
node (device_destroy k ∷ c) m = if m == k then false else node c m
node (cdev_del i ∷ c) m = node c m

-- Whether the character device of a channel is in the kernel.
unfoldable pub cdev : List Call → ℕ → Bool
cdev [] j = false
cdev (cdev_init i ∷ c) j = cdev c j
cdev (cdev_add i k ok ∷ c) j = if ok then (if j == i then true else cdev c j) else cdev c j
cdev (device_create k ok ∷ c) j = cdev c j
cdev (device_destroy k ∷ c) j = cdev c j
cdev (cdev_del i ∷ c) j = if j == i then false else cdev c j
