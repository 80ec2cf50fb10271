-- ===== src/Module.antt =====
-- software/kernel/main.c: `litepcie_module_init` and `litepcie_module_exit`, and the comparison of
-- revisions beside them. What the module holds in the kernel is a state, what the kernel answers an
-- argument.
use litepcie_ptm_test.Base.{
  ℕ, Bool, true, false, ◌^◌, ◌<◌, ◌≡◌, ◌≢◌, refl, Option, none, some, if◌then◌else◌, arith, inl,
  inr, ◌⊎◌, ◌↔◌, subst,
}
use litepcie_ptm_test.Base.Word.{slt32}
use litepcie_ptm_test.File.{Ret, Errno}

-- What class_create returns: a class, NULL, or an error as a pointer, which the code does not test.
pub data Class : Type 0 where
  created : Class
  null : Class
  err_ptr : Class

-- What the module has registered.
pub record Module : Type 0 where
  pub class : Option Class
  pub region : Bool
  pub driver : Bool

abbrev pub unloaded : Module
unloaded = record { class = none; region = false; driver = false }

-- `fail_alloc_chrdev_region`
abbrev pub destroy_class : Module → Module
destroy_class m = record m { class = none }

-- `litepcie_module_init`, with the answers of class_create, alloc_chrdev_region and
-- pci_register_driver.
unfoldable pub module_init : Class → (region driver : Option Errno) → Module → Ret × Module
module_init null region driver m = (Ret.fail Errno.eexist, m)
module_init class region driver m =
    let m = record m { class = some class } in
    elim region [
      | some e ↦ (Ret.fail e, destroy_class m)
      | none ↦
          let m = record m { region = true } in
          elim driver [
            | some e ↦ (Ret.fail e, destroy_class (record m { region = false }))
            | none ↦ (Ret.done 0, record m { driver = true })
          ]
    ]

-- `litepcie_module_exit`
unfoldable pub module_exit : Module → Module
module_exit m = destroy_class (record m { driver = false; region = false })

-- The module is loaded, with what class_create gave.
pub data Loaded (class : Class) (m : Module) : Type 0 where
  loaded :
      class ≢ null
      → m ≡ record { class = some class; region = true; driver = true }
      → Loaded class m

-- `litepcie_module_init` on nothing registered: it returns 0 with the class, the region and the
-- driver registered, and `litepcie_module_exit` then unregisters all three; or it returns an error
-- with nothing registered.
pub module_init_all_or_none :
    (class : Class) (region driver : Option Errno)
    → let (ret, m) = module_init class region driver unloaded in
      ((ret ≡ Ret.done 0) × Loaded class m × (module_exit m ≡ unloaded))
      ⊎ ((e : Errno) × (ret ≡ Ret.fail e) × (m ≡ unloaded))
unfolding module_init module_exit
module_init_all_or_none null region driver = inr (Errno.eexist, refl, refl)
module_init_all_or_none created (some e) driver = inr (e, refl, refl)
module_init_all_or_none created none (some e) = inr (e, refl, refl)
module_init_all_or_none created none none = inl (refl, loaded (λ e. cc e) refl, refl)
module_init_all_or_none err_ptr (some e) driver = inr (e, refl, refl)
module_init_all_or_none err_ptr none (some e) = inr (e, refl, refl)
module_init_all_or_none err_ptr none none = inl (refl, loaded (λ e. cc e) refl, refl)

-- `struct revision`, of three ints
pub record Revision : Type 0 where
  pub yy : ℕ
  pub mm : ℕ
  pub dd : ℕ

-- -1, 0 and 1
pub data Order : Type 0 where
  older same newer : Order

-- `compare_revisions`
unfoldable pub compare_revisions : Revision → Revision → Order
compare_revisions d1 d2 =
    if slt32 d1.yy d2.yy
    then older
    else if slt32 d2.yy d1.yy
    then newer
    else if slt32 d1.mm d2.mm
    then older
    else if slt32 d2.mm d1.mm
    then newer
    else if slt32 d1.dd d2.dd
    then older
    else if slt32 d2.dd d1.dd
    then newer
    else same

abbrev pub opposite : Order → Order
opposite older = newer
opposite same = same
opposite newer = older

-- Three ints, as their bit patterns.
pub record IsRevision (d : Revision) : Type 0 where
  pub yy_fits : d.yy < 2 ^ 32
  pub mm_fits : d.mm < 2 ^ 32
  pub dd_fits : d.dd < 2 ^ 32

opposite_lem : (d1 d2 : Revision) → compare_revisions d2 d1 ≡ opposite (compare_revisions d1 d2)
unfolding compare_revisions
opposite_lem d1 d2 = ground arith

same_fields :
    (d1 d2 : Revision)
    → IsRevision d1
    → IsRevision d2
    → compare_revisions d1 d2 ≡ same
    → (d1.yy ≡ d2.yy) × (d1.mm ≡ d2.mm) × (d1.dd ≡ d2.dd)
unfolding compare_revisions
same_fields d1 d2 v w h = ground arith

same_refl : (d : Revision) → compare_revisions d d ≡ same
unfolding compare_revisions
same_refl d = ground arith

-- `compare_revisions` of two revisions: turned round it gives the opposite answer, and it answers 0
-- exactly for equal revisions.
pub compare_revisions_order :
    (d1 d2 : Revision)
    → IsRevision d1
    → IsRevision d2
    → (compare_revisions d2 d1 ≡ opposite (compare_revisions d1 d2))
      × (compare_revisions d1 d2 ≡ same ↔ d1 ≡ d2)
compare_revisions_order d1 d2 v w = (
  opposite_lem d1 d2,
  (
    λ e. let f = same_fields d1 d2 v w e in rw (f.0, f.1, f.2) refl,
    λ e. subst (λ d. compare_revisions d1 d ≡ same) e (same_refl d1),
  ),
)
