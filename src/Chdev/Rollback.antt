-- ===== src/Chdev/Rollback.antt =====
-- software/kernel/main.c: allocation of the character devices registers all of them or none, and
-- freeing them undoes it.
use litepcie_ptm_test.Base.{
  ℕ, zero, suc, Bool, true, false, ◌+◌, ◌-◌, ◌<◌, ◌≤◌, ◌≡◌, refl, Option, none, some, List, ◌∷◌,
  if◌then◌else◌, arith, Bool-cases, ◌⊎◌, inl, inr,
}
use litepcie_ptm_test.File.{Ret, Errno}
use litepcie_ptm_test.Chdev.{Call, Alloc, destroy_all, free_chdev, add_all, create_all, alloc_chdev}
use litepcie_ptm_test.Chdev.Registry.{node, cdev}
use litepcie_ptm_test.Chdev.Ranges.{
  within, node-destroy_all, cdev-destroy_all, node-del_all, cdev-del_all, node-free_all,
  cdev-free_all,
}

pub Option-cases {ℓ} : {A : Type ℓ} → (o : Option A) → (o ≡ none) ⊎ ((a : A) × (o ≡ some a))
Option-cases none = inl refl
Option-cases (some a) = inr (a, refl)

module _ (channels minor_idx : ℕ) (c : List Call) where
  -- All channels have their character device and their node, and the next minor moves on.
  pub record Registers (a : Alloc) : Type 0 where
    pub ret : a.ret ≡ Ret.done 0
    pub base : a.minor_base ≡ minor_idx
    pub next_minor : a.minor_idx ≡ minor_idx + channels
    pub nodes : (x : ℕ) → node a.calls x ≡ (if within minor_idx channels x then true else node c x)
    pub cdevs : (x : ℕ) → cdev a.calls x ≡ (if within 0 channels x then true else cdev c x)

  -- The call fails with everything as it was.
  pub record RollsBack (a : Alloc) : Type 0 where
    pub error : Errno
    pub ret : a.ret ≡ Ret.fail error
    pub next_minor : a.minor_idx ≡ minor_idx
    pub nodes : (x : ℕ) → node a.calls x ≡ node c x
    pub cdevs : (x : ℕ) → cdev a.calls x ≡ cdev c x

module _ (add_error : ℕ → Option Errno) (create_ok : ℕ → Bool) where
  -- The first loop changes no node, and no character device outside its range; without an error it
  -- registers the whole range.
  record Adds (left i : ℕ) (c : List Call) (out : Option Errno × List Call) : Type 0 where
    nodes : (x : ℕ) → node out.1 x ≡ node c x
    others : (x : ℕ) → within i left x ≡ false → cdev out.1 x ≡ cdev c x
    all : (x : ℕ) → out.0 ≡ none → cdev out.1 x ≡ (if within i left x then true else cdev c x)

  add_all-Adds :
      (left i index : ℕ) (c : List Call)
      → Adds left i c (add_all add_error create_ok left i index c)
  unfolding add_all node cdev
  add_all-Adds zero i index c = record {
    nodes = λ x. refl;
    others = λ x e. refl;
    all = λ x e. ground arith;
  }
  add_all-Adds (suc left) i index c =
      let rest =
        add_all-Adds left (i + 1) (index + 1) (Call.cdev_add i index true ∷ Call.cdev_init i ∷ c) in
      elim (Option-cases (add_error i)) [
        | inl e ↦
            rw (add_all, e)
              (record {
                nodes = rest.nodes;
                others = λ x o. ground (arith, rest.others x);
                all = λ x n. ground (arith, rest.all x n);
              })
        | inr (a, e) ↦
            rw (add_all, e)
              (record {
                nodes = λ x. refl;
                others = λ x o. refl;
                all = λ x n. absurd (ground (arith, n));
              })
      ]

  -- The second loop changes no character device; it creates the nodes of its range up to the one
  -- that fails.
  record Creates (left i index : ℕ) (c : List Call) (out : Option ℕ × List Call) : Type 0 where
    cdevs : (x : ℕ) → cdev out.1 x ≡ cdev c x
    all : (x : ℕ) → out.0 ≡ none → node out.1 x ≡ (if within index left x then true else node c x)
    some_of :
        (k : ℕ)
        → out.0 ≡ some k
        → (i ≤ k)
          × (k < i + left)
          × ((x : ℕ) → node out.1 x ≡ (if within index (k - i) x then true else node c x))

  create_all-Creates :
      (left i index : ℕ) (c : List Call)
      → Creates left i index c (create_all add_error create_ok left i index c)
  unfolding create_all node cdev
  create_all-Creates zero i index c = record {
    cdevs = λ x. refl;
    all = λ x e. ground arith;
    some_of = λ k e. absurd (ground (arith, e));
  }
  create_all-Creates (suc left) i index c =
      let rest = create_all-Creates left (i + 1) (index + 1) (Call.device_create index true ∷ c) in
      elim (Bool-cases (create_ok i)) [
        | inl e ↦ rw e (record {
          cdevs = rest.cdevs;
          all = λ x n. ground (arith, rest.all x n);
          some_of = λ k h.
              let (a, b, n) = rest.some_of k h in
              (omega (arith, a), omega (arith, b), λ x. ground (arith, n x, a));
        })
        | inr e ↦ rw e (record {
          cdevs = λ x. refl;
          all = λ x n. absurd (ground (arith, n));
          some_of = λ k h.
              let same : i ≡ k = ground (arith, h) in
              (omega (arith, same), omega (arith, same), λ x. ground (arith, same));
        })
      ]

  -- `litepcie_alloc_chdev`, where the minors and channels to come are not registered: it succeeds
  -- with the character device and the node of every channel registered and the next minor moved on
  -- by the number of channels; or it fails, at whatever call of the kernel, and then every node and
  -- character device is as it was before, and the next minor too.
  pub alloc_chdev_all_or_none :
      (channels minor_idx : ℕ) (c : List Call)
      → ((x : ℕ) → within minor_idx channels x ≡ true → node c x ≡ false)
      → ((x : ℕ) → within 0 channels x ≡ true → cdev c x ≡ false)
      → let a = alloc_chdev add_error create_ok channels minor_idx c in
        Registers channels minor_idx c a ⊎ RollsBack channels minor_idx c a
  unfolding alloc_chdev
  alloc_chdev_all_or_none channels minor_idx c free_minors free_chans =
      let (error, c1) = add_all add_error create_ok channels 0 minor_idx c in
      let adds = add_all-Adds channels 0 minor_idx c in
      let (at, c2) = create_all add_error create_ok channels 0 minor_idx c1 in
      let creates = create_all-Creates channels 0 minor_idx c1 in
      elim (Option-cases error) [
        | inl e ↦ elim (Option-cases at) [
          | inl f ↦
              rw (alloc_chdev, e, f)
                (inl (record {
                  ret = refl;
                  base = refl;
                  next_minor = refl;
                  nodes = λ x. ground (arith, creates.all x f, adds.nodes x);
                  cdevs = λ x. ground (arith, creates.cdevs x, adds.all x e);
                }))
          | inr (k, f) ↦
              let (low, high, made) = creates.some_of k f in
              rw (alloc_chdev, e, f)
                (inr (record {
                  error = Errno.einval;
                  ret = refl;
                  next_minor = refl;
                  nodes = λ x. ground (
                    arith,
                    node-del_all channels 0 (destroy_all k minor_idx c2) x,
                    node-destroy_all k minor_idx c2 x,
                    made x,
                    adds.nodes x,
                    free_minors x,
                    high,
                  );
                  cdevs = λ x. ground (
                    arith,
                    cdev-del_all channels 0 (destroy_all k minor_idx c2) x,
                    cdev-destroy_all k minor_idx c2 x,
                    creates.cdevs x,
                    adds.all x e,
                    free_chans x,
                  );
                }))
        ]
        | inr (a, e) ↦
            rw (alloc_chdev, e)
              (inr (record {
                error = a;
                ret = refl;
                next_minor = refl;
                nodes = λ x. ground (arith, node-del_all channels 0 c1 x, adds.nodes x);
                cdevs =
                    λ x. ground (arith, cdev-del_all channels 0 c1 x, adds.others x, free_chans x);
              }))
      ]

  -- `litepcie_free_chdev` after an allocation that succeeded, of minors and channels that were not
  -- registered, leaves every node and character device as it was before the allocation.
  pub free_chdev_undoes :
      (channels minor_idx : ℕ) (c : List Call) (x : ℕ)
      → ((x : ℕ) → within minor_idx channels x ≡ true → node c x ≡ false)
      → ((x : ℕ) → within 0 channels x ≡ true → cdev c x ≡ false)
      → (alloc_chdev add_error create_ok channels minor_idx c).ret ≡ Ret.done 0
      → let a = alloc_chdev add_error create_ok channels minor_idx c in
        let f = free_chdev channels a.minor_base a.calls in
        (node f x ≡ node c x) × (cdev f x ≡ cdev c x)
  unfolding free_chdev
  free_chdev_undoes channels minor_idx c x free_minors free_chans ok =
      let a = alloc_chdev add_error create_ok channels minor_idx c in
      elim (alloc_chdev_all_or_none channels minor_idx c free_minors free_chans) [
        | inl r ↦ (
          ground (
            arith,
            node-free_all channels 0 a.minor_base a.calls x,
            r.nodes x,
            r.base,
            free_minors x,
          ),
          ground (arith, cdev-free_all channels 0 a.minor_base a.calls x, r.cdevs x, free_chans x),
        )
        | inr r ↦ absurd (ground (arith, ok, r.ret))
      ]
