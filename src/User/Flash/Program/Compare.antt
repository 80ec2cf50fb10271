-- ===== src/User/Flash/Program/Compare.antt =====
-- software/user/liblitepcie/litepcie_flash.c: the memcmp that checks a page.
use litepcie_ptm_test.Base.{
  ℕ, zero, suc, Bool, true, false, ◌+◌, ◌≡◌, refl, arith, Bool-cases, inl, inr, ◌⊎◌, subst, sym,
  List, [], ◌∷◌, ◌≢◌, length, ==_refl,
}
use litepcie_ptm_test.User.Flash.Program.{same_bytes}

-- The `n` bytes of the buffer from a place on.
pub bytes_of : (ℕ → ℕ) → (at n : ℕ) → List ℕ
bytes_of buf at zero = []
bytes_of buf at (suc n) = buf at ∷ bytes_of buf (at + 1) n

-- Whether `n` bytes are those of the buffer.
abbrev pub Compared : (ℕ → ℕ) → (at n : ℕ) → List ℕ → Bool → Type 0
Compared buf at n cmp_buf right =
    (length cmp_buf ≡ n)
    × (((right ≡ true) × (cmp_buf ≡ bytes_of buf at n))
        ⊎ ((right ≡ false) × (cmp_buf ≢ bytes_of buf at n)))

same_bytes-true :
    (buf : ℕ → ℕ) (at : ℕ) (cmp_buf : List ℕ)
    → same_bytes buf at cmp_buf ≡ true
    → cmp_buf ≡ bytes_of buf at (length cmp_buf)
unfolding bytes_of
same_bytes-true buf at [] e = refl
same_bytes-true buf at (x ∷ cmp_buf) e = ground (arith, same_bytes-true buf (at + 1) cmp_buf)

same_bytes-bytes_of : (buf : ℕ → ℕ) (at n : ℕ) → same_bytes buf at (bytes_of buf at n) ≡ true
unfolding bytes_of
same_bytes-bytes_of buf at zero = refl
same_bytes-bytes_of buf at (suc n) = rw (==_refl (buf at), same_bytes-bytes_of buf (at + 1) n) refl

-- `memcmp` against a page tells whether the bytes are those of the buffer.
pub same_bytes-Compared :
    (buf : ℕ → ℕ) (at n : ℕ) (cmp_buf : List ℕ)
    → length cmp_buf ≡ n
    → Compared buf at n cmp_buf (same_bytes buf at cmp_buf)
same_bytes-Compared buf at n cmp_buf all = elim (Bool-cases (same_bytes buf at cmp_buf)) [
  | inl same ↦ (all, inl (same, rw (← all) (same_bytes-true buf at cmp_buf same)))
  | inr other ↦ (
    all,
    inr (
      other,
      λ e. absurd (
          cc (
            other,
            subst (λ l. same_bytes buf at l ≡ true) (sym e) (same_bytes-bytes_of buf at n),
          )),
    ),
  )
]
