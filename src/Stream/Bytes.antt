-- ===== src/Stream/Bytes.antt =====
-- The first items of a list, and the others.
use litepcie_ptm_test.Base.{
  ℕ, zero, suc, ◌+◌, ◌-◌, ◌≡◌, ◌≤◌, refl, ap, List, [], ◌∷◌, ◌++◌, length, min, arith,
}
use litepcie_ptm_test.Stream.{take, drop}

module _ {ℓ} {A : Type ℓ} where
  pub take-append-within : (n : ℕ) (xs ys : List A) → n ≤ length xs → take n (xs ++ ys) ≡ take n xs
  take-append-within zero xs ys h = refl
  take-append-within (suc n) [] ys h = absurd (omega arith)
  take-append-within (suc n) (x ∷ xs) ys h =
      ap (λ l. x ∷ l) (take-append-within n xs ys (omega arith))

  pub take-append-beyond :
      (n : ℕ) (xs ys : List A) → take (length xs + n) (xs ++ ys) ≡ xs ++ take n ys
  take-append-beyond n [] ys = let e : 0 + n ≡ n = omega arith in rw e refl
  take-append-beyond n (x ∷ xs) ys =
      let e : suc (length xs) + n ≡ suc (length xs + n) = omega arith in
      rw e (ap (λ l. x ∷ l) (take-append-beyond n xs ys))

  pub take-all : (xs : List A) → take (length xs) xs ≡ xs
  take-all [] = refl
  take-all (x ∷ xs) = ap (λ l. x ∷ l) (take-all xs)

  pub take-none : (n : ℕ) → take {A = A} n [] ≡ []
  take-none zero = refl
  take-none (suc n) = refl

  pub length-take : (n : ℕ) (xs : List A) → length (take n xs) ≡ min n (length xs)
  length-take zero xs = omega arith
  length-take (suc n) [] = omega arith
  length-take (suc n) (x ∷ xs) = omega (arith, length-take n xs)

  pub length-drop : (n : ℕ) (xs : List A) → length (drop n xs) ≡ length xs - n
  length-drop zero xs = omega arith
  length-drop (suc n) [] = omega arith
  length-drop (suc n) (x ∷ xs) = omega (arith, length-drop n xs)

  pub take-more : (n : ℕ) (xs : List A) → length xs ≤ n → take n xs ≡ xs
  take-more zero [] h = refl
  take-more zero (x ∷ xs) h = absurd (omega arith)
  take-more (suc n) [] h = refl
  take-more (suc n) (x ∷ xs) h = ap (λ l. x ∷ l) (take-more n xs (omega arith))

  pub drop-more : (n : ℕ) (xs : List A) → length xs ≤ n → drop n xs ≡ []
  drop-more zero [] h = refl
  drop-more zero (x ∷ xs) h = absurd (omega arith)
  drop-more (suc n) [] h = refl
  drop-more (suc n) (x ∷ xs) h = drop-more n xs (omega arith)

  pub take-append :
      (n : ℕ) (xs ys : List A) → take n (xs ++ ys) ≡ take n xs ++ take (n - length xs) ys
  take-append n [] ys = let e : n - 0 ≡ n = omega arith in rw (take-none n, e) refl
  take-append zero (x ∷ xs) ys = let e : 0 - suc (length xs) ≡ 0 = omega arith in rw e refl
  take-append (suc n) (x ∷ xs) ys =
      let e : suc n - suc (length xs) ≡ n - length xs = omega arith in
      rw e (ap (λ l. x ∷ l) (take-append n xs ys))
