-- ===== src/Prelude/Lists.antt =====
-- Lists measured and indexed by native numbers, under the library's names, and the write of a
-- block into an array (`splice`, the effect of a memcpy at an offset).
use Prim.Native.Nat.{ℕ, zero, suc, ◌+◌, ◌-◌, ◌≤◌, min}
use mathlib.Core.Path.{◌≡◌, refl, sym, ap, ap₂, ◌∙◌}
use mathlib.Core.Logic.{◌⊎◌}
use mathlib.Core.List.{List, [], ◌∷◌, ◌++◌}
use mathlib.Core.Option.{Option, none, some}
use native.Mathlib.Omega.{arith}

module _ {ℓ} {A : Type ℓ} where
  abbrev pub length : List A → ℕ
  length [] = 0
  length (x ∷ xs) = suc (length xs)

  abbrev pub get_elem? : List A → ℕ → Option A
  get_elem? [] i = none
  get_elem? (x ∷ xs) zero = some x
  get_elem? (x ∷ xs) (suc i) = get_elem? xs i

  abbrev pub take : ℕ → List A → List A
  take zero xs = []
  take (suc n) [] = []
  take (suc n) (x ∷ xs) = x ∷ take n xs

  abbrev pub drop : ℕ → List A → List A
  drop zero xs = xs
  drop (suc n) [] = []
  drop (suc n) (x ∷ xs) = drop n xs

  abbrev pub replicate : ℕ → A → List A
  replicate zero a = []
  replicate (suc n) a = a ∷ replicate n a

  pub length-append : (xs ys : List A) → length (xs ++ ys) ≡ length xs + length ys
  length-append [] ys = omega arith
  length-append (x ∷ xs) ys = omega (arith, length-append xs ys)

  pub length-take : (n : ℕ) (xs : List A) → length (take n xs) ≡ min n (length xs)
  length-take zero xs = omega arith
  length-take (suc n) [] = omega arith
  length-take (suc n) (x ∷ xs) = omega (arith, length-take n xs)

  pub length-drop : (n : ℕ) (xs : List A) → length (drop n xs) ≡ length xs - n
  length-drop zero xs = omega arith
  length-drop (suc n) [] = omega arith
  length-drop (suc n) (x ∷ xs) = omega (arith, length-drop n xs)

  pub length-replicate : (n : ℕ) (a : A) → length (replicate n a) ≡ n
  length-replicate zero a = refl
  length-replicate (suc n) a = ap suc (length-replicate n a)

  pub take_all : (n : ℕ) (xs : List A) → length xs ≤ n → take n xs ≡ xs
  take_all zero [] h = refl
  take_all zero (x ∷ xs) h = absurd (omega arith)
  take_all (suc n) [] h = refl
  take_all (suc n) (x ∷ xs) h = ap (◌∷◌ x) (take_all n xs (omega arith))

  pub take-append : (n : ℕ) (xs ys : List A) → n ≤ length xs → take n (xs ++ ys) ≡ take n xs
  take-append zero xs ys h = refl
  take-append (suc n) [] ys h = absurd (omega arith)
  take-append (suc n) (x ∷ xs) ys h = ap (◌∷◌ x) (take-append n xs ys (omega arith))

  pub drop-append_self : (n : ℕ) (xs ys : List A) → length xs ≡ n → drop n (xs ++ ys) ≡ ys
  drop-append_self zero [] ys h = refl
  drop-append_self zero (x ∷ xs) ys h = absurd (omega arith)
  drop-append_self (suc n) [] ys h = absurd (omega arith)
  drop-append_self (suc n) (x ∷ xs) ys h = drop-append_self n xs ys (omega arith)

  pub take-take : (m n : ℕ) (xs : List A) → m ≤ n → take m (take n xs) ≡ take m xs
  take-take zero n xs h = refl
  take-take (suc m) zero xs h = absurd (omega arith)
  take-take (suc m) (suc n) [] h = refl
  take-take (suc m) (suc n) (x ∷ xs) h = ap (◌∷◌ x) (take-take m n xs (omega arith))

  -- The block `bytes` written into `buf` from index `at` on.
  abbrev pub splice : List A → ℕ → List A → List A
  splice buf at bytes = take at buf ++ (bytes ++ drop (at + length bytes) buf)

module _ {ℓ} {A : Type ℓ} where
  pub length-splice :
      (buf : List A) (at : ℕ) (bytes : List A)
      → at + length bytes ≤ length buf
      → length (splice buf at bytes) ≡ length buf
  length-splice buf at bytes h = omega (
    arith,
    length-append (take at buf) (bytes ++ drop (at + length bytes) buf),
    length-append bytes (drop (at + length bytes) buf),
    length-take at buf,
    length-drop (at + length bytes) buf,
  )

  -- The block is read back where it was written.
  pub drop-splice :
      (buf : List A) (at : ℕ) (bytes : List A)
      → at ≤ length buf
      → drop at (splice buf at bytes) ≡ bytes ++ drop (at + length bytes) buf
  drop-splice buf at bytes h =
      drop-append_self at (take at buf) (bytes ++ drop (at + length bytes) buf)
        (omega (arith, length-take at buf))

  pub take-nil : (n : ℕ) → take {A = A} n [] ≡ []
  take-nil zero = refl
  take-nil (suc n) = refl

  pub drop-take : (m n : ℕ) (xs : List A) → drop m (take n xs) ≡ take (n - m) (drop m xs)
  drop-take zero n xs = ap (λ (k : ℕ). take k xs) (omega arith)
  drop-take (suc m) zero [] = sym (take-nil (zero - suc m))
  drop-take (suc m) zero (x ∷ xs) =
      let e : zero ≡ zero - suc m = omega arith in ap (λ (k : ℕ). take k (drop m xs)) e
  drop-take (suc m) (suc n) [] = sym (take-nil (suc n - suc m))
  drop-take (suc m) (suc n) (x ∷ xs) =
      drop-take m n xs ∙ ap (λ (k : ℕ). take k (drop m xs)) (omega arith)

  -- A cut behind the first list.
  pub take-append_past :
      (n k : ℕ) (xs ys : List A) → n ≡ length xs + k → take n (xs ++ ys) ≡ xs ++ take k ys
  take-append_past n k [] ys e = ap (λ (j : ℕ). take j ys) (omega arith)
  take-append_past zero k (x ∷ xs) ys e = absurd (omega arith)
  take-append_past (suc n) k (x ∷ xs) ys e = ap (◌∷◌ x) (take-append_past n k xs ys (omega arith))

  -- A write into an array, seen through the first `n` elements, which it may extend to `m`.
  pub take-splice :
      (buf : List A) (at n m : ℕ) (bytes : List A)
      → at ≤ n
      → n ≤ length buf
      → n ≤ m
      → at + length bytes ≤ m
      → (m ≤ n) ⊎ (m ≤ at + length bytes)
      → take m (splice buf at bytes) ≡ splice (take n buf) at bytes
  take-splice buf at n m bytes h₁ h₂ h₃ h₄ h₅ =
      take-append_past m (m - at) (take at buf) _ (omega (arith, length-take at buf))
      ∙ ap₂ ◌++◌ (sym (take-take at n buf h₁)) (
          take-append_past (m - at) (n - (at + length bytes)) bytes _ (omega arith)
          ∙ ap (◌++◌ bytes) (sym (drop-take (at + length bytes) n buf)))
