-- ===== src/Prelude/Elements.antt =====
-- The single elements of lists that are cut, joined and overwritten.
use Prim.Native.Nat.{ℕ, zero, suc, ◌+◌, ◌-◌, ◌≤◌}
use mathlib.Core.Path.{◌≡◌, refl, ap, ◌∙◌}
use mathlib.Core.Option.{none}
use mathlib.Core.List.{List, [], ◌∷◌, ◌++◌}
use native.Mathlib.Omega.{arith}
use linux_riscv.Prelude.Tests.{ltb, if◌then◌else◌}
use linux_riscv.Prelude.Lists.{length, get_elem?, take, drop, splice, length-take}

module _ {ℓ} {A : Type ℓ} where
  pub get_elem?-take :
      (n : ℕ) (xs : List A) (i : ℕ)
      → get_elem? (take n xs) i ≡ (if ltb i n then get_elem? xs i else none)
  get_elem?-take zero xs i = ground arith
  get_elem?-take (suc n) [] i = ground arith
  get_elem?-take (suc n) (x ∷ xs) zero = ground arith
  get_elem?-take (suc n) (x ∷ xs) (suc i) = ground (arith, get_elem?-take n xs i)

  pub get_elem?-drop :
      (n : ℕ) (xs : List A) (i : ℕ) → get_elem? (drop n xs) i ≡ get_elem? xs (n + i)
  get_elem?-drop zero xs i = ap (get_elem? xs) (omega arith)
  get_elem?-drop (suc n) [] i = refl
  get_elem?-drop (suc n) (x ∷ xs) i =
      let e : suc (n + i) ≡ suc n + i = omega arith in
      get_elem?-drop n xs i ∙ ap (get_elem? (x ∷ xs)) e

  pub get_elem?-append :
      (xs ys : List A) (i : ℕ)
      → get_elem? (xs ++ ys) i
        ≡ (if ltb i (length xs) then get_elem? xs i else get_elem? ys (i - length xs))
  get_elem?-append [] ys i = ground arith
  get_elem?-append (x ∷ xs) ys zero = ground arith
  get_elem?-append (x ∷ xs) ys (suc i) = ground (arith, get_elem?-append xs ys i)

-- Bytes and the like: a case split on numbers stays below `Type 1`.
module _ {A : Type 0} where
  -- A block that is written is seen where it lies, and the buffer everywhere else.
  pub get_elem?-splice :
      (buf bytes : List A) (at i : ℕ)
      → at ≤ length buf
      → get_elem? (splice buf at bytes) i ≡ (
          if ltb i at
          then get_elem? buf i
          else if ltb i (at + length bytes)
          then get_elem? bytes (i - at)
          else get_elem? buf i)
  get_elem?-splice buf bytes at i h = ground (
    arith,
    get_elem?-append (take at buf) (bytes ++ drop (at + length bytes) buf) i,
    get_elem?-append bytes (drop (at + length bytes) buf) (i - length (take at buf)),
    get_elem?-take at buf i,
    get_elem?-drop (at + length bytes) buf (i - length (take at buf) - length bytes),
    length-take at buf,
  )
