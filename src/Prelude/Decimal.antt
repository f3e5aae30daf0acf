-- ===== src/Prelude/Decimal.antt =====
-- Decimal texts of numbers: what "%ld" prints of a number that is not negative.
use Prim.Native.Nat.{ℕ, zero, suc, ◌+◌, ◌-◌, ◌*◌, ◌/◌, ◌%◌, ◌≤◌, ◌<◌}
use mathlib.Core.Path.{◌≡◌, refl, ◌∙◌}
use mathlib.Core.Logic.{inl, inr}
use mathlib.Core.List.{List, [], ◌∷◌, ◌++◌}
use native.Mathlib.Omega.{arith}
use linux_riscv.Prelude.Tests.{ltb, if◌then◌else◌, Bool-cases}
use linux_riscv.Prelude.Lists.{length, length-append}

-- At most `suc f` digits of `n`.
digits : ℕ → ℕ → List ℕ
digits zero n = (b'0' + n % 10) ∷ []
digits (suc f) n =
    let rest = digits f (n / 10) ++ (b'0' + n % 10) ∷ [] in
    if ltb n 10 then (b'0' + n) ∷ [] else rest

-- Ten digits are enough below 2 ^ 32.
pub decimal : ℕ → List ℕ
unfolding digits
decimal n = digits 9 n

-- The number that digits spell behind `n`.
abbrev pub value_from : ℕ → List ℕ → ℕ
value_from n [] = n
value_from n (c ∷ cs) = value_from (n * 10 + (c - b'0')) cs

pub value : List ℕ → ℕ
value cs = value_from 0 cs

value_from-append :
    (cs ds : List ℕ) (n : ℕ) → value_from n (cs ++ ds) ≡ value_from (value_from n cs) ds
value_from-append [] ds n = refl
value_from-append (c ∷ cs) ds n = value_from-append cs ds (n * 10 + (c - b'0'))

-- The numbers of at most `suc f` digits.
abbrev limit : ℕ → ℕ
limit zero = 10
limit (suc f) = 10 * limit f

value_from-digits : (f n : ℕ) → n < limit f → value_from 0 (digits f n) ≡ n
unfolding digits
value_from-digits zero n h = omega arith
value_from-digits (suc f) n h = elim (Bool-cases (ltb n 10)) [
  | inl one ↦ rw one (omega arith)
  | inr more ↦ rw more (
      value_from-append (digits f (n / 10)) ((b'0' + n % 10) ∷ []) 0
      ∙ omega (arith, value_from-digits f (n / 10) (omega arith)))
]

length-digits : (f n : ℕ) → length (digits f n) ≤ suc f
unfolding digits
length-digits zero n = omega arith
length-digits (suc f) n = elim (Bool-cases (ltb n 10)) [
  | inl one ↦ rw one (omega arith)
  | inr more ↦ rw more (
      omega
        (arith, length-append (digits f (n / 10)) ((b'0' + n % 10) ∷ []), length-digits f (n / 10)))
]

-- A number below 2 ^ 31 is read back from its text, which has at most ten digits.
pub value-decimal : (n : ℕ) → n < 2147483648 → value (decimal n) ≡ n
unfolding decimal value
value-decimal n h = value_from-digits 9 n (omega arith)

pub length-decimal : (n : ℕ) → length (decimal n) ≤ 10
unfolding decimal
length-decimal n = length-digits 9 n

decimal_test : decimal 120 ≡ b'1' ∷ b'2' ∷ b'0' ∷ []
unfolding decimal
decimal_test = refl
