-- ===== src/Prelude/Bits.antt =====
-- `(hi << k) | lo` as a sum, where `lo` has `k` bits: by recursion on the binary digits that the
-- native operation means.
use Prim.Native.Nat.{
  ℕ, zero, suc, ◌+◌, ◌*◌, ◌/◌, ◌^◌, ◌≤◌, ◌<◌, max, digits, bit_or, bit_or-bitwise,
}
use mathlib.Core.Path.{◌≡◌, refl, ap, ◌∙◌}
use native.Mathlib.Nat.{pow-suc, le_refl}
use native.Mathlib.Omega.{arith}

-- All digits of `a` stand at or above place `k`, and all of `r` below it.
disjoint_digits :
    (n k q r a : ℕ) → a ≡ q * 2 ^ k → r < 2 ^ k → a ≤ n → digits (λ b. b) max n a r ≡ a + r
disjoint_digits zero k q r zero e h l = omega arith
disjoint_digits zero k q r (suc a) e h l = absurd (omega arith)
disjoint_digits (suc n) k q r zero e h l = omega arith
disjoint_digits (suc n) zero q r (suc a) e h l = omega (
  arith,
  disjoint_digits n 0 (q / 2) (r / 2) (suc a / 2) (omega arith) (omega arith) (omega arith),
)
disjoint_digits (suc n) (suc k) q r (suc a) e h l =
    let even : suc a ≡ q * 2 ^ k * 2 = e ∙ ap (λ (t : ℕ). q * t) (pow-suc 2 k) ∙ omega arith in
    let small : r / 2 < 2 ^ k = omega (arith, pow-suc 2 k) in
    omega (arith, disjoint_digits n k q (r / 2) (suc a / 2) (omega arith) small (omega arith))

pub bit_or_shifted : (k hi lo : ℕ) → lo < 2 ^ k → bit_or (hi * 2 ^ k) lo ≡ hi * 2 ^ k + lo
bit_or_shifted k hi lo h =
    bit_or-bitwise (hi * 2 ^ k) lo ∙ disjoint_digits _ k hi lo (hi * 2 ^ k) refl h (le_refl _)
