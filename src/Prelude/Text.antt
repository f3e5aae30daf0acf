-- ===== src/Prelude/Text.antt =====
-- Text literals as lists of bytes (all of them are ASCII), and the comparison of strncmp.
use Prim.Native.Nat.{ℕ, zero, suc, ◌≤◌}
use Prim.Native.Char.{code}
use Prim.Native.String.{String}
use mathlib.Core.Path.{◌≡◌, refl}
use mathlib.Core.Bool.{Bool, true, false, ◌||◌}
use mathlib.Core.List.{List, [], ◌∷◌, ◌++◌}
use native.Mathlib.Omega.{arith}
use linux_riscv.Prelude.Tests.{◌==◌, if◌then◌else◌}
use linux_riscv.Prelude.Lists.{length}

abbrev pub codes : String → List ℕ
codes String.[] = []
codes (String.◌∷◌ c s) = code c ∷ codes s

-- `strncmp(s, t, n) == 0`: equal up to `n` bytes, or up to a common NUL before.
unfoldable pub strncmp_eq : ℕ → List ℕ → List ℕ → Bool
strncmp_eq zero s t = true
strncmp_eq (suc n) (x ∷ s) (y ∷ t) = if x == y then x == 0 || strncmp_eq n s t else false
strncmp_eq (suc n) _ _ = false

pub strncmp_eq-append : (n : ℕ) (s rest : List ℕ) → n ≤ length s → strncmp_eq n (s ++ rest) s ≡ true
unfolding strncmp_eq
strncmp_eq-append zero s rest h = refl
strncmp_eq-append (suc n) [] rest h = absurd (omega arith)
strncmp_eq-append (suc n) (x ∷ s) rest h = ground (arith, strncmp_eq-append n s rest)
