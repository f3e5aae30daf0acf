-- ===== src/Calls.antt =====
-- Programs as sequences of calls into code that is not in the repository (the kernel for the
-- modules under modules/, system calls and libc for the programs under C/). What a call answers is
-- a parameter, `Oracle`, which may depend on all calls made before; the trace records each call
-- with its answer, the newest first. Pointers are numbers too: NULL is 0, and an error pointer is
-- negative, as IS_ERR reads it.
use linux_riscv.Prelude.{
  List, [], ◌∷◌, ℤ, pos, negsuc, is_neg, Bool, true, false, Option, some, none, if◌then◌else◌, ◌==◌,
}

abbrev pub Trace : Type 0 → Type 0
Trace C = List (C × ℤ)

abbrev pub Oracle : Type 0 → Type 0
Oracle C = Trace C → C → ℤ

abbrev pub M : Type 0 → Type 0 → Type 0
M C A = Trace C → A × Trace C

abbrev pub ask : {C : Type 0} → Oracle C → C → M C ℤ
ask os c tr = let r = os tr c in (r, (c, r) ∷ tr)

abbrev pub pure : {C A : Type 0} → A → M C A
pure a tr = (a, tr)

infixl 5 ◌>>=◌ ◌>>◌
abbrev pub ◌>>=◌ : {C A B : Type 0} → M C A → (A → M C B) → M C B
◌>>=◌ m f tr = let r = m tr in f r.0 r.1

abbrev pub ◌>>◌ : {C A B : Type 0} → M C A → M C B → M C B
m >> k = m >>= λ _. k

-- `if (b) m else k`, where the branches make calls.
abbrev pub choose : {C A : Type 0} → Bool → M C A → M C A → M C A
choose true m k tr = m tr
choose false m k tr = k tr

-- The tests `p == NULL` and `r < 0` of C, the second also as `IS_ERR(p)`.
abbrev pub is_null : ℤ → Bool
is_null (pos n) = n == 0
is_null (negsuc n) = false

-- What a call does to the resources of its caller.
pub data Effect (R : Type 0) : Type 0 where
  acquire : R → Effect R
  release : R → Effect R
  keep : Effect R

-- A call that acquires `x` unless it answers an error, or unless it answers NULL.
abbrev pub if_granted : {R : Type 0} → ℤ → R → Effect R
if_granted r x = if is_neg r then keep else acquire x

abbrev pub if_not_null : {R : Type 0} → ℤ → R → Effect R
if_not_null r x = if is_null r then keep else acquire x

-- A call that acquires `x` if it answers 0.
abbrev pub if_zero : {R : Type 0} → ℤ → R → Effect R
if_zero r x = if is_null r then acquire x else keep

module _ {R : Type 0} (same : R → R → Bool) where
  -- Resources are given back in the reverse order; any other release is a fault.
  abbrev give_back : R → List R → Option (List R)
  give_back r [] = none
  give_back r (x ∷ held) = if same r x then some held else none

  abbrev pub apply : Effect R → List R → Option (List R)
  apply (acquire r) held = some (r ∷ held)
  apply (release r) held = give_back r held
  apply keep held = some held

  abbrev apply_all : Effect R → Option (List R) → Option (List R)
  apply_all e none = none
  apply_all e (some held) = apply e held

  -- The resources that are held after a trace, by what the documentation says of each call.
  abbrev pub settle : {C : Type 0} → (C → ℤ → Effect R) → Trace C → Option (List R)
  settle effect [] = some []
  settle effect ((c, r) ∷ tr) = apply_all (effect c r) (settle effect tr)

  -- The effect on one resource alone, for resources that are given back in any order.
  abbrev only : R → Effect R → Effect R
  only x (acquire y) = if same x y then acquire y else keep
  only x (release y) = if same x y then release y else keep
  only x keep = keep

  abbrev pub settle_only : {C : Type 0} → (C → ℤ → Effect R) → R → Trace C → Option (List R)
  settle_only effect x = settle (λ c r. only x (effect c r))
