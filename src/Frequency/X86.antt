-- ===== src/Frequency/X86.antt =====
-- `read_freerun_freq` of C/read_counter.h in its x86 branch, and the counters of the branches that
-- put two 32-bit halves together in one instruction. CPUID is a parameter.
use linux_riscv.Prelude.{
  ℕ, suc, ◌+◌, ◌-◌, ◌*◌, ◌/◌, ◌%◌, ◌^◌, ◌≤◌, ◌<◌, ◌≡◌, ◌≢◌, ◌⊎◌, inl, inr, refl, ◌∙◌, Option, some,
  none, Bool, true, not, ◌&&◌, arith, ◌==◌, if◌then◌else◌, leb, bit_or, bit_or_shifted, Bool-cases,
}
use native.Mathlib.Nat
use linux_riscv.Clock.{Timespec, ClockLaws}
use linux_riscv.Frequency.{calibrate, calibrate-rate, passed}

-- `((uint64_t)hi << 32) | lo`: `rdtsc`, and `mrrc` of 32-bit ARM.
pub read_freerun_counter : (lo hi : ℕ) → ℕ
read_freerun_counter lo hi = bit_or (hi * 2 ^ 32 % 2 ^ 64) lo

-- The registers that a CPUID leaf brings.
pub record Registers : Type 0 where
  pub eax : ℕ
  pub ebx : ℕ
  pub ecx : ℕ

-- `__get_cpuid_max(0, NULL)` and `__cpuid(leaf, …)`.
pub record Cpu : Type 0 where
  pub max_leaf : ℕ
  pub leaf : ℕ → Registers

-- The registers hold 32 bits.
pub record CpuLaws (cpu : Cpu) : Type 0 where
  pub eax_fits : (n : ℕ) → (cpu.leaf n).eax < 2 ^ 32
  pub ebx_fits : (n : ℕ) → (cpu.leaf n).ebx < 2 ^ 32
  pub ecx_fits : (n : ℕ) → (cpu.leaf n).ecx < 2 ^ 32

-- `eax != 0 && ebx != 0 && ecx != 0`
pub has_crystal : Registers → Bool
has_crystal r = not (r.eax == 0) && (not (r.ebx == 0) && not (r.ecx == 0))

-- `(uint64_t)ecx * (uint64_t)ebx / (uint64_t)eax`
pub crystal_rate : Registers → ℕ
crystal_rate r = r.ecx * r.ebx % 2 ^ 64 / r.eax

-- The frequency and the cache after the call.
calibrated : Option ℕ → Option (ℕ × ℕ)
calibrated none = none
calibrated (some f) = some (f, f)

pub read_freerun_freq : Cpu → (clock : ℕ → Timespec) → ℕ → (counter : ℕ → ℕ) → ℕ → Option (ℕ × ℕ)
unfolding calibrated
read_freerun_freq cpu clock cached_freq counter fuel =
    let r = cpu.leaf 21 in
    if not (cached_freq == 0)
    then some (cached_freq, cached_freq)
    else if leb 21 cpu.max_leaf && has_crystal r
    then some (crystal_rate r, crystal_rate r)
    else calibrated (calibrate clock counter fuel)

-- The two halves of a 64-bit counter are put together.
pub read_freerun_counter-value :
    (v : ℕ) → v < 2 ^ 64 → read_freerun_counter (v % 2 ^ 32) (v / 2 ^ 32) ≡ v
unfolding read_freerun_counter
read_freerun_counter-value v h =
    let high : v / 2 ^ 32 * 2 ^ 32 % 2 ^ 64 ≡ v / 2 ^ 32 * 2 ^ 32 = omega arith in
    rw high (bit_or_shifted 32 (v / 2 ^ 32) (v % 2 ^ 32) (omega arith) ∙ omega arith)

-- The product of two 32-bit numbers does not wrap.
product_fits : (m n : ℕ) → m < 2 ^ 32 → n < 2 ^ 32 → m * n % 2 ^ 64 ≡ m * n
product_fits m n hm hn = omega (arith, Nat.mul-le-mul_left {m = n} {n = 4294967295} m (omega arith))

-- `f` is the number of events per unit of time, rounded down.
abbrev pub IsRate : (f events time : ℕ) → Type 0
IsRate f events time = (f * time ≤ events) × (events < (f + 1) * time)

crystal_rate-IsRate :
    (r : Registers)
    → r.ebx < 2 ^ 32
    → r.ecx < 2 ^ 32
    → has_crystal r ≡ true
    → IsRate (crystal_rate r) (r.ecx * r.ebx) r.eax
unfolding has_crystal crystal_rate
crystal_rate-IsRate r b c h =
    let fits = product_fits r.ecx r.ebx c b in
    let positive : r.eax ≢ 0 = ground arith in
    rw fits (grind (arith, positive), grind (arith, positive))

and_right : (a b : Bool) → a && b ≡ true → b ≡ true
and_right a b h = grind arith

-- On x86, with registers of 32 bits, where the clock passes ten milliseconds within the fuel and
-- the counter grows without wrapping the product, the first call returns and caches a frequency,
-- which is, rounded down, the one that CPUID leaf 0x15 gives or the measured rate of the counter
-- over at least ten milliseconds.
pub read_freerun_freq-IsRate :
    (cpu : Cpu) (clock : ℕ → Timespec) (counter : ℕ → ℕ) (fuel : ℕ)
    → CpuLaws cpu
    → ClockLaws clock
    → 10000000 ≤ passed clock (1 + fuel)
    → ((i : ℕ) → i ≤ 1 + fuel → counter 0 ≤ counter i)
    → ((i : ℕ) → i ≤ 1 + fuel → (counter i - counter 0) * 1000000000 < 2 ^ 64)
    → ((i : ℕ) → i ≤ 1 + fuel → counter i < 2 ^ 64)
    → (f : ℕ) × (read_freerun_freq cpu clock 0 counter (suc fuel) ≡ some (f, f))
      × (IsRate f ((cpu.leaf 21).ecx * (cpu.leaf 21).ebx) (cpu.leaf 21).eax
          ⊎ ((i : ℕ) × (10000000 ≤ passed clock i)
              × IsRate f ((counter i - counter 0) * 1000000000) (passed clock i)))
unfolding read_freerun_freq calibrated
read_freerun_freq-IsRate cpu clock counter fuel laws clock_laws h grows small fits =
    elim (Bool-cases (leb 21 cpu.max_leaf && has_crystal (cpu.leaf 21))) [
      | inl crystal ↦ (
        crystal_rate (cpu.leaf 21),
        rw crystal refl,
        inl (
            crystal_rate-IsRate (cpu.leaf 21) (laws.ebx_fits 21) (laws.ecx_fits 21)
              (and_right (leb 21 cpu.max_leaf) (has_crystal (cpu.leaf 21)) crystal)),
      )
      | inr measured ↦
          let (f, i, e, l, u, w) =
            calibrate-rate clock clock_laws counter fuel h grows small fits in
          (f, (rw (measured, e) refl), inr (i, w, (l, u)))
    ]
