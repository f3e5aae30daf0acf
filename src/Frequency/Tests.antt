-- ===== src/Frequency/Tests.antt =====
-- The frequency of a counter that runs at 10 MHz.
use linux_riscv.Prelude.{ℕ, suc, ◌-◌, ◌*◌, ◌≤◌, ◌≡◌, refl, Option, some, List, [], ◌∷◌, arith}
use linux_riscv.Clock.Tests.{ticking, ticking-laws}
use linux_riscv.Frequency.{be32, passed, read_freerun_freq, from_device_tree}
use linux_riscv.Frequency.X86.{Cpu, CpuLaws, IsRate, read_freerun_freq-IsRate}
use linux_riscv.Frequency.X86
use linux_riscv.Prelude.{◌⊎◌}

-- Ten thousand ticks in each millisecond.
abbrev ten_mhz : ℕ → ℕ
ten_mhz i = i * 10000

abbrev device_tree : Option (List ℕ)
device_tree = some (0 ∷ 152 ∷ 150 ∷ 128 ∷ [])

first_call : read_freerun_freq ticking 0 device_tree ten_mhz 0 ≡ some (10000000, 10000000)
unfolding read_freerun_freq from_device_tree be32
first_call = refl

-- A processor with leaf 0x15, at 24 MHz * 168 / 2, and its registers.
abbrev crystal : Cpu
crystal = record { max_leaf = 22; leaf = λ n. record { eax = 2; ebx = 168; ecx = 24000000 } }

crystal-laws : CpuLaws crystal
crystal-laws = record {
  eax_fits = λ n. omega arith;
  ebx_fits = λ n. omega arith;
  ecx_fits = λ n. omega arith;
}

read_freerun_freq-IsRate_example :
    (f : ℕ) × (X86.read_freerun_freq crystal ticking 0 ten_mhz (suc 11) ≡ some (f, f))
    × (IsRate f ((crystal.leaf 21).ecx * (crystal.leaf 21).ebx) (crystal.leaf 21).eax
        ⊎ ((i : ℕ) × (10000000 ≤ passed ticking i)
            × IsRate f ((ten_mhz i - ten_mhz 0) * 1000000000) (passed ticking i)))
read_freerun_freq-IsRate_example =
    read_freerun_freq-IsRate crystal ticking ten_mhz 11 crystal-laws ticking-laws (omega arith)
      (λ i h. omega arith) (λ i h. omega arith) (λ i h. omega arith)
