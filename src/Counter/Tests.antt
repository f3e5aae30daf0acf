-- ===== src/Counter/Tests.antt =====
-- The counter read across the wrap of its low half.
use linux_riscv.Prelude.{ℕ, ◌+◌, ◌*◌, ◌^◌, ◌≤◌, ◌<◌, ◌≡◌, some, arith, min, ◌-◌}
use linux_riscv.Counter.{CounterLaws, rdtimeh, read_time_rv32, read_time_rv32-current}

-- The low half wraps between the first two reads; the counter stands after read 9.
abbrev wrapping : ℕ → ℕ
wrapping i = 2 ^ 32 - 1 + min i 9

wrapping-laws : CounterLaws wrapping
wrapping-laws = record { grows = λ i. ground arith; fits = λ i. ground arith }

-- One retry is enough.
rdtimeh_start : rdtimeh wrapping (0 + 3 * 2) < rdtimeh wrapping 0 + 2
unfolding rdtimeh
rdtimeh_start = omega arith

read_time_rv32-current_example :
    (k : ℕ) × (read_time_rv32 wrapping 2 0 ≡ some (wrapping k, k + 2)) × (0 ≤ k)
read_time_rv32-current_example = read_time_rv32-current wrapping wrapping-laws 2 0 rdtimeh_start
