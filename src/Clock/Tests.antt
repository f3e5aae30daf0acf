-- ===== src/Clock/Tests.antt =====
-- The waits under a clock that advances by a millisecond for each reading.
use linux_riscv.Prelude.{ℕ, suc, ◌+◌, ◌-◌, ◌*◌, ◌/◌, ◌%◌, ◌<◌, ◌≡◌, some, arith}
use linux_riscv.Clock.{Timespec, nanoseconds, ClockLaws, busy_wait_ms, busy_wait_ms-waits}

abbrev pub ticking : ℕ → Timespec
ticking i = record { tv_sec = i / 1000; tv_nsec = i % 1000 * 1000000 }

pub ticking-laws : ClockLaws ticking
ticking-laws = record { normal = λ i. omega arith; grows = λ i. omega arith }

busy_wait_ms-waits_example :
    (j : ℕ) × (busy_wait_ms ticking (suc 3) 2 ≡ some j)
    × (2 * 1000000 < nanoseconds (ticking j) - nanoseconds (ticking 0) + 1000000)
busy_wait_ms-waits_example = busy_wait_ms-waits ticking ticking-laws 3 2 (omega arith) (omega arith)
