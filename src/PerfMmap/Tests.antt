-- ===== src/PerfMmap/Tests.antt =====
-- C/perf_mmap.c with a counter that advances by 100 for each reading.
use linux_riscv.Prelude.{ℕ, ◌*◌, ◌≡◌, ◌⊎◌, pos, none, some, arith, min, []}
use linux_riscv.Calls.{Oracle}
use linux_riscv.PerfMmap.{
  Call, Report, exit, killed, main, GivenBack, ReadingLaws, IsMeasured, main-IsMeasured,
}

abbrev grants : Oracle Call
grants tr c = pos 3

-- It stops before it would wrap.
abbrev readings : ℕ → ℕ
readings i = min (i * 100) 1000

readings-laws : ReadingLaws readings
readings-laws = record { grows = λ i. omega arith; fits = λ i. omega arith }

main-IsMeasured_example :
    let r = main grants readings [] in
    ((r.0 ≡ exit (pos 1) none) × GivenBack r.1)
    ⊎ ((report : Report) × (r.0 ≡ exit (pos 0) (some report))
        × GivenBack r.1
        × IsMeasured readings report)
    ⊎ (r.0 ≡ killed)
main-IsMeasured_example = main-IsMeasured grants readings readings-laws
