-- ===== src/Pipe/Tests.antt =====
-- C/pipe2.c where the standard descriptors are open on a terminal.
use linux_riscv.Prelude.{ℕ, ◌≡◌, ◌≢◌, ◌↔◌, none, some, arith, leb, if◌then◌else◌}
use linux_riscv.Pipe.{
  Table, read_end, write_end, other, pipe, ps_table, grep_table, parent_table, ArePipeEnds,
  tables-ends,
}

abbrev standard : Table
standard i = if leb i 2 then some (other i) else none

standard-ArePipeEnds : ArePipeEnds 3 4 standard
standard-ArePipeEnds = record {
  differ = λ e. omega (arith, e);
  above_0 = omega arith;
  above_1 = omega arith;
  no_pipe = λ i. (λ e. ground arith, λ e. ground arith);
}

tables-ends_example :
    let piped = pipe 3 4 standard in
    ((i : ℕ)
      → (ps_table 3 4 piped i ≢ some read_end)
        × ((ps_table 3 4 piped i ≡ some write_end) ↔ (i ≡ 1)))
    × ((i : ℕ)
        → ((grep_table 3 4 piped i ≡ some read_end) ↔ (i ≡ 0))
          × (grep_table 3 4 piped i ≢ some write_end))
    × ((i : ℕ)
        → (parent_table 3 4 piped i ≢ some read_end) × (parent_table 3 4 piped i ≢ some write_end))
tables-ends_example = tables-ends 3 4 standard standard-ArePipeEnds
