-- ===== src/ArraySum/Tests.antt =====
-- C/array.c on concrete inputs.
use linux_riscv.Prelude.{◌≡◌}
use linux_riscv.ArraySum.{Matrix}
use linux_riscv.ArraySum.{by_rows, by_columns, add_body, by_columns-by_rows}

abbrev sevens : Matrix
sevens i j = 7

by_columns-by_rows_example :
    by_columns (add_body sevens) 3 3 sevens 2 1 ≡ by_rows (add_body sevens) 3 3 sevens 2 1
by_columns-by_rows_example = by_columns-by_rows sevens 3 sevens 2 1
