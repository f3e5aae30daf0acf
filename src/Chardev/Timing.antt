-- ===== src/Chardev/Timing.antt =====
-- modules/chardev_user.c, `run_timing_test`: the accesses that are timed, by `write`, `read` and the
-- mapping, over the model of modules/chardev.c. `now` is what `get_rdtime` answers at its i-th call.
-- The totals are `unsigned long`, 32 bits on RV32; they and their averages are all that is reported.
pub mod Data
use linux_riscv.Prelude.{ℕ, zero, suc, ◌+◌, ◌-◌, ◌%◌, ◌^◌, List, pos, splice}
use linux_riscv.Kernel.{UserCopy, FixedSizeLlseek, seek_set}
use linux_riscv.Chardev.{Device, dev_llseek, dev_read, dev_write, mmap_store, mmap_load}
use linux_riscv.Chardev.UserTest.{test_size}

-- The device and the file, `temp_data`, the calls of `get_rdtime` so far, and the running total.
pub record State : Type 0 where
  pub device : Device
  pub f_pos : ℕ
  pub temp_data : List ℕ
  pub calls : ℕ
  pub total : ℕ

pub record Report : Type 0 where
  pub write_total : ℕ
  pub mmap_write_total : ℕ
  pub read_total : ℕ
  pub mmap_read_total : ℕ
  pub final : State

abbrev pub repeat : ℕ → (State → State) → State → State
repeat zero body s = s
repeat (suc n) body s = repeat n body (body s)

module _ (u : UserCopy) (seek : FixedSizeLlseek) (now : ℕ → ℕ) where
  abbrev pub lseek_start : State → State
  lseek_start s = record s { f_pos = (dev_llseek seek s.device s.f_pos (pos 0) seek_set).f_pos }

  abbrev pub write_data : State → State
  write_data s =
      let w = dev_write u s.device s.temp_data test_size s.f_pos in
      record s { device = w.device; f_pos = w.f_pos }

  abbrev pub read_data : State → State
  read_data s =
      let r = dev_read u s.device test_size s.f_pos in
      record s { f_pos = r.f_pos; temp_data = splice s.temp_data 0 r.delivered }

  abbrev pub mmap_write_data : State → State
  mmap_write_data s = record s { device = mmap_store s.device 0 s.temp_data }

  abbrev pub mmap_read_data : State → State
  mmap_read_data s = record s { temp_data = mmap_load s.device 0 test_size }

  -- An access between two calls of `get_rdtime`.
  abbrev pub timed : (State → State) → State → State
  timed access s =
      let s' = access s in
      let cycles = (now (s.calls + 1) + 2 ^ 64 - now s.calls) % 2 ^ 64 in
      record s' { calls = s.calls + 2; total = (s.total + cycles) % 2 ^ 32 }

  abbrev pub reset : State → State
  reset s = record s { total = 0 }

  abbrev pub warm_up : State → State
  warm_up s = repeat 10 (λ s. mmap_write_data (write_data (lseek_start s))) s

  -- `iterations` is 1000 in the program.
  pub run_timing_test : (iterations : ℕ) → State → Report
  run_timing_test iterations s =
      let s₁ = repeat iterations (λ s. timed write_data (lseek_start s)) (reset (warm_up s)) in
      let s₂ = repeat iterations (timed mmap_write_data) (reset s₁) in
      let s₃ = repeat iterations (λ s. timed read_data (lseek_start s)) (reset s₂) in
      let s₄ = repeat iterations (timed mmap_read_data) (reset s₃) in
      record {
        write_total = s₁.total;
        mmap_write_total = s₂.total;
        read_total = s₃.total;
        mmap_read_total = s₄.total;
        final = s₄;
      }
