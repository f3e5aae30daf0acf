-- ===== src/Chardev/Main.antt =====
-- modules/chardev_user.c, `main`: the device is opened and mapped, and both tests run over it.
use linux_riscv.Prelude.{
  ℕ, ◌≡◌, ◌⊎◌, refl, List, [], ℤ, pos, is_neg, Bool, true, false, Option, none, some, arith, length,
  inl, inr,
}
use linux_riscv.Calls.{
  Oracle, M, ask, pure, ◌>>=◌, ◌>>◌, choose, Effect, release, if_granted, settle,
}
use linux_riscv.Kernel.{UserCopy, UserCopyLaws, NoFault, FixedSizeLlseek, LlseekLaws}
use linux_riscv.Chardev.{Device}
use linux_riscv.Chardev.Invariant.{IsValid}
use linux_riscv.Chardev.UserTest.{
  Verdict, test_size, run_data_flow_test, run_data_flow_test-passes, run_data_flow_test-IsValid,
}
use linux_riscv.Chardev.Timing.{Report, run_timing_test}
use linux_riscv.Chardev.Timing.Data.{Synced, run_timing_test-Synced}

pub data Call : Type 0 where
  open_device mmap munmap close : Call

pub data Resource : Type 0 where
  file mapping : Resource

abbrev pub same : Resource → Resource → Bool
same file file = true
same mapping mapping = true
same _ _ = false

-- MAP_FAILED is an error pointer.
abbrev pub effect : Call → ℤ → Effect Resource
effect open_device r = if_granted r file
effect mmap r = if_granted r mapping
effect munmap r = release mapping
effect close r = release file

abbrev pub iterations : ℕ
iterations = 1000

pub record Outcome : Type 0 where
  pub verdict : Verdict
  pub report : Report

-- The calls around the tests, which bring `tested` where the device is opened and mapped.
with_device : {A : Type 0} → Oracle Call → A → M Call (ℤ × Option A)
with_device os tested = do
  fd ← ask os open_device
  choose (is_neg fd) (pure (pos 1, none)) do
    mmap_ptr ← ask os mmap
    choose (is_neg mmap_ptr) (do ask os close; pure (pos 1, none))
        do ask os munmap; ask os close; pure (pos 0, some tested)

with_device-settles :
    {A : Type 0} (os : Oracle Call) (tested : A)
    → let r = with_device os tested [] in
      (settle same effect r.1 ≡ some []) × ((r.0 ≡ (pos 1, none)) ⊎ (r.0 ≡ (pos 0, some tested)))
unfolding with_device
with_device-settles os tested = ground arith

module _ (u : UserCopy) (seek : FixedSizeLlseek) (now : ℕ → ℕ) where
  -- Both tests one after the other over the open file, from its start; `stack` is what the array
  -- `temp_data` holds.
  pub run_tests : Device → (stack : List ℕ) → Outcome
  run_tests d stack =
      let v = run_data_flow_test u seek d 0 in
      record {
        verdict = v;
        report = run_timing_test u seek now iterations (record {
          device = v.device;
          f_pos = v.f_pos;
          temp_data = stack;
          calls = 0;
          total = 0;
        });
      }

  -- The status, and what the tests bring.
  pub main : Oracle Call → Device → (stack : List ℕ) → M Call (ℤ × Option Outcome)
  unfolding with_device
  main os d stack = with_device os (run_tests d stack)

module _ {u : UserCopy} (laws : UserCopyLaws u) (sure : NoFault u) {seek : FixedSizeLlseek}
    (seeks : LlseekLaws seek) (now : ℕ → ℕ) where
  abbrev pub Passes : (stack : List ℕ) → Outcome → Type 0
  Passes stack o =
      (o.verdict.write_to_mmap ≡ true)
      × (o.verdict.mmap_to_read ≡ true)
      × Synced stack o.report.final

  run_tests-Passes :
      (d : Device) (stack : List ℕ)
      → IsValid d
      → length stack ≡ test_size
      → Passes stack (run_tests u seek now d stack)
  unfolding run_tests
  run_tests-Passes d stack v size =
      let passed = run_data_flow_test-passes laws sure seeks d 0 v in
      (
        passed.0,
        passed.1,
        run_timing_test-Synced laws sure seeks now stack size iterations _
            (run_data_flow_test-IsValid laws sure seeks d 0 v) refl,
      )

  -- Where no copy faults, from a valid device and 1024 bytes on the stack, and whatever open and
  -- mmap answer, main of chardev_user.c gives back the file and the mapping, and either ends with
  -- status 1 and no test, or with status 0 after both checks of the data flow succeeded and the
  -- timing test left a file that begins with its bytes.
  pub main-Passes :
      (os : Oracle Call) (d : Device) (stack : List ℕ)
      → IsValid d
      → length stack ≡ test_size
      → let r = main u seek now os d stack [] in
        (settle same effect r.1 ≡ some [])
        × ((r.0 ≡ (pos 1, none)) ⊎ ((o : Outcome) × (r.0 ≡ (pos 0, some o)) × Passes stack o))
  unfolding main
  main-Passes os d stack v size =
      let (settled, result) = with_device-settles os (run_tests u seek now d stack) in
      let passes = run_tests-Passes d stack v size in
      (settled, elim result [ inl refused ↦ inl refused | inr ran ↦ inr (_, ran, passes) ])
