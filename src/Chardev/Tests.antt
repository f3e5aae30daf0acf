-- ===== src/Chardev/Tests.antt =====
-- modules/chardev.c on concrete inputs.
use linux_riscv.Prelude.{ℕ, ◌≡◌, refl, List, pos, true, false, arith, codes, update}
use linux_riscv.Kernel.{eagain, einval}
use linux_riscv.Kernel.Memory.{
  memory, memory-laws, memory-sure, seek_from_start, seek_from_start-laws,
}
use linux_riscv.Chardev.{Device, fresh_device, dev_open, dev_release, dev_read, dev_write, remap_mm}
use linux_riscv.Chardev.Invariant.{
  fresh_device-IsValid, System, start, write, Reach, here, next, IsSafe, Reach-IsSafe,
}
use linux_riscv.Chardev.RoundTrip.{read-write}
use linux_riscv.Prelude.{replicate, length-replicate}
use linux_riscv.Chardev.UserTest.{test_size}
use linux_riscv.Chardev.File.{FileReach, view}
use linux_riscv.Chardev.Refinement.{calls, Reach-FileReach}
use linux_riscv.Chardev.Main.{Call, same, effect, main, Outcome, Passes, main-Passes}
use linux_riscv.Calls.{Oracle, settle}
use linux_riscv.Prelude.{[], some, none, ◌⊎◌}

abbrev greeting : List ℕ
greeting = codes "hello"

-- The device after a write of the greeting at its start.
abbrev greeted : Device
greeted = (dev_write memory fresh_device greeting 5 0).device

dev_open_test : dev_open fresh_device ≡ (pos 0, fresh_device)
unfolding dev_open
dev_open_test = refl

dev_release_test : dev_release greeted ≡ (pos 0, greeted)
unfolding dev_release
dev_release_test = refl

-- One page from the start can be mapped; more, or another offset, cannot.
remap_mm_test :
    (remap_mm 8192 12288 0 true ≡ pos 0)
    × (remap_mm 8192 12289 0 true ≡ einval)
    × (remap_mm 8192 12288 1 true ≡ einval)
    × (remap_mm 8192 12288 0 false ≡ eagain)
unfolding remap_mm
remap_mm_test = (refl, refl, refl, refl)

read-write_example :
    ((dev_write memory fresh_device greeting 5 0).ret ≡ pos 5)
    × ((dev_read memory greeted 5 0).delivered ≡ greeting)
    × ((dev_read memory greeted 5 0).ret ≡ pos 5)
read-write_example =
    read-write memory-laws memory-sure fresh_device greeting 5 0 fresh_device-IsValid (omega arith)
      (omega arith) (omega arith) (omega arith)

-- File 1 writes the greeting, file 2 goes to its start.
abbrev written : System
written = record {
  device = (dev_write memory start.device greeting 5 (start.positions 1)).device;
  positions =
      update start.positions 1 (dev_write memory start.device greeting 5 (start.positions 1)).f_pos;
}

abbrev history : Reach memory seek_from_start written
history = next here (write 1 5 greeting)

Reach-IsSafe_example : IsSafe written
Reach-IsSafe_example = Reach-IsSafe memory-laws seek_from_start-laws history

-- Before the timing test, with a clock that counts the readings.
abbrev pattern_data : List ℕ
pattern_data = replicate test_size 85

Reach-FileReach_example : FileReach seek_from_start (calls history) (view written)
Reach-FileReach_example = Reach-FileReach memory-laws seek_from_start-laws history

abbrev opens : Oracle Call
opens tr c = pos 3

main-Passes_example :
    let r = main memory seek_from_start (λ i. i) opens fresh_device pattern_data [] in
    (settle same effect r.1 ≡ some [])
    × ((r.0 ≡ (pos 1, none))
        ⊎ ((o : Outcome) × (r.0 ≡ (pos 0, some o))
            × Passes memory-laws memory-sure seek_from_start-laws (λ i. i) pattern_data o))
main-Passes_example =
    main-Passes memory-laws memory-sure seek_from_start-laws (λ i. i) opens fresh_device
      pattern_data fresh_device-IsValid (length-replicate {A = ℕ} test_size 85)
