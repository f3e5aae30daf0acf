-- ===== src/Gpio/Virt/Tests.antt =====
-- modules/virt-int.c on concrete inputs.
use linux_riscv.Prelude.{
  ℕ, ◌≡◌, refl, List, [], pos, true, some, not, ◌==◌, if◌then◌else◌, ltb, codes, replicate,
}
use linux_riscv.Kernel.{einval, efault}
use linux_riscv.Kernel.Memory.{memory, memory-laws}
use linux_riscv.Gpio.Virt.{initial, irq_sw, is_trigger, buf_size, trigger_write, trigger_write_lem}
use linux_riscv.Gpio.Virt.{State}
use linux_riscv.Gpio.Virt.Count.{SimpleRead, SimpleReadLaws, read_counts, read_counts-value}
use linux_riscv.Prelude.Decimal.{decimal, value}
use linux_riscv.Prelude.{◌+◌, ◌-◌, min, take, drop, ◌∷◌, ◌++◌, arith}

abbrev stack : List ℕ
stack = replicate buf_size 170

abbrev one : List ℕ
one = codes "1"

trigger_write_lem_example :
    trigger_write memory true stack one 1 initial
    ≡ some (
        if ltb 7 1
        then (einval, initial)
        else if not ((memory.copy_from_user one 1).1 == 0)
        then (efault, initial)
        else (pos 1, (if is_trigger one 1 then irq_sw true initial else initial)))
trigger_write_lem_example = trigger_write_lem memory-laws true stack one 1 initial refl

-- A `simple_read_from_buffer` that does what is documented of it, without a fault.
simple_read : SimpleRead
simple_read count ppos from available =
    let n = min count (available - ppos) in
    record { ret = pos n; delivered = take n (drop ppos (take available from)); ppos = ppos + n }

simple_read-laws : SimpleReadLaws simple_read
unfolding simple_read
simple_read-laws = record { reads = λ count ppos from available h. refl }

-- After 120 interrupts, in three reads.
abbrev counted : State
counted = record initial { count = 120 }

read_counts-value_example :
    (read_counts simple_read stack counted (2 ∷ 1 ∷ 8 ∷ []) 0 ≡ decimal counted.count ++ b'\n' ∷ [])
    × (value (decimal counted.count) ≡ counted.count)
read_counts-value_example =
    read_counts-value simple_read-laws stack counted (2 ∷ 1 ∷ 8 ∷ [])
      (unfold initial in omega arith) (omega arith)
