-- ===== src/Gpio/Sim/Tests.antt =====
-- modules/gpio-sim-int.c and modules/gpio-sim-demo.c on concrete inputs.
use linux_riscv.Prelude.{◌≡◌, ◌⊎◌, [], ◌∷◌, pos, negsuc, is_neg, true, some}
use linux_riscv.Calls.{Oracle}
use linux_riscv.Gpio.Sim.{
  Call, lookup_table, held, my_probe, my_remove, my_probe-held, gpiod_to_irq,
}

abbrev no_irq : Oracle Call
no_irq tr gpiod_to_irq = negsuc 5
no_irq tr c = pos 0

my_probe-held_example :
    (((my_probe no_irq (pos 1) []).0 ≡ pos 0)
      × (held (my_remove no_irq (pos 1) (my_probe no_irq (pos 1) []).1).1 ≡ some []))
    ⊎ ((is_neg (my_probe no_irq (pos 1) []).0 ≡ true)
        × (held (my_probe no_irq (pos 1) []).1 ≡ some (lookup_table ∷ [])))
my_probe-held_example = my_probe-held no_irq (pos 1)
