-- ===== src/SysfsLed/Tests.antt =====
-- C/sysfs_led.c on concrete inputs.
use linux_riscv.Prelude.{◌≡◌, refl, [], pos}
use linux_riscv.Calls.{Oracle}
use linux_riscv.SysfsLed.{Call, set_led_brightness, blink, main}

abbrev works : Oracle Call
works tr c = pos 0

main_succeeds : (main works 3 []).0 ≡ pos 0
unfolding main set_led_brightness blink
main_succeeds = refl
