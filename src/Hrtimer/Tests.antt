-- ===== src/Hrtimer/Tests.antt =====
-- modules/hrtimer.c on concrete inputs.
use linux_riscv.Prelude.{◌≡◌, refl, true}
use linux_riscv.Hrtimer.{unloaded, my_init, expire, loaded, fired, Counted, History-Counted}

armed_lem : (my_init unloaded).1.armed ≡ true
unfolding my_init
armed_lem = refl

History-Counted_example : Counted 1 (expire (my_init unloaded).1)
History-Counted_example = History-Counted (fired loaded armed_lem)
