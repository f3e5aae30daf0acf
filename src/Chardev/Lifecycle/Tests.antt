-- ===== src/Chardev/Lifecycle/Tests.antt =====
-- Loading and unloading modules/chardev.c in a kernel that refuses one call.
use linux_riscv.Prelude.{◌≡◌, ◌⊎◌, [], pos, negsuc, is_neg, true, some}
use linux_riscv.Calls.{Oracle}
use linux_riscv.Chardev.Lifecycle.{
  Call, device_create, mychar_init, mychar_exit, mychar_init-held, held, loaded,
}

-- A kernel that grants everything but the last call.
abbrev last_fails : Oracle Call
last_fails tr device_create = negsuc 11
last_fails tr c = pos 1

mychar_init-held_example :
    (((mychar_init last_fails []).0 ≡ pos 0)
      × (held last_fails (mychar_init last_fails []).1 ≡ some (loaded last_fails))
      × (held last_fails (mychar_exit last_fails (mychar_init last_fails []).1).1 ≡ some []))
    ⊎ ((is_neg (mychar_init last_fails []).0 ≡ true)
        × (held last_fails (mychar_init last_fails []).1 ≡ some []))
mychar_init-held_example = mychar_init-held last_fails
