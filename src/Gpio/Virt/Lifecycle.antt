-- ===== src/Gpio/Virt/Lifecycle.antt =====
-- modules/virt-int.c, `my_probe` and `my_remove`: the optional lines, the interrupt and the debugfs
-- directory. Lines from `devm_gpiod_get_index` are given back by the driver core and do not count.
use linux_riscv.Prelude.{
  ◌≡◌, ◌≢◌, ◌⊎◌, List, [], ◌∷◌, ℤ, pos, is_neg, Bool, true, false, not, ◌||◌, Option, some, arith,
  if◌then◌else◌,
}
use linux_riscv.Calls.{
  Trace, Oracle, M, ask, pure, ◌>>=◌, ◌>>◌, choose, is_null, Effect, acquire, release, keep,
  if_granted, settle,
}

pub data Call : Type 0 where
  get_led get_switch gpiod_to_irq request_irq gpiod_get_value debugfs_create_dir : Call
  create_trigger create_count : Call
  debugfs_remove_recursive : ℤ → Call
  free_irq : ℤ → Call

pub data Resource : Type 0 where
  irq directory : Resource

abbrev pub same : Resource → Resource → Bool
same irq irq = true
same directory directory = true
same _ _ = false

-- A directory that is NULL or an error pointer is not there, and its removal does nothing.
abbrev pub no_directory : ℤ → Bool
no_directory d = is_null d || is_neg d

abbrev pub effect : Call → ℤ → Effect Resource
effect get_led r = keep
effect get_switch r = keep
effect gpiod_to_irq r = keep
effect request_irq r = if_granted r irq
effect gpiod_get_value r = keep
effect debugfs_create_dir r = if no_directory r then keep else acquire directory
effect create_trigger r = keep
effect create_count r = keep
effect (debugfs_remove_recursive d) r = if no_directory d then keep else release directory
effect (free_irq n) r = release irq

abbrev pub held : Trace Call → Option (List Resource)
held = settle same effect

-- The static variables after `my_probe`, with its result.
pub record Probed : Type 0 where
  pub ret : ℤ
  pub has_led : Bool
  pub has_switch : Bool
  pub irq_number : ℤ
  pub debugfs_dir : ℤ

module _ (os : Oracle Call) where
  -- From the debugfs directory to the end of `my_probe`.
  create_debugfs : Bool → Bool → ℤ → M Call Probed
  create_debugfs has_led has_switch n = do
    dir ← ask os debugfs_create_dir
    choose (not (is_null dir)) (do ask os create_trigger; ask os create_count; pure tt) (pure tt)
    pure (record {
      ret = pos 0;
      has_led = has_led;
      has_switch = has_switch;
      irq_number = n;
      debugfs_dir = dir;
    })

  abbrev failed : Bool → ℤ → ℤ → Probed
  failed has_led n ret = record {
    ret = ret;
    has_led = has_led;
    has_switch = true;
    irq_number = n;
    debugfs_dir = pos 0;
  }

  pub my_probe : M Call Probed
  unfolding create_debugfs
  my_probe = do
    led ← ask os get_led
    switch ← ask os get_switch
    choose (is_neg switch) (create_debugfs (not (is_neg led)) false (pos 0)) do
      n ← ask os gpiod_to_irq
      choose (is_neg n) (pure (failed (not (is_neg led)) n n)) do
        ret ← ask os request_irq
        choose (is_neg ret) (pure (failed (not (is_neg led)) n ret))
            do ask os gpiod_get_value; create_debugfs (not (is_neg led)) true n

  pub my_remove : Probed → M Call ℤ
  my_remove p = do
    ask os (debugfs_remove_recursive p.debugfs_dir)
    choose (not (is_null p.irq_number || is_neg p.irq_number))
        (do ask os (free_irq p.irq_number); pure (pos 0)) (pure (pos 0))

  -- Where no line has interrupt 0, my_probe of virt-int.c either returns 0 and my_remove then gives
  -- back all it holds, or returns a negative value and holds nothing.
  pub my_remove-probe :
      ((tr : Trace Call) → os tr gpiod_to_irq ≢ pos 0)
      → (((my_probe []).0.ret ≡ pos 0)
          × (held (my_remove (my_probe []).0 (my_probe []).1).1 ≡ some []))
        ⊎ ((is_neg (my_probe []).0.ret ≡ true) × (held (my_probe []).1 ≡ some []))
  unfolding my_probe my_remove
  my_remove-probe h = ground (
    arith,
    h ((get_switch, os ((get_led, os [] get_led) ∷ []) get_switch) ∷ (get_led, os [] get_led) ∷ []),
  )
