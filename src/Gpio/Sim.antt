-- ===== src/Gpio/Sim.antt =====
-- modules/gpio-sim-int.c and modules/gpio-sim-demo.c: a platform device and its driver over the
-- simulated lines, with the interrupt in two halves in the first. `ledvalue` is a module parameter,
-- so any `int`.
mod Tests
use linux_riscv.Prelude.{
  ℕ, zero, suc, ◌+◌, ◌≡◌, ◌≢◌, ◌⊎◌, inl, refl, List, [], ◌∷◌, ℤ, pos, is_neg, Bool, true, false,
  not, Option, some, arith,
}
use linux_riscv.Prelude.Int.{◌-ℤ◌}
use linux_riscv.Calls.{
  Trace, Oracle, M, ask, pure, ◌>>=◌, ◌>>◌, choose, is_null, Effect, acquire, release, keep,
  if_granted, if_zero, settle,
}
use linux_riscv.Irq.{IrqReturn, irq_wake_thread, irq_handled}

pub data Call : Type 0 where
  add_lookup_table remove_lookup_table get_switch get_led gpiod_to_irq : Call
  set_led : ℤ → Call
  get_values request_threaded_irq : Call
  register_device unregister_device register_driver unregister_driver : Call

pub data Resource : Type 0 where
  lookup_table platform_device driver : Resource

abbrev pub same : Resource → Resource → Bool
same lookup_table lookup_table = true
same platform_device platform_device = true
same driver driver = true
same _ _ = false

-- What is requested by a `devm_` function is given back by the driver core and does not count.
abbrev pub effect : Call → ℤ → Effect Resource
effect add_lookup_table r = acquire lookup_table
effect remove_lookup_table r = release lookup_table
effect get_switch r = keep
effect get_led r = keep
effect gpiod_to_irq r = keep
effect (set_led v) r = keep
effect get_values r = keep
effect request_threaded_irq r = keep
effect register_device r = if_granted r platform_device
effect unregister_device r = release platform_device
effect register_driver r = if_zero r driver
effect unregister_driver r = release driver

abbrev pub held : Trace Call → Option (List Resource)
held = settle same effect

module _ (os : Oracle Call) (ledvalue : ℤ) where
  -- `my_probe` of modules/gpio-sim-demo.c.
  pub demo_probe : M Call ℤ
  demo_probe = do
    ask os add_lookup_table
    switch ← ask os get_switch
    choose (is_neg switch) (pure (pos 0)) do
      led ← ask os get_led
      choose (is_neg led) (pure (pos 0))
          do ask os (set_led ledvalue); ask os get_values; pure (pos 0)

  -- `my_probe` of modules/gpio-sim-int.c.
  pub my_probe : M Call ℤ
  my_probe = do
    ask os add_lookup_table
    switch ← ask os get_switch
    choose (is_neg switch) (pure (pos 0)) do
      led ← ask os get_led
      choose (is_neg led) (pure (pos 0)) do
        irq ← ask os gpiod_to_irq
        choose (is_neg irq) (pure irq) do
          ask os (set_led ledvalue)
          ask os get_values
          ret ← ask os request_threaded_irq
          choose (is_neg ret) (pure ret) do ask os get_values; pure (pos 0)

  -- `my_remove` of both.
  pub my_remove : M Call (Unit {0})
  my_remove = do ask os get_values; ask os remove_lookup_table; pure tt

  pub gpio_sim_demo_init : M Call ℤ
  gpio_sim_demo_init = do
    pdev_sim ← ask os register_device
    choose (is_neg pdev_sim) (pure pdev_sim) do
      ret ← ask os register_driver
      choose (not (is_null ret)) (do ask os unregister_device; pure ret) (pure ret)

  pub gpio_sim_demo_exit : M Call (Unit {0})
  gpio_sim_demo_exit = do ask os unregister_driver; ask os unregister_device; pure tt

  -- gpio_sim_demo_init either returns 0, holds the device and the driver, and gpio_sim_demo_exit
  -- gives both back; or it returns another value and holds nothing.
  pub gpio_sim_demo_init-held :
      (((gpio_sim_demo_init []).0 ≡ pos 0)
        × (held (gpio_sim_demo_init []).1 ≡ some (driver ∷ platform_device ∷ []))
        × (held (gpio_sim_demo_exit (gpio_sim_demo_init []).1).1 ≡ some []))
      ⊎ (((gpio_sim_demo_init []).0 ≢ pos 0) × (held (gpio_sim_demo_init []).1 ≡ some []))
  unfolding gpio_sim_demo_init gpio_sim_demo_exit
  gpio_sim_demo_init-held = ground arith

  -- my_probe of gpio-sim-int.c either returns 0 and my_remove then gives back the lookup table, or
  -- returns a negative value and leaves the lookup table added.
  pub my_probe-held :
      (((my_probe []).0 ≡ pos 0) × (held (my_remove (my_probe []).1).1 ≡ some []))
      ⊎ ((is_neg (my_probe []).0 ≡ true) × (held (my_probe []).1 ≡ some (lookup_table ∷ [])))
  unfolding my_probe my_remove
  my_probe-held = ground arith

  pub demo_probe-held :
      ((demo_probe []).0 ≡ pos 0) × (held (my_remove (demo_probe []).1).1 ≡ some [])
  unfolding demo_probe my_remove
  demo_probe-held = ground arith

-- The two halves of the interrupt in modules/gpio-sim-int.c. `now` is what `ktime_get` answers, in
-- nanoseconds, and `ktime_us_delta` is a parameter.
pub record State : Type 0 where
  pub count : ℕ
  pub ledvalue : ℤ
  pub irq_time : ℕ
  pub led_line : List ℤ

pub irq_sw_hard : ℕ → State → IrqReturn × State
irq_sw_hard now s = (irq_wake_thread, record s { irq_time = now })

pub irq_sw_thread : (us_delta : ℕ → ℕ → ℤ) → ℕ → State → IrqReturn × ℤ × State
irq_sw_thread us_delta now s =
    let level = pos 1 -ℤ s.ledvalue in
    (
      irq_handled,
      us_delta now s.irq_time,
      record s { count = s.count + 1; ledvalue = level; led_line = level ∷ s.led_line },
    )

-- The two halves in turn, `n` times, with the times that the clock answers.
pub presses : (us_delta : ℕ → ℕ → ℤ) → (clock : ℕ → ℕ) → ℕ → State → State
presses us_delta clock zero s = s
presses us_delta clock (suc n) s =
    let s' = (irq_sw_hard (clock n) (presses us_delta clock n s)).1 in
    (irq_sw_thread us_delta (clock n + 1) s').2

-- The value alternates between the module parameter and its mirror image.
presses-ledvalue :
    (us_delta : ℕ → ℕ → ℤ) (clock : ℕ → ℕ) (n : ℕ) (s : State)
    → ((presses us_delta clock n s).ledvalue ≡ s.ledvalue)
      ⊎ ((presses us_delta clock n s).ledvalue ≡ pos 1 -ℤ s.ledvalue)
unfolding presses irq_sw_hard irq_sw_thread
presses-ledvalue us_delta clock zero s = inl refl
presses-ledvalue us_delta clock (suc n) s = ground (arith, presses-ledvalue us_delta clock n s)

-- From a value of the parameter other than 0 and 1, no number of presses puts the level 0 on the
-- LED.
pub led_never_off :
    (us_delta : ℕ → ℕ → ℤ) (clock : ℕ → ℕ) (n : ℕ) (s : State)
    → s.ledvalue ≢ pos 0
    → s.ledvalue ≢ pos 1
    → (presses us_delta clock n s).ledvalue ≢ pos 0
led_never_off us_delta clock n s h k = ground (arith, presses-ledvalue us_delta clock n s)
