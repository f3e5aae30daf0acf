-- ===== src/SteppedClock/Tests.antt =====
-- One run of C/set_time.c while both threads of C/timer_test.c sleep.
use linux_riscv.Prelude.{◌+◌, ◌*◌, ◌≤◌, ◌<◌, ◌≡◌, ◌↔◌, refl, List, [], ◌∷◌, ◌++◌, true, false}
use linux_riscv.SteppedClock.{
  Clocks, clock_realtime, clock_monotonic, Event, passes, steps, happen, account, target,
  clock_gettime, is_awake, is_reached_in,
}
use linux_riscv.SteppedClock.Sleep.{is_awake-account}

abbrev at_noon : Clocks
at_noon = record { realtime = 43200000000000; monotonic = 7000000000 }

abbrev one_run : List Event
one_run = passes 3000000000 ∷ steps true true 1500 ∷ passes 11000000000 ∷ []

is_awake-account_example :
    let a = account one_run at_noon in
    let ts = target clock_realtime at_noon in
    ((is_awake clock_monotonic (target clock_monotonic at_noon) one_run at_noon ≡ true)
      ↔ (10000000000 ≤ a.passed))
    × (is_awake clock_realtime ts one_run at_noon ≡ false
        → a.passed < 10000000000 + a.runs * 5000001000 + a.between)
    × ((e : Event)
        → is_awake clock_realtime ts one_run at_noon ≡ false
        → is_awake clock_realtime ts (one_run ++ e ∷ []) at_noon ≡ true
        → 10000000000 + a.runs * 5000000000 ≤ (account (one_run ++ e ∷ []) at_noon).passed)
is_awake-account_example = is_awake-account one_run at_noon

-- The sleep is over once the time was reached, also when the clock is set back behind it.
latched :
    is_awake clock_realtime
      (target clock_realtime at_noon)
      (passes 10000000000 ∷ steps true true 0 ∷ [])
      at_noon
    ≡ true
unfolding is_awake target clock_gettime is_reached_in happen
latched = refl
