-- ===== src/SteppedClock/Sleep.antt =====
-- C/set_time.c and C/timer_test.c: when the threads wake.
use linux_riscv.Prelude.{
  ◌+◌, ◌*◌, ◌≤◌, ◌<◌, ◌≡◌, ◌↔◌, refl, List, [], ◌∷◌, ◌++◌, Bool, true, false, arith, if◌then◌else◌,
  ℕ,
}
use linux_riscv.Clock.{Timespec, nanoseconds}
use linux_riscv.SteppedClock.{
  ClockId, clock_realtime, clock_monotonic, Clocks, shows, clock_gettime, pass, gettimeofday,
  settimeofday, set_time, target, Event, passes, steps, happen, is_reached_in, is_awake, succeeded,
  account,
}

-- One run of set_time.c takes nothing from the monotonic clock; with status 0 it takes five seconds
-- from the other one, what passes from the first call to the second, and less than a microsecond.
set_time_lem :
    (get set : Bool) (d : ℕ) (c : Clocks)
    → let r = set_time get set d c in
      (r.1.monotonic ≡ c.monotonic + (if get then d else 0))
      × (r.1.realtime + succeeded r.0 * 5000000000 ≤ c.realtime + (if get then d else 0))
      × (c.realtime + (if get then d else 0)
          ≤ r.1.realtime + succeeded r.0 * 5000001000 + succeeded r.0 * d)
unfolding set_time gettimeofday settimeofday
set_time_lem get set d c = ground arith

happen_lem :
    (es : List Event) (c : Clocks)
    → let e = happen es c in
      let a = account es c in
      (e.monotonic ≡ c.monotonic + a.passed)
      × (e.realtime + a.runs * 5000000000 ≤ c.realtime + a.passed)
      × (c.realtime + a.passed ≤ e.realtime + a.runs * 5000001000 + a.between)
unfolding happen account
happen_lem [] c = omega arith
happen_lem (passes d ∷ es) c = omega (arith, happen_lem es (pass d c))
happen_lem (steps get set d ∷ es) c =
    omega (arith, set_time_lem get set d c, happen_lem es (set_time get set d c).1)

target_lem : (id : ClockId) (c : Clocks) → nanoseconds (target id c) ≡ shows id c + 10000000000
unfolding target clock_gettime
target_lem id c = omega arith

-- What one event does, as `set_time_lem` says it.
event_lem :
    (e : Event) (c : Clocks)
    → let r = happen (e ∷ []) c in
      let a = account (e ∷ []) c in
      (r.monotonic ≡ c.monotonic + a.passed)
      × (r.realtime + a.runs * 5000000000 ≤ c.realtime + a.passed)
event_lem e c = let (m, low, high) = happen_lem (e ∷ []) c in (m, low)

-- No clock shows more within an event than before it, and what passes in it.
is_reached_in-passed :
    (id : ClockId) (ts : Timespec) (e : Event) (c : Clocks)
    → is_reached_in id ts e c ≡ true
    → nanoseconds ts ≤ shows id c + (account (e ∷ []) c).passed
unfolding is_reached_in account happen
is_reached_in-passed clock_realtime ts (passes d) c h = ground arith
is_reached_in-passed clock_monotonic ts (passes d) c h = ground arith
is_reached_in-passed clock_realtime ts (steps get set d) c h =
    ground (arith, set_time_lem get set d c)
is_reached_in-passed clock_monotonic ts (steps get set d) c h =
    ground (arith, set_time_lem get set d c)

account-cons :
    (e : Event) (es : List Event) (c : Clocks)
    → let a = account (e ∷ es) c in
      let one = account (e ∷ []) c in
      let rest = account es (happen (e ∷ []) c) in
      (a.passed ≡ one.passed + rest.passed) × (a.runs ≡ one.runs + rest.runs)
unfolding account happen
account-cons (passes d) es c = omega arith
account-cons (steps get set d) es c = omega arith

happen-cons :
    (e : Event) (es : List Event) (c : Clocks) → happen (e ∷ es) c ≡ happen es (happen (e ∷ []) c)
unfolding happen
happen-cons (passes d) es c = refl
happen-cons (steps get set d) es c = refl

-- A thread whose time is shown after the events is awake.
awake_at_end :
    (id : ClockId) (ts : Timespec) (es : List Event) (c : Clocks)
    → nanoseconds ts ≤ shows id (happen es c)
    → is_awake id ts es c ≡ true
unfolding is_awake
awake_at_end id ts [] c h = unfold happen in ground (arith, h)
awake_at_end id ts (e ∷ es) c h =
    ground (arith, awake_at_end id ts es (happen (e ∷ []) c) (rw (happen-cons e es c) at h))

is_awake-monotonic :
    (ts : Timespec) (es : List Event) (c : Clocks)
    → is_awake clock_monotonic ts es c ≡ true
    → nanoseconds ts ≤ c.monotonic + (account es c).passed
unfolding is_awake
is_awake-monotonic ts [] c h = ground (arith, h)
is_awake-monotonic ts (e ∷ es) c h = ground (
  arith,
  h,
  is_awake-monotonic ts es (happen (e ∷ []) c),
  is_reached_in-passed clock_monotonic ts e c,
  event_lem e c,
  account-cons e es c,
)

-- The event in which a thread by the real-time clock wakes.
wakes_in :
    (ts : Timespec) (es : List Event) (e : Event) (c : Clocks)
    → is_awake clock_realtime ts es c ≡ false
    → is_awake clock_realtime ts (es ++ e ∷ []) c ≡ true
    → nanoseconds ts + (account es c).runs * 5000000000
      ≤ c.realtime + (account (es ++ e ∷ []) c).passed
unfolding is_awake
wakes_in ts [] e c asleep wakes =
    unfold account in
    ground (arith, asleep, wakes, is_reached_in-passed clock_realtime ts e c, event_lem e c)
wakes_in ts (f ∷ es) e c asleep wakes = ground (
  arith,
  asleep,
  wakes,
  wakes_in ts es e (happen (f ∷ []) c),
  event_lem f c,
  account-cons f es c,
  account-cons f (es ++ e ∷ []) c,
)

-- Whatever time passes and runs of set_time.c happen since the threads of timer_test.c read their
-- clocks, a thread being awake from the first moment on at which its clock shows its time: the
-- monotonic thread is awake exactly when ten seconds have passed; while the other one sleeps, less
-- has passed than ten seconds and, for each run with status 0, five seconds, a microsecond and what
-- passed between its two calls; and by the end of the event in which it wakes, ten seconds and five
-- for each such run before the event have passed.
pub is_awake-account :
    (es : List Event) (c : Clocks)
    → let a = account es c in
      let ts = target clock_realtime c in
      ((is_awake clock_monotonic (target clock_monotonic c) es c ≡ true) ↔ (10000000000 ≤ a.passed))
      × (is_awake clock_realtime ts es c ≡ false
          → a.passed < 10000000000 + a.runs * 5000001000 + a.between)
      × ((e : Event)
          → is_awake clock_realtime ts es c ≡ false
          → is_awake clock_realtime ts (es ++ e ∷ []) c ≡ true
          → 10000000000 + a.runs * 5000000000 ≤ (account (es ++ e ∷ []) c).passed)
is_awake-account es c =
    let e = happen_lem es c in
    let r = target_lem clock_realtime c in
    let m = target_lem clock_monotonic c in
    (
      (
        λ h. omega (arith, is_awake-monotonic (target clock_monotonic c) es c h, m),
        λ h. awake_at_end clock_monotonic (target clock_monotonic c) es c (omega (arith, e, m, h)),
      ),
      λ h. ground (arith, e, r, h, awake_at_end clock_realtime (target clock_realtime c) es c),
      λ f h k. omega (arith, wakes_in (target clock_realtime c) es f c h k, r),
    )
