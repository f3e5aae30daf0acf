-- ===== src/SteppedClock.antt =====
-- C/set_time.c, which sets the system's clock back by five seconds, and the threads of C/timer_test.c,
-- which sleep until ten seconds after their start by one of two clocks. `clock_nanosleep` with
-- TIMER_ABSTIME returns when its clock shows the time it was given or a later one.
pub mod Sleep
mod Tests
use linux_riscv.Prelude.{
  ℕ, zero, ◌+◌, ◌-◌, ◌*◌, ◌/◌, ◌%◌, List, [], ◌∷◌, ℤ, pos, Bool, leb, ltb, if◌then◌else◌, ◌&&◌,
  ◌||◌,
}
use linux_riscv.Clock.{Timespec, nanoseconds}

pub data ClockId : Type 0 where
  clock_realtime clock_monotonic : ClockId

-- What the two clocks show, in nanoseconds.
pub record Clocks : Type 0 where
  pub realtime : ℕ
  pub monotonic : ℕ

abbrev pub shows : ClockId → Clocks → ℕ
shows clock_realtime c = c.realtime
shows clock_monotonic c = c.monotonic

pub clock_gettime : ClockId → Clocks → Timespec
clock_gettime id c = record { tv_sec = shows id c / 1000000000; tv_nsec = shows id c % 1000000000 }

abbrev pub pass : ℕ → Clocks → Clocks
pass d c = record { realtime = c.realtime + d; monotonic = c.monotonic + d }

-- `gettimeofday`, in seconds and microseconds.
pub record Timeval : Type 0 where
  pub tv_sec : ℕ
  pub tv_usec : ℕ

gettimeofday : Clocks → Timeval
gettimeofday c = record {
  tv_sec = c.realtime / 1000000000;
  tv_usec = c.realtime % 1000000000 / 1000;
}

settimeofday : Timeval → Clocks → Clocks
settimeofday tv c = record c { realtime = tv.tv_sec * 1000000000 + tv.tv_usec * 1000 }

-- `main` of set_time.c: its status and the clocks. `get` and `set` say whether the two calls are
-- granted, `d` what passes from the first to the second, which refuses a negative time.
pub set_time : (get set : Bool) (d : ℕ) → Clocks → ℤ × Clocks
unfolding gettimeofday settimeofday
set_time get set d c =
    let tv = gettimeofday c in
    let late = pass d c in
    if get
    then if ltb tv.tv_sec 5
      then (pos 1, late)
      else if set
      then (pos 0, settimeofday (record tv { tv_sec = tv.tv_sec - 5 }) late)
      else (pos 1, late)
    else (pos 1, c)

-- `test_timer`: the time that it sleeps for. `clock_nanosleep` returns as soon as its clock shows that
-- time or a later one, whatever is done to the clock afterwards.
pub target : ClockId → Clocks → Timespec
unfolding clock_gettime
target id c = let ts = clock_gettime id c in record ts { tv_sec = ts.tv_sec + 10 }

abbrev pub is_reached : ClockId → Timespec → Clocks → Bool
is_reached id ts c = leb (nanoseconds ts) (shows id c)

-- What happens after the threads have read their clocks: time passes, or set_time.c runs.
pub data Event : Type 0 where
  passes : ℕ → Event
  steps : (get set : Bool) (d : ℕ) → Event

pub happen : List Event → Clocks → Clocks
unfolding set_time
happen [] c = c
happen (passes d ∷ es) c = happen es (pass d c)
happen (steps get set d ∷ es) c = happen es (set_time get set d c).1

-- Whether the clock shows the time at some point of one event: in a run of set_time.c, when both
-- calls are granted, also right before the second.
pub is_reached_in : ClockId → Timespec → Event → Clocks → Bool
unfolding happen
is_reached_in id ts (passes d) c = is_reached id ts (pass d c)
is_reached_in id ts (steps get set d) c =
    (get && is_reached id ts (pass d c)) || is_reached id ts (set_time get set d c).1

-- Whether the sleep of a thread is over after the events.
pub is_awake : ClockId → Timespec → List Event → Clocks → Bool
is_awake id ts [] c = is_reached id ts c
is_awake id ts (e ∷ es) c =
    let later = is_awake id ts es (happen (e ∷ []) c) in
    is_reached id ts c || is_reached_in id ts e c || later

-- The time that passes over the events, the runs of set_time.c with status 0, and what passes in
-- them from the first call to the second.
abbrev pub succeeded : ℤ → ℕ
succeeded r = elim r [ pos zero ↦ 1 | _ ↦ 0 ]

pub record Account : Type 0 where
  pub passed : ℕ
  pub runs : ℕ
  pub between : ℕ

pub account : List Event → Clocks → Account
account [] c = record { passed = 0; runs = 0; between = 0 }
account (passes d ∷ es) c =
    let rest = account es (pass d c) in record rest { passed = d + rest.passed }
account (steps get set d ∷ es) c =
    let r = set_time get set d c in
    let rest = account es r.1 in
    let done = succeeded r.0 in
    record {
      passed = (if get then d else 0) + rest.passed;
      runs = done + rest.runs;
      between = done * d + rest.between;
    }
