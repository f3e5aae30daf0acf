-- ===== src/Hrtimer.antt =====
-- modules/hrtimer.c: a timer that restarts itself until its counter is used up. `count` is the
-- atomic counter, `forwards` the number of calls of `hrtimer_forward_now`, and `armed` says whether
-- the timer is queued, which `hrtimer_start`, the callback's answer and `hrtimer_cancel` decide.
mod Tests
use linux_riscv.Prelude.{
  ℕ, zero, suc, ◌+◌, ◌-◌, ◌/◌, ◌≤◌, ◌<◌, ◌≡◌, refl, ℤ, pos, Bool, true, false, arith, if◌then◌else◌,
}
use linux_riscv.Prelude.Int.{◌-ℤ◌, leb_ℤ}

pub data HrtimerRestart : Type 0 where
  restart norestart : HrtimerRestart

pub record Timer : Type 0 where
  pub count : ℤ
  pub forwards : ℕ
  pub armed : Bool

-- The static variables of the module, before it is loaded.
pub unloaded : Timer
unloaded = record { count = pos 10; forwards = 0; armed = false }

-- The callback: `atomic_dec_return`, and a restart while the counter is positive.
pub timer_timeout : Timer → HrtimerRestart × Timer
timer_timeout t =
    let current_count = t.count -ℤ pos 1 in
    let t' = record t { count = current_count } in
    if leb_ℤ current_count (pos 0)
    then (norestart, t')
    else (restart, record t' { forwards = t.forwards + 1 })

pub my_init : Timer → ℤ × Timer
my_init t = (pos 0, record t { armed = true })

pub my_remove : Timer → Timer
my_remove t = record t { armed = false }

abbrev queued_again : HrtimerRestart → Bool
queued_again restart = true
queued_again norestart = false

-- One expiry: the timer is queued again if the callback says so.
pub expire : Timer → Timer
expire t = let (r, t') = timer_timeout t in record t' { armed = queued_again r }

-- Histories of the loaded module, with the number of expiries; only a queued timer expires.
pub data History : ℕ → Timer → Type 0 where
  loaded : History 0 (my_init unloaded).1
  fired : {n : ℕ} {t : Timer} → History n t → t.armed ≡ true → History (suc n) (expire t)
  removed : {n : ℕ} {t : Timer} → History n t → History n (my_remove t)

pub record Counted (n : ℕ) (t : Timer) : Type 0 where
  pub left : t.count ≡ pos (10 - n)
  pub bound : n ≤ 10
  pub again : t.armed ≡ true → n < 10
  pub forwarded : t.forwards + (n / 10) ≡ n

-- In every history of the loaded timer the callback has run at most ten times, the counter holds
-- the runs that are left, a queued timer has runs left, and every run but the tenth moved the
-- expiry forward.
pub History-Counted : {n : ℕ} {t : Timer} → History n t → Counted n t
unfolding my_init unloaded my_remove expire timer_timeout
History-Counted loaded = ground arith
History-Counted (fired h a) = let c = History-Counted h in ground (arith, c)
History-Counted (removed h) =
    let c = History-Counted h in
    record { left = c.left; bound = c.bound; again = λ e. cc; forwarded = c.forwarded }

-- Expiries until the timer is no longer queued.
pub run_timer : ℕ → Timer → ℕ × Timer
run_timer zero t = (0, t)
run_timer (suc fuel) t = elim t.armed [
  | true ↦ let (n, t') = run_timer fuel (expire t) in (suc n, t')
  | false ↦ (0, t)
]

expire_last :
    (f : ℕ)
    → expire (record { count = pos 1; forwards = f; armed = true })
      ≡ record { count = pos 0; forwards = f; armed = false }
unfolding expire timer_timeout
expire_last f = refl

expire_more :
    (k f : ℕ)
    → expire (record { count = pos (suc (suc k)); forwards = f; armed = true })
      ≡ record { count = pos (suc k); forwards = f + 1; armed = true }
unfolding expire timer_timeout
expire_more k f = ground arith

run_timer_idle :
    (c : ℤ) (f fuel : ℕ)
    → run_timer fuel (record { count = c; forwards = f; armed = false })
      ≡ (0, record { count = c; forwards = f; armed = false })
unfolding run_timer
run_timer_idle c f zero = refl
run_timer_idle c f (suc fuel) = refl

run_timer_exact :
    (k f fuel : ℕ)
    → suc k ≤ fuel
    → run_timer fuel (record { count = pos (suc k); forwards = f; armed = true })
      ≡ (suc k, record { count = pos 0; forwards = f + k; armed = false })
unfolding run_timer
run_timer_exact k f zero h = absurd (omega arith)
run_timer_exact zero f (suc fuel) h =
    rw (expire_last f, run_timer_idle (pos 0) f fuel) (ground arith)
run_timer_exact (suc k) f (suc fuel) h =
    rw (expire_more k f, run_timer_exact k (f + 1) fuel (omega arith)) (ground arith)

-- With fuel for at least ten expiries, the loaded timer runs ten times, moves its expiry nine times
-- and is no longer queued.
pub run_timer-my_init :
    (fuel : ℕ)
    → 10 ≤ fuel
    → run_timer fuel (my_init unloaded).1
      ≡ (10, record { count = pos 0; forwards = 9; armed = false })
unfolding my_init unloaded
run_timer-my_init fuel h = run_timer_exact 9 0 fuel h
