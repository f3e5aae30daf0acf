-- ===== src/Timers.antt =====
-- C/itimer.c, C/itimer_signal.c, C/posix_timer.c, C/posix_timer2.c and C/timer_thread.c: a periodic timer
-- and the function that runs when it expires. An expiry while one is pending is merged with it. The
-- handler is that of itimer_signal.c; the others print no number.
use linux_riscv.Prelude.{
  ℕ, zero, suc, ◌+◌, ◌-◌, ◌*◌, ◌≤◌, ◌≡◌, refl, ◌⊎◌, inl, inr, List, [], ◌∷◌, Bool, true, false,
  arith, if◌then◌else◌, ap,
}
use linux_riscv.Clock.{Timespec, nanoseconds}

-- `struct itimerspec`, and `struct itimerval` with its microseconds counted as nanoseconds.
pub record Itimerspec : Type 0 where
  pub it_interval : Timespec
  pub it_value : Timespec

pub posix_timer : Itimerspec
posix_timer = record {
  it_interval = record { tv_sec = 0; tv_nsec = 500000000 };
  it_value = record { tv_sec = 1; tv_nsec = 0 };
}

pub itimer : Itimerspec
itimer = record {
  it_interval = record { tv_sec = 0; tv_nsec = 500000 * 1000 };
  it_value = record { tv_sec = 1; tv_nsec = 0 };
}

pub itimer_signal : Itimerspec
itimer_signal = record {
  it_interval = record { tv_sec = 1; tv_nsec = 0 };
  it_value = record { tv_sec = 1; tv_nsec = 0 };
}

-- The nanoseconds since the timer was set, its expiries, whether one is pending, those that were
-- merged, `count` of the handler, and what it has printed, the newest first.
pub record State : Type 0 where
  pub now : ℕ
  pub expired : ℕ
  pub pending : Bool
  pub merged : ℕ
  pub count : ℕ
  pub out : List ℕ

pub armed : State
armed = record { now = 0; expired = 0; pending = false; merged = 0; count = 0; out = [] }

-- When the timer expires for the k-th time after the first.
pub due : Itimerspec → ℕ → ℕ
due its k = nanoseconds its.it_value + k * nanoseconds its.it_interval

-- `printf("Timer expired: %d\n", ++count)`
pub handler : State → State
handler s =
    let count = s.count + 1 in record s { pending = false; count = count; out = count ∷ s.out }

pub data Step (its : Itimerspec) (s : State) : State → Type 0 where
  pass : (d : ℕ) → Step its s (record s { now = s.now + d })
  expire :
      due its s.expired ≤ s.now
      → s.pending ≡ false
      → Step its s (record s { expired = s.expired + 1; pending = true })
  merge :
      due its s.expired ≤ s.now
      → s.pending ≡ true
      → Step its s (record s { expired = s.expired + 1; merged = s.merged + 1 })
  deliver : s.pending ≡ true → Step its s (handler s)

pub data Reach (its : Itimerspec) : State → Type 0 where
  here : Reach its armed
  next : {s t : State} → Reach its s → Step its s t → Reach its t

abbrev waiting : Bool → ℕ
waiting b = if b then 1 else 0

-- The numbers from `n` down to 1.
abbrev pub countdown : ℕ → List ℕ
countdown zero = []
countdown (suc n) = suc n ∷ countdown n

record Inv (its : Itimerspec) (s : State) : Type 0 where
  accounted : s.count + s.merged + waiting s.pending ≡ s.expired
  on_time : (s.expired ≡ 0) ⊎ (due its (s.expired - 1) ≤ s.now)
  numbered : s.out ≡ countdown s.count

later :
    (its : Itimerspec) (n now d : ℕ)
    → (n ≡ 0) ⊎ (due its (n - 1) ≤ now)
    → (n ≡ 0) ⊎ (due its (n - 1) ≤ now + d)
later its n now d (inl none) = inl none
later its n now d (inr past) = inr (omega (arith, past))

just : (its : Itimerspec) (n now : ℕ) → due its n ≤ now → (n + 1 ≡ 0) ⊎ (due its (n + 1 - 1) ≤ now)
just its n now h = let same : n + 1 - 1 ≡ n = omega arith in inr (rw same h)

countdown-next : (n : ℕ) (out : List ℕ) → out ≡ countdown n → (n + 1) ∷ out ≡ countdown (n + 1)
countdown-next n out e = let up : n + 1 ≡ suc n = omega arith in rw up (ap (◌∷◌ (suc n)) e)

Step-Inv : {its : Itimerspec} {s t : State} → Step its s t → Inv its s → Inv its t
unfolding handler
Step-Inv {its} {s} (pass d) v = record {
  accounted = v.accounted;
  on_time = later its s.expired s.now d v.on_time;
  numbered = v.numbered;
}
Step-Inv {its} {s} (expire h p) v = record {
  accounted = ground (arith, v.accounted);
  on_time = just its s.expired s.now h;
  numbered = v.numbered;
}
Step-Inv {its} {s} (merge h p) v = record {
  accounted = ground (arith, v.accounted);
  on_time = just its s.expired s.now h;
  numbered = v.numbered;
}
Step-Inv {its} {s} (deliver p) v = record {
  accounted = ground (arith, v.accounted);
  on_time = v.on_time;
  numbered = countdown-next s.count s.out v.numbered;
}

Reach-Inv : (its : Itimerspec) {s : State} → Reach its s → Inv its s
unfolding armed
Reach-Inv its here = record { accounted = refl; on_time = inl refl; numbered = refl }
Reach-Inv its (next r st) = Step-Inv st (Reach-Inv its r)

due_mono : (its : Itimerspec) (m n : ℕ) → m ≤ n → due its m ≤ due its n
unfolding due
due_mono its m n h = grind (arith)

at_expiry :
    (its : Itimerspec) (n expired now : ℕ)
    → n + 1 ≤ expired
    → (expired ≡ 0) ⊎ (due its (expired - 1) ≤ now)
    → due its n ≤ now
at_expiry its n expired now h (inl z) = absurd (omega (arith, h, z))
at_expiry its n expired now h (inr past) =
    omega (arith, due_mono its n (expired - 1) (omega (arith, h)), past)

-- Every expiry was answered by a run of the handler, or was merged, or is pending; the runs are
-- numbered from 1 on without a gap; and the n-th run is not before the n-th expiry is due.
pub Reach-on_time :
    (its : Itimerspec) {s : State}
    → Reach its s
    → (s.count + s.merged + waiting s.pending ≡ s.expired)
      × (s.out ≡ countdown s.count)
      × ((n : ℕ) → s.count ≡ n + 1 → due its n ≤ s.now)
Reach-on_time its {s} r =
    let v = Reach-Inv its r in
    (
      v.accounted,
      v.numbered,
      λ n e. at_expiry its n s.expired s.now (omega (arith, v.accounted, e)) v.on_time,
    )

-- The timers of itimer.c and posix_timer.c are due at the same times, after a second and then every
-- half; that of itimer_signal.c is due every second.
pub due_times :
    (k : ℕ)
    → (due posix_timer k ≡ 1000000000 + k * 500000000)
      × (due itimer k ≡ due posix_timer k)
      × (due itimer_signal k ≡ (k + 1) * 1000000000)
unfolding due posix_timer itimer itimer_signal
due_times k = (omega arith, omega arith, omega arith)
