-- ===== src/Clock.antt =====
-- Differences of clock readings: `busy_wait_ms` of C/shared_lock.h, the delays of C/health.c and
-- C/cpu_hog.c, the interval of C/timer_accuracy.c, and the calibration of C/read_counter.h. A
-- reading of CLOCK_MONOTONIC is a `Timespec`; the i-th reading of a loop is the parameter `clock i`.
pub mod Tests
use linux_riscv.Prelude.{
  ℕ, zero, suc, ◌+◌, ◌-◌, ◌*◌, ◌/◌, ◌%◌, ◌^◌, ◌≤◌, ◌<◌, ◌≡◌, ap, sym, ◌∙◌, ltb, inl, inr, Option,
  some, none, ℤ, pos, negsuc, true, false, arith, if◌then◌else◌, Bool-cases,
}
use linux_riscv.Prelude.Int.{pos_part, neg_part, sub_ℕ, ◌+ℤ◌, ◌-ℤ◌, leb_ℤ}

pub record Timespec : Type 0 where
  pub tv_sec : ℕ
  pub tv_nsec : ℕ

-- The kernel keeps the nanoseconds below a second.
abbrev pub IsTime : Timespec → Type 0
IsTime t = t.tv_nsec < 1000000000

-- What a reading stands for.
abbrev pub nanoseconds : Timespec → ℕ
nanoseconds t = t.tv_sec * 1000000000 + t.tv_nsec

-- C's product and quotient by a positive constant; `/` rounds towards zero.
abbrev pub scale : ℤ → ℕ → ℤ
scale a k = sub_ℕ (pos_part a * k) (neg_part a * k)

abbrev pub quotient : ℤ → ℕ → ℤ
quotient a k = sub_ℕ (pos_part a / k) (neg_part a / k)

-- The conversion to `long`, which has 32 bits on RV32; `time_t` has 64.
residue : ℤ → ℕ
residue (pos n) = n % 2 ^ 32
residue (negsuc n) = 2 ^ 32 - 1 - n % 2 ^ 32

pub to_long : ℤ → ℤ
unfolding residue
to_long z = if ltb (residue z) (2 ^ 31) then pos (residue z) else negsuc (2 ^ 32 - 1 - residue z)

pub to_long_small : (n : ℕ) → n < 2 ^ 31 → to_long (pos n) ≡ pos n
unfolding to_long
to_long_small n h = let e : n % 2 ^ 32 ≡ n = omega arith in rw e (ground arith)

-- `(t2.tv_sec - t1.tv_sec) * 1000 + (t2.tv_nsec - t1.tv_nsec) / 1000000`, before the conversion
pub elapsed_ms : Timespec → Timespec → ℤ
elapsed_ms t1 t2 =
    scale (pos t2.tv_sec -ℤ pos t1.tv_sec) 1000
    +ℤ quotient (pos t2.tv_nsec -ℤ pos t1.tv_nsec) 1000000

-- `(t2.tv_sec - t1.tv_sec) * 1000000000 + (t2.tv_nsec - t1.tv_nsec)`
pub elapsed_ns : Timespec → Timespec → ℤ
elapsed_ns t1 t2 =
    scale (pos t2.tv_sec -ℤ pos t1.tv_sec) 1000000000 +ℤ (pos t2.tv_nsec -ℤ pos t1.tv_nsec)

pub elapsed_ns_lem :
    (t1 t2 : Timespec)
    → nanoseconds t1 ≤ nanoseconds t2
    → elapsed_ns t1 t2 ≡ pos (nanoseconds t2 - nanoseconds t1)
unfolding elapsed_ns
elapsed_ns_lem t1 t2 h = ground arith

-- The milliseconds differ from the true time by less than one, up or down.
pub elapsed_ms_close :
    (t1 t2 : Timespec) (n : ℕ)
    → IsTime t1
    → IsTime t2
    → nanoseconds t1 ≤ nanoseconds t2
    → elapsed_ms t1 t2 ≡ pos n
    → (n * 1000000 < nanoseconds t2 - nanoseconds t1 + 1000000)
      × (nanoseconds t2 - nanoseconds t1 < n * 1000000 + 1000000)
unfolding elapsed_ms
elapsed_ms_close t1 t2 n h₁ h₂ h e = ground arith

nonneg_lem : (z : ℤ) → neg_part z ≡ 0 → z ≡ pos (pos_part z)
nonneg_lem z h = ground arith

pub elapsed_ms_nonneg :
    (t1 t2 : Timespec)
    → IsTime t1
    → IsTime t2
    → nanoseconds t1 ≤ nanoseconds t2
    → elapsed_ms t1 t2 ≡ pos (pos_part (elapsed_ms t1 t2))
unfolding elapsed_ms
elapsed_ms_nonneg t1 t2 h₁ h₂ h = nonneg_lem (elapsed_ms t1 t2) (ground arith)

pub record ClockLaws (clock : ℕ → Timespec) : Type 0 where
  pub normal : (i : ℕ) → IsTime (clock i)
  pub grows : (i : ℕ) → nanoseconds (clock i) ≤ nanoseconds (clock (i + 1))

module _ (clock : ℕ → Timespec) where
  -- The loop of `busy_wait_ms` from the i-th reading on: the number of the reading that ends it.
  -- `none` means that the fuel ran out.
  pub busy_loop : ℕ → (t1 : Timespec) → ℕ → ℕ → Option ℕ
  busy_loop zero t1 ms i = none
  busy_loop (suc fuel) t1 ms i =
      let again = busy_loop fuel t1 ms (i + 1) in
      if leb_ℤ (pos ms) (to_long (elapsed_ms t1 (clock i))) then some i else again

  pub busy_wait_ms : ℕ → ℕ → Option ℕ
  unfolding busy_loop
  busy_wait_ms fuel ms = busy_loop fuel (clock 0) ms 1

  module _ (laws : ClockLaws clock) where
    pub since_start : (i : ℕ) → nanoseconds (clock 0) ≤ nanoseconds (clock i)
    since_start zero = omega arith
    since_start (suc i) =
        let e : i + 1 ≡ suc i = omega arith in omega (arith, since_start i, rw e at (laws.grows i))

    from_reading : (i k : ℕ) → nanoseconds (clock i) ≤ nanoseconds (clock (i + k))
    from_reading i zero = let e : i + 0 ≡ i = omega arith in rw e (omega arith)
    from_reading i (suc k) =
        let e : i + k + 1 ≡ i + suc k = omega arith in
        omega (arith, from_reading i k, rw e at (laws.grows (i + k)))

    -- Within 2 ^ 31 - 1 milliseconds of the start, the conversion changes nothing.
    kept_long :
        (i : ℕ)
        → nanoseconds (clock i) - nanoseconds (clock 0) < (2 ^ 31 - 1) * 1000000
        → to_long (elapsed_ms (clock 0) (clock i)) ≡ elapsed_ms (clock 0) (clock i)
    kept_long i small =
        let late = since_start i in
        let whole = elapsed_ms_nonneg (clock 0) (clock i) (laws.normal 0) (laws.normal i) late in
        let close =
          elapsed_ms_close (clock 0) (clock i) _ (laws.normal 0) (laws.normal i) late whole in
        ap to_long whole
        ∙ to_long_small (pos_part (elapsed_ms (clock 0) (clock i))) (omega (arith, close))
        ∙ sym whole

    -- A reading ends the loop exactly by its milliseconds, which are close to the true time.
    reading_ends :
        (ms i : ℕ)
        → leb_ℤ (pos ms) (elapsed_ms (clock 0) (clock i)) ≡ true
        → ms * 1000000 < nanoseconds (clock i) - nanoseconds (clock 0) + 1000000
    reading_ends ms i h =
        let late = since_start i in
        let whole = elapsed_ms_nonneg (clock 0) (clock i) (laws.normal 0) (laws.normal i) late in
        let close =
          elapsed_ms_close (clock 0) (clock i) _ (laws.normal 0) (laws.normal i) late whole in
        let enough : ms ≤ pos_part (elapsed_ms (clock 0) (clock i)) = ground (arith, whole, h) in
        omega (arith, close, enough)

    reading_goes_on :
        (ms i : ℕ)
        → leb_ℤ (pos ms) (elapsed_ms (clock 0) (clock i)) ≡ false
        → nanoseconds (clock i) - nanoseconds (clock 0) < ms * 1000000 + 1000000
    reading_goes_on ms i h =
        let late = since_start i in
        let whole = elapsed_ms_nonneg (clock 0) (clock i) (laws.normal 0) (laws.normal i) late in
        let close =
          elapsed_ms_close (clock 0) (clock i) _ (laws.normal 0) (laws.normal i) late whole in
        let short : pos_part (elapsed_ms (clock 0) (clock i)) < ms = ground (arith, whole, h) in
        omega (arith, close, short)

    busy_loop_ends :
        (fuel ms i : ℕ)
        → nanoseconds (clock 0) + ms * 1000000 + 1000000 ≤ nanoseconds (clock (i + fuel))
        → nanoseconds (clock (i + fuel)) - nanoseconds (clock 0) < (2 ^ 31 - 1) * 1000000
        → (j : ℕ) × (busy_loop (suc fuel) (clock 0) ms i ≡ some j)
          × (ms * 1000000 < nanoseconds (clock j) - nanoseconds (clock 0) + 1000000)
    unfolding busy_loop
    busy_loop_ends zero ms i h small =
        let same : i + 0 ≡ i = omega arith in
        let plain = kept_long i (rw same at small) in
        elim (Bool-cases (leb_ℤ (pos ms) (elapsed_ms (clock 0) (clock i)))) [
          | inl done ↦ (i, rw (plain, done), reading_ends ms i done)
          | inr more ↦
              absurd (
                omega
                  (arith, reading_goes_on ms i more, ap (λ (k : ℕ). nanoseconds (clock k)) same))
        ]
    busy_loop_ends (suc fuel) ms i h small =
        let plain = kept_long i (omega (arith, from_reading i (suc fuel))) in
        elim (Bool-cases (leb_ℤ (pos ms) (elapsed_ms (clock 0) (clock i)))) [
          | inl done ↦ (i, rw (plain, done), reading_ends ms i done)
          | inr more ↦
              let same : i + suc fuel ≡ i + 1 + fuel = omega arith in
              rw (plain, more) (busy_loop_ends fuel ms (i + 1) (rw same at h) (rw same at small))
        ]

    -- Where a reading of the clock is late enough, and less than 2 ^ 31 - 1 milliseconds after the
    -- first, busy_wait_ms ends with the fuel for it, and what has passed lacks less than a
    -- millisecond of what was asked for.
    pub busy_wait_ms-waits :
        (fuel ms : ℕ)
        → nanoseconds (clock 0) + ms * 1000000 + 1000000 ≤ nanoseconds (clock (1 + fuel))
        → nanoseconds (clock (1 + fuel)) - nanoseconds (clock 0) < (2 ^ 31 - 1) * 1000000
        → (j : ℕ) × (busy_wait_ms (suc fuel) ms ≡ some j)
          × (ms * 1000000 < nanoseconds (clock j) - nanoseconds (clock 0) + 1000000)
    unfolding busy_wait_ms
    busy_wait_ms-waits fuel ms h small = busy_loop_ends fuel ms 1 h small

-- The wait can be short: a reading up to a millisecond before a full second counts as one.
pub busy_wait_ms_early :
    (d : ℕ)
    → d < 1000000
    → elapsed_ms (record { tv_sec = 0; tv_nsec = d }) (record { tv_sec = 1; tv_nsec = 0 })
      ≡ pos 1000
unfolding elapsed_ms
busy_wait_ms_early d h = ground arith
