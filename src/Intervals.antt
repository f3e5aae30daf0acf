-- ===== src/Intervals.antt =====
-- Programs that watch the clock: the signal handler of C/timer_accuracy.c and C/timer_acculacy.c, and
-- the loop of C/cpu_hog.c. The readings of CLOCK_MONOTONIC are parameters.
use linux_riscv.Prelude.{
  ℕ, ◌+◌, ◌-◌, ◌^◌, ◌≤◌, ◌<◌, ◌≡◌, refl, ap, ◌∙◌, List, [], ◌∷◌, ◌++◌, ℤ, pos, arith, leb→le,
  if◌then◌else◌, Bool-cases, length, inl, inr,
}
use linux_riscv.Prelude.Int.{◌+ℤ◌, leb_ℤ, ◌≤ℤ◌}
use linux_riscv.Clock.{
  Timespec, nanoseconds, to_long, to_long_small, elapsed_ns, elapsed_ns_lem, elapsed_ms,
}

-- `handler`: what is printed, and `prev` afterwards.
pub handler : (prev now : Timespec) → ℤ × Timespec
handler prev now = (to_long (elapsed_ns prev now), now)

-- The intervals that are printed when the signal arrives at these times.
pub handle_all : (prev : Timespec) → List Timespec → List ℤ
handle_all prev [] = []
handle_all prev (now ∷ later) =
    let (delta, prev) = handler prev now in delta ∷ handle_all prev later

pub total : List ℤ → ℤ
total [] = pos 0
total (z ∷ zs) = z +ℤ total zs

-- The times do not go back, and each is less than 2 ^ 31 nanoseconds behind the one before.
abbrev pub AreClose : (prev : Timespec) → List Timespec → Type 0
AreClose prev [] = Unit {0}
AreClose prev (now ∷ later) =
    (nanoseconds prev ≤ nanoseconds now)
    × (nanoseconds now - nanoseconds prev < 2 ^ 31)
    × AreClose now later

abbrev pub last : (prev : Timespec) → List Timespec → Timespec
last prev [] = prev
last prev (now ∷ later) = last now later

handler_lem :
    (prev now : Timespec)
    → nanoseconds prev ≤ nanoseconds now
    → nanoseconds now - nanoseconds prev < 2 ^ 31
    → handler prev now ≡ (pos (nanoseconds now - nanoseconds prev), now)
unfolding handler
handler_lem prev now h k = rw (elapsed_ns_lem prev now h) (rw (to_long_small _ k) refl)

last_later :
    (prev : Timespec) (times : List Timespec)
    → AreClose prev times
    → nanoseconds prev ≤ nanoseconds (last prev times)
last_later prev [] h = omega arith
last_later prev (now ∷ later) (h, k, more) = omega (arith, h, last_later now later more)

add_pos : (m n : ℕ) → pos m +ℤ pos n ≡ pos (m + n)
add_pos m n = ground arith

-- Where the times do not go back and each is less than 2 ^ 31 nanoseconds behind the one before,
-- the intervals that the handler prints add up to the time from the start to the last signal.
pub handle_all-total :
    (prev : Timespec) (times : List Timespec)
    → AreClose prev times
    → total (handle_all prev times) ≡ pos (nanoseconds (last prev times) - nanoseconds prev)
unfolding handle_all total
handle_all-total prev [] h = ap pos (omega arith)
handle_all-total prev (now ∷ later) (h, k, more) =
    let after = last_later now later more in
    rw (handler_lem prev now h k, handle_all-total now later more)
      (add_pos _ _ ∙ ap pos (omega (arith, h, after)))

-- C/cpu_hog.c: `count` and `t1`. `count` is a `long`, which the rounds of five seconds do not fill.
pub record Hog : Type 0 where
  pub count : ℕ
  pub t1 : Timespec

pub record Report : Type 0 where
  pub count : ℕ
  pub elapsed : ℤ

-- One round of the loop: `t2` is its reading, `again` the one after a report.
pub round : (t2 again : Timespec) → Hog → List Report × Hog
round t2 again s =
    let elapsed = to_long (elapsed_ms s.t1 t2) in
    if leb_ℤ (pos 5000) elapsed
    then (record { count = s.count + 1; elapsed = elapsed } ∷ [], record { count = 0; t1 = again })
    else ([], record s { count = s.count + 1 })

-- The rounds with these readings, and the reports in order.
pub rounds : List (Timespec × Timespec) → Hog → List Report × Hog
rounds [] s = ([], s)
rounds ((t2, again) ∷ more) s =
    let (reports, s') = round t2 again s in
    let (rest, end) = rounds more s' in (reports ++ rest, end)

pub counted : List Report → ℕ
counted [] = 0
counted (r ∷ rs) = r.count + counted rs

abbrev pub AllLate : List Report → Type 0
AllLate [] = Unit {0}
AllLate (r ∷ rs) = (pos 5000 ≤ℤ r.elapsed) × AllLate rs

round_lem :
    (t2 again : Timespec) (s : Hog)
    → (s.count + 1 ≡ counted (round t2 again s).0 + (round t2 again s).1.count)
      × AllLate (round t2 again s).0
unfolding round counted
round_lem t2 again s = elim (Bool-cases (leb_ℤ (pos 5000) (to_long (elapsed_ms s.t1 t2)))) [
  | inl late ↦ rw late (omega arith, (leb→le _ _ late, tt))
  | inr early ↦ rw early (omega arith, tt)
]

counted-append : (rs qs : List Report) → counted (rs ++ qs) ≡ counted rs + counted qs
unfolding counted
counted-append [] qs = omega arith
counted-append (r ∷ rs) qs = omega (arith, counted-append rs qs)

AllLate-append : (rs qs : List Report) → AllLate rs → AllLate qs → AllLate (rs ++ qs)
AllLate-append [] qs h k = k
AllLate-append (r ∷ rs) qs (late, h) k = (late, AllLate-append rs qs h k)

-- Every round of cpu_hog.c is counted once, in a report or in the count that goes on, and a report
-- comes after at least 5000 milliseconds as the program measures them.
pub rounds-counted :
    (readings : List (Timespec × Timespec)) (s : Hog)
    → (s.count + length readings ≡ counted (rounds readings s).0 + (rounds readings s).1.count)
      × AllLate (rounds readings s).0
unfolding rounds
rounds-counted [] s = (unfold counted in omega arith, tt)
rounds-counted ((t2, again) ∷ more) s =
    let step = round_lem t2 again s in
    let ih = rounds-counted more (round t2 again s).1 in
    (
      omega (
        arith,
        step.0,
        ih.0,
        counted-append (round t2 again s).0 (rounds more (round t2 again s).1).0,
      ),
      AllLate-append (round t2 again s).0 _ step.1 ih.1,
    )
