-- ===== src/AccessTime.antt =====
-- C/access_time.c: the durations of memory accesses and their average. A measurement is the pair of
-- counter readings around the access.
mod Tests
use linux_riscv.Prelude.{
  ℕ, ◌+◌, ◌-◌, ◌*◌, ◌/◌, ◌≤◌, ◌<◌, ◌≡◌, ◌⊎◌, List, [], ◌∷◌, Bool, true, false, ◌&&◌, arith, ltb,
  if◌then◌else◌, Option, none, some, ℤ, pos, is_neg,
}
use linux_riscv.Calls.{
  Oracle, M, ask, pure, ◌>>=◌, ◌>>◌, choose, Effect, acquire, release, keep, if_granted,
  settle_only,
}

pub record Sample : Type 0 where
  pub start : ℕ
  pub end : ℕ

pub measure_access_time : Sample → ℕ
measure_access_time s = if ltb s.start s.end then s.end - s.start else 0

pub record Totals : Type 0 where
  pub total_nofault : ℕ
  pub valid_count : ℕ

abbrev pub is_valid : ℕ → Bool
is_valid duration = ltb 0 duration && ltb duration 10000

-- The body of the loop, and the loop over the measurements.
pub add_sample : Totals → Sample → Totals
add_sample t s =
    let duration = measure_access_time s in
    if is_valid duration
    then record { total_nofault = t.total_nofault + duration; valid_count = t.valid_count + 1 }
    else t

pub measure : Totals → List Sample → Totals
measure t [] = t
measure t (s ∷ ss) = measure (add_sample t s) ss

pub no_samples : Totals
no_samples = record { total_nofault = 0; valid_count = 0 }

pub average : Totals → ℕ
average t = if ltb 0 t.valid_count then t.total_nofault / t.valid_count else 0

-- The last report: the difference, or none where the program warns.
pub difference : (duration avg_nofault : ℕ) → Option ℕ
difference duration avg_nofault =
    if ltb avg_nofault duration && ltb duration 1000000000
    then some (duration - avg_nofault)
    else none

pub data Call : Type 0 where
  map_nofault map_fault madvise unmap_nofault unmap_fault : Call

pub data Resource : Type 0 where
  nofault_page fault_page : Resource

abbrev pub same : Resource → Resource → Bool
same nofault_page nofault_page = true
same fault_page fault_page = true
same _ _ = false

abbrev pub effect : Call → ℤ → Effect Resource
effect map_nofault r = if_granted r nofault_page
effect map_fault r = if_granted r fault_page
effect madvise r = keep
effect unmap_nofault r = release nofault_page
effect unmap_fault r = release fault_page

-- `main`, with the measurements of the loop and the one of the page fault: the status, and the
-- difference that is reported. MAP_FAILED is negative.
pub main : Oracle Call → List Sample → Sample → M Call (ℤ × Option ℕ)
main os samples faulted = do
  nofault_addr ← ask os map_nofault
  choose (is_neg nofault_addr) (pure (pos 1, none)) do
    fault_addr ← ask os map_fault
    choose (is_neg fault_addr) (pure (pos 1, none)) do
      ask os madvise
      ask os unmap_nofault
      ask os unmap_fault
      pure (pos 0, difference (measure_access_time faulted) (average (measure no_samples samples)))

-- Every valid measurement lies between `lo` and `hi`.
abbrev pub Between : ℕ → ℕ → List Sample → Type 0
Between lo hi [] = Unit {0}
Between lo hi (s ∷ ss) =
    (is_valid (measure_access_time s) ≡ true
      → (lo ≤ measure_access_time s) × (measure_access_time s ≤ hi))
    × Between lo hi ss

pub record Within (lo hi n : ℕ) (t : Totals) : Type 0 where
  pub low : t.valid_count * lo ≤ t.total_nofault
  pub high : t.total_nofault ≤ t.valid_count * hi
  pub few : t.valid_count ≤ n

abbrev pub left_mapped : Oracle Call → List Sample → Sample → Resource → Option (List Resource)
left_mapped os samples faulted x = settle_only same effect x (main os samples faulted []).1

-- The measuring program either ends with status 1, no report and the second page not mapped; or
-- with status 0, both pages unmapped, and if it reports a difference, that is positive and makes up
-- the time of the page fault with the average.
pub main-difference :
    (os : Oracle Call) (samples : List Sample) (faulted : Sample)
    → (((main os samples faulted []).0 ≡ (pos 1, none))
        × (left_mapped os samples faulted fault_page ≡ some []))
      ⊎ (((main os samples faulted []).0.0 ≡ pos 0)
          × (left_mapped os samples faulted nofault_page ≡ some [])
          × (left_mapped os samples faulted fault_page ≡ some [])
          × ((d : ℕ)
              → (main os samples faulted []).0.1 ≡ some d
              → (0 < d) × (average (measure no_samples samples) + d ≡ measure_access_time faulted)))
unfolding main difference
main-difference os samples faulted = ground arith
