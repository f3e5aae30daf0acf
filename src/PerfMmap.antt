-- ===== src/PerfMmap.antt =====
-- C/perf_mmap.c: the cycles of an access to a page that is there and to one that is not, read from
-- the page that perf_event_open maps. `now` is what `time_cycles` shows at the i-th reading.
mod Tests
use linux_riscv.Prelude.{
  ℕ, ◌+◌, ◌-◌, ◌%◌, ◌^◌, ◌≤◌, ◌<◌, ◌≡◌, ◌⊎◌, inl, inr, [], ℤ, pos, is_neg, Bool, true, false,
  Option, none, some, arith, ltb, if◌then◌else◌, ◌||◌,
}
use linux_riscv.Calls.{
  Trace, Oracle, M, ask, pure, ◌>>=◌, ◌>>◌, choose, Effect, acquire, release, keep, if_granted,
  settle_only,
}

pub data Call : Type 0 where
  perf_event_open map_pmu map_fault map_nofault : Call
  unmap_pmu close unmap_fault unmap_nofault : Call

pub data Resource : Type 0 where
  fd_cycle pmu_page fault_page nofault_page : Resource

abbrev pub same : Resource → Resource → Bool
same fd_cycle fd_cycle = true
same pmu_page pmu_page = true
same fault_page fault_page = true
same nofault_page nofault_page = true
same _ _ = false

abbrev pub effect : Call → ℤ → Effect Resource
effect perf_event_open r = if_granted r fd_cycle
effect map_pmu r = if_granted r pmu_page
effect map_fault r = if_granted r fault_page
effect map_nofault r = if_granted r nofault_page
effect unmap_pmu r = release pmu_page
effect close r = release fd_cycle
effect unmap_fault r = release fault_page
effect unmap_nofault r = release nofault_page

-- `end_cycles - start_cycles` on 64 bits.
pub cycles : ℕ → ℕ → ℕ
cycles start end = (end + 2 ^ 64 - start) % 2 ^ 64

-- What is printed: the two durations, and the difference or none for the warning.
pub record Report : Type 0 where
  pub duration_nofault : ℕ
  pub duration_fault : ℕ
  pub difference : Option ℕ

pub measure : (now : ℕ → ℕ) → Report
unfolding cycles
measure now =
    let nofault = cycles (now 0) (now 1) in
    let fault = cycles (now 2) (now 3) in
    record {
      duration_nofault = nofault;
      duration_fault = fault;
      difference = if ltb nofault fault then some (fault - nofault) else none;
    }

-- How the program ends: with a status and what it printed, or killed by a store through MAP_FAILED.
pub data Exit (A : Type 0) : Type 0 where
  exit : ℤ → Option A → Exit A
  killed : Exit A

-- The calls around the measurement, which brings `measured`.
with_pages : {A : Type 0} → Oracle Call → A → M Call (Exit A)
with_pages os measured = do
  fd ← ask os perf_event_open
  choose (is_neg fd) (pure (exit (pos 1) none)) do
    page ← ask os map_pmu
    choose (is_neg page) (do ask os close; pure (exit (pos 1) none))
        do
          fault_addr ← ask os map_fault
          nofault_addr ← ask os map_nofault
          choose (is_neg nofault_addr || is_neg fault_addr) (pure killed) do
            ask os unmap_pmu
            ask os close
            ask os unmap_fault
            ask os unmap_nofault
            pure (exit (pos 0) (some measured))

pub main : Oracle Call → (now : ℕ → ℕ) → M Call (Exit Report)
unfolding with_pages
main os now = with_pages os (measure now)

abbrev pub GivenBack : Trace Call → Type 0
GivenBack tr =
    (settle_only same effect fd_cycle tr ≡ some [])
    × (settle_only same effect pmu_page tr ≡ some [])
    × (settle_only same effect fault_page tr ≡ some [])
    × (settle_only same effect nofault_page tr ≡ some [])

with_pages-cases :
    {A : Type 0} (os : Oracle Call) (measured : A)
    → let r = with_pages os measured [] in
      ((r.0 ≡ exit (pos 1) none) × GivenBack r.1)
      ⊎ ((r.0 ≡ exit (pos 0) (some measured)) × GivenBack r.1)
      ⊎ (r.0 ≡ killed)
unfolding with_pages
with_pages-cases os measured = ground arith

-- The readings grow and fit in 64 bits.
pub record ReadingLaws (now : ℕ → ℕ) : Type 0 where
  pub grows : (i : ℕ) → now i ≤ now (i + 1)
  pub fits : (i : ℕ) → now i < 2 ^ 64

-- The durations are the times that passed, and a difference makes up the second with the first.
pub record IsMeasured (now : ℕ → ℕ) (r : Report) : Type 0 where
  pub first : now 0 + r.duration_nofault ≡ now 1
  pub second : now 2 + r.duration_fault ≡ now 3
  pub warned : r.difference ≡ none → r.duration_fault ≤ r.duration_nofault
  pub more : (d : ℕ) → r.difference ≡ some d → (0 < d) × (r.duration_nofault + d ≡ r.duration_fault)

measure-IsMeasured : (now : ℕ → ℕ) → ReadingLaws now → IsMeasured now (measure now)
unfolding measure cycles
measure-IsMeasured now laws =
    let a = laws.grows 0 in
    let b = laws.grows 2 in
    let c = laws.fits 1 in
    let d = laws.fits 3 in
    record {
      first = omega (arith, a, c);
      second = omega (arith, b, d);
      warned = λ e. ground arith;
      more = λ d e. ground arith;
    }

-- Where the cycle counter grows and fits in 64 bits, perf_mmap.c ends with status 1 or 0 and every
-- page and descriptor given back, or is killed by a store; with status 0 the durations are the
-- cycles between the readings, and a difference is positive and makes up the second with the first.
pub main-IsMeasured :
    (os : Oracle Call) (now : ℕ → ℕ)
    → ReadingLaws now
    → let r = main os now [] in
      ((r.0 ≡ exit (pos 1) none) × GivenBack r.1)
      ⊎ ((report : Report) × (r.0 ≡ exit (pos 0) (some report))
          × GivenBack r.1
          × IsMeasured now report)
      ⊎ (r.0 ≡ killed)
unfolding main
main-IsMeasured os now laws = elim (with_pages-cases os (measure now)) [
  | inl failed ↦ inl failed
  | inr (inl (done, back)) ↦ inr (inl (_, done, back, measure-IsMeasured now laws))
  | inr (inr dead) ↦ inr (inr dead)
]
