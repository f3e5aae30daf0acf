-- ===== src/Counter.antt =====
-- The 64-bit time counter, read on RV32 as two halves: `read_time_rv32` of C/rdtime.h and
-- C/access_time.c, `get_rdtime` of modules/chardev_user.c, and the RV32 branch of
-- `read_freerun_counter` in C/read_counter.h. The counter is a parameter, `time`: what it shows at
-- the i-th read of one of its halves.
mod Tests
use linux_riscv.Prelude.{
  ℕ, zero, suc, ◌+◌, ◌-◌, ◌*◌, ◌/◌, ◌%◌, ◌^◌, ◌≤◌, ◌<◌, ◌≡◌, ◌≢◌, ap, ◌∙◌, inl, inr, Option, some,
  none, arith, ◌==◌, ==_iff, if◌then◌else◌, bit_or, bit_or_shifted, Bool-cases,
}

pub record CounterLaws (time : ℕ → ℕ) : Type 0 where
  pub grows : (i : ℕ) → time i ≤ time (i + 1)
  pub fits : (i : ℕ) → time i < 2 ^ 64

module _ (time : ℕ → ℕ) where
  -- `rdtimeh` and `rdtime` at the i-th read.
  pub rdtimeh : ℕ → ℕ
  rdtimeh i = time i / 2 ^ 32 % 2 ^ 32

  pub rdtime : ℕ → ℕ
  rdtime i = time i % 2 ^ 32

  -- The loop from the i-th read on, with fuel for its rounds: the value, and the number of the next
  -- read. `none` means that the fuel ran out.
  pub read_time_rv32 : ℕ → ℕ → Option (ℕ × ℕ)
  read_time_rv32 zero i = none
  read_time_rv32 (suc fuel) i =
      let again = read_time_rv32 fuel (i + 3) in
      if rdtimeh i == rdtimeh (i + 2)
      then some (bit_or (rdtimeh i * 2 ^ 32) (rdtime (i + 1)), i + 3)
      else again

  -- The same loop in modules/chardev_user.c and in C/read_counter.h.
  abbrev pub get_rdtime : ℕ → ℕ → Option (ℕ × ℕ)
  get_rdtime = read_time_rv32

  abbrev pub read_freerun_counter : ℕ → ℕ → Option (ℕ × ℕ)
  read_freerun_counter = read_time_rv32

  module _ (laws : CounterLaws time) where
    grows_twice : (i : ℕ) → (time i ≤ time (i + 1)) × (time (i + 1) ≤ time (i + 2))
    grows_twice i =
        (laws.grows i, let e : i + 1 + 1 ≡ i + 2 = omega arith in rw e at (laws.grows (i + 1)))

    high_lem : (i : ℕ) → rdtimeh i ≡ time i / 2 ^ 32
    unfolding rdtimeh
    high_lem i = omega (arith, laws.fits i)

    -- Equal high halves around the low half: the halves belong together.
    halves_fit :
        (i : ℕ)
        → rdtimeh i ≡ rdtimeh (i + 2)
        → bit_or (rdtimeh i * 2 ^ 32) (rdtime (i + 1)) ≡ time (i + 1)
    unfolding rdtime
    halves_fit i e =
        bit_or_shifted 32 (rdtimeh i) (time (i + 1) % 2 ^ 32) (omega arith)
        ∙ omega (arith, grows_twice i, high_lem i, high_lem (i + 2))

    -- Different high halves: the high half has grown when the next round begins.
    high_grows : (i : ℕ) → rdtimeh i ≢ rdtimeh (i + 2) → rdtimeh i < rdtimeh (i + 3)
    high_grows i h =
        let third : time (i + 2) ≤ time (i + 3) =
          let e : i + 2 + 1 ≡ i + 3 = omega arith in rw e at (laws.grows (i + 2)) in
        omega (arith, grows_twice i, third, high_lem i, high_lem (i + 2), high_lem (i + 3))

    -- Where the counter grows and its high half changes less often than the fuel has rounds,
    -- read_time_rv32 returns, and its value is what the whole counter showed at one read after the
    -- call began.
    pub read_time_rv32-current :
        (fuel i : ℕ)
        → rdtimeh (i + 3 * fuel) < rdtimeh i + fuel
        → (k : ℕ) × (read_time_rv32 fuel i ≡ some (time k, k + 2)) × (i ≤ k)
    unfolding read_time_rv32
    read_time_rv32-current zero i h =
        absurd (let e : i + 3 * 0 ≡ i = omega arith in omega (arith, ap rdtimeh e))
    read_time_rv32-current (suc fuel) i h = elim (Bool-cases (rdtimeh i == rdtimeh (i + 2))) [
      | inl same ↦ (
        i + 1,
        rw (same, halves_fit i ((==_iff _ _).0 same))
            (ap (λ (n : ℕ). some (time (i + 1), n)) (omega arith)),
        omega arith,
      )
      | inr moved ↦
          let next : i + 3 + 3 * fuel ≡ i + 3 * suc fuel = omega arith in
          let (k, e, l) =
            read_time_rv32-current fuel (i + 3)
              (omega (arith, ap rdtimeh next, high_grows i (λ q. cc ((==_iff _ _).1 q)))) in
          (k, rw moved e, omega arith)
    ]
