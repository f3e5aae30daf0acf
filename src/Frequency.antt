-- ===== src/Frequency.antt =====
-- `read_freerun_freq` of C/read_counter.h in its RISC-V branch: the cached frequency, the bytes of
-- the device tree, and the calibration against CLOCK_MONOTONIC.
pub mod X86
mod Tests
use linux_riscv.Prelude.{
  ℕ, zero, suc, ◌+◌, ◌-◌, ◌*◌, ◌/◌, ◌%◌, ◌^◌, ◌≤◌, ◌<◌, ◌≡◌, ◌≢◌, ◌∙◌, inl, inr, Option, some, none,
  pos, arith, ◌==◌, if◌then◌else◌, Bool-cases, leb, leb→le, List, [], ◌∷◌, bit_or, bit_or_shifted,
}
use linux_riscv.Prelude.Int.{leb_ℤ, pos_part}
use linux_riscv.Clock.{Timespec, nanoseconds, elapsed_ns, elapsed_ns_lem, ClockLaws, since_start}

-- `(b0 << 24) | (b1 << 16) | (b2 << 8) | b3`, on 64 bits.
pub be32 : ℕ → ℕ → ℕ → ℕ → ℕ
be32 b0 b1 b2 b3 = bit_or (bit_or (bit_or (b0 * 2 ^ 24) (b1 * 2 ^ 16)) (b2 * 2 ^ 8)) b3

-- Four bytes of the device tree are read as one big-endian number.
pub be32_lem :
    (b0 b1 b2 b3 : ℕ)
    → b1 < 256
    → b2 < 256
    → b3 < 256
    → be32 b0 b1 b2 b3 ≡ ((b0 * 256 + b1) * 256 + b2) * 256 + b3
unfolding be32
be32_lem b0 b1 b2 b3 h₁ h₂ h₃ =
    let first : bit_or (b0 * 2 ^ 24) (b1 * 2 ^ 16) ≡ (b0 * 256 + b1) * 2 ^ 16 =
      bit_or_shifted 24 b0 (b1 * 2 ^ 16) (omega arith) ∙ omega arith in
    let second : bit_or ((b0 * 256 + b1) * 2 ^ 16) (b2 * 2 ^ 8)
        ≡ ((b0 * 256 + b1) * 256 + b2) * 2 ^ 8 =
      bit_or_shifted 16 (b0 * 256 + b1) (b2 * 2 ^ 8) (omega arith) ∙ omega arith in
    rw (first, second)
      (bit_or_shifted 8 ((b0 * 256 + b1) * 256 + b2) b3 (omega arith) ∙ omega arith)

-- What `fopen` and `fread` bring: no file, or the bytes that were read.
pub from_device_tree : Option (List ℕ) → ℕ
from_device_tree (some (b0 ∷ b1 ∷ b2 ∷ b3 ∷ [])) = be32 b0 b1 b2 b3
from_device_tree _ = 0

module _ (clock : ℕ → Timespec) where
  -- The reading at which ten milliseconds have passed since reading 0; `none`: the fuel ran out.
  pub calibration_loop : ℕ → ℕ → Option ℕ
  calibration_loop zero i = none
  calibration_loop (suc fuel) i =
      let again = calibration_loop fuel (i + 1) in
      if leb_ℤ (pos 10000000) (elapsed_ns (clock 0) (clock i)) then some i else again

  -- `c1 - c0` and the product wrap at 64 bits; `counter` is the free-running counter at a reading.
  rate : (counter : ℕ → ℕ) → Option ℕ → Option ℕ
  rate counter none = none
  rate counter (some i) = some (
      (counter i + 2 ^ 64 - counter 0)
      % 2 ^ 64
      * 1000000000
      % 2 ^ 64
      / pos_part (elapsed_ns (clock 0) (clock i)))

  pub calibrate : (counter : ℕ → ℕ) → ℕ → Option ℕ
  unfolding rate
  calibrate counter fuel = rate counter (calibration_loop fuel 1)

  -- The cache before the call, what the device tree brings, and the counter; the result and the
  -- cache after the call.
  pub read_freerun_freq : ℕ → Option (List ℕ) → (counter : ℕ → ℕ) → ℕ → Option (ℕ × ℕ)
  read_freerun_freq cached_freq file counter fuel =
      if cached_freq == 0
      then if from_device_tree file == 0
        then elim (calibrate counter fuel) [ none ↦ none | some f ↦ some (f, f) ]
        else some (from_device_tree file, from_device_tree file)
      else some (cached_freq, cached_freq)

  -- The nanoseconds from reading 0 to reading `i`.
  abbrev pub passed : ℕ → ℕ
  passed i = nanoseconds (clock i) - nanoseconds (clock 0)

  module _ (laws : ClockLaws clock) where
    elapsed_lem : (i : ℕ) → elapsed_ns (clock 0) (clock i) ≡ pos (passed i)
    elapsed_lem i = elapsed_ns_lem (clock 0) (clock i) (since_start clock laws i)

    calibration_loop_ends :
        (fuel i : ℕ)
        → 10000000 ≤ passed (i + fuel)
        → (j : ℕ) × (calibration_loop (suc fuel) i ≡ some j)
          × (10000000 ≤ passed j)
          × (j ≤ i + fuel)
    unfolding calibration_loop
    calibration_loop_ends zero i h =
        let same : i + 0 ≡ i = omega arith in
        (i, rw (elapsed_lem i) (ground (arith, rw same at h)), rw same at h, omega arith)
    calibration_loop_ends (suc fuel) i h = elim (Bool-cases (leb 10000000 (passed i))) [
      | inl done ↦ (i, rw (elapsed_lem i) (ground arith), leb→le _ _ done, omega arith)
      | inr more ↦
          let same : i + suc fuel ≡ i + 1 + fuel = omega arith in
          let (j, e, l, b) = calibration_loop_ends fuel (i + 1) (rw same at h) in
          (j, rw (elapsed_lem i) (ground (arith, e)), l, omega arith)
    ]

    -- Where the clock passes ten milliseconds within the fuel and the counter grows without
    -- wrapping the product, the calibration returns the rate of the counter over the measured time,
    -- rounded down.
    pub calibrate-rate :
        (counter : ℕ → ℕ) (fuel : ℕ)
        → 10000000 ≤ passed (1 + fuel)
        → ((i : ℕ) → i ≤ 1 + fuel → counter 0 ≤ counter i)
        → ((i : ℕ) → i ≤ 1 + fuel → (counter i - counter 0) * 1000000000 < 2 ^ 64)
        → ((i : ℕ) → i ≤ 1 + fuel → counter i < 2 ^ 64)
        → (f i : ℕ) × (calibrate counter (suc fuel) ≡ some f)
          × (f * passed i ≤ (counter i - counter 0) * 1000000000)
          × ((counter i - counter 0) * 1000000000 < (f + 1) * passed i)
          × (10000000 ≤ passed i)
    unfolding calibrate
    calibrate-rate counter fuel h grows small fits =
        let (i, e, l, b) = calibration_loop_ends fuel 1 h in
        let gain : (counter i + 2 ^ 64 - counter 0) % 2 ^ 64 * 1000000000 % 2 ^ 64
            ≡ (counter i - counter 0) * 1000000000 =
          omega (arith, grows i b, small i b, fits i b) in
        (
          (counter i - counter 0) * 1000000000 / passed i,
          i,
          rw (e, elapsed_lem i, gain),
          grind (arith, l),
          grind (arith, l),
          l,
        )

-- Once a call of read_freerun_freq has found a frequency other than 0, every later call answers the
-- same and keeps it, whatever the device tree and the clocks say by then.
pub read_freerun_freq-cached :
    (clock later : ℕ → Timespec) (counter counter' : ℕ → ℕ) (file file' : Option (List ℕ))
    (fuel fuel' cached f cached' : ℕ)
    → read_freerun_freq clock cached file counter fuel ≡ some (f, cached')
    → f ≢ 0
    → read_freerun_freq later cached' file' counter' fuel' ≡ some (f, f)
unfolding read_freerun_freq
read_freerun_freq-cached clock later counter counter' file file' fuel fuel' cached f cached' e h =
    ground arith
