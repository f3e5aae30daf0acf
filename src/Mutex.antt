-- ===== src/Mutex.antt =====
-- A semaphore that starts at 1 and the processes that take and give it back, for any number of
-- processes: the invariant by which at most one of them is inside. `inside` says of each process
-- whether it is between its wait and its post.
use mathlib.Core.Path.{fun_ext, subst}
use linux_riscv.Prelude.{
  ℕ, ◌+◌, ◌-◌, ◌≡◌, ◌⊎◌, refl, inl, inr, Bool, true, false, arith, update, ◌<◌,
}

-- The semaphore is free and nobody is inside, or it is taken and one process is.
abbrev pub Excludes : ℕ → (ℕ → Bool) → Type 0
Excludes value inside =
    ((value ≡ 1) × ((i : ℕ) → inside i ≡ false))
    ⊎ ((value ≡ 0) × ((i : ℕ) × (inside i ≡ true) × ((j : ℕ) → inside j ≡ true → j ≡ i)))

-- At most one process is inside.
pub Excludes-unique :
    {value : ℕ} {inside : ℕ → Bool}
    → Excludes value inside
    → (i j : ℕ) → inside i ≡ true
    → inside j ≡ true
    → i ≡ j
Excludes-unique (inl free) i j hi hj = cc (free.1 i)
Excludes-unique (inr (z, (k, e, only))) i j hi hj = cc (only i hi, only j hj)

-- A wait that finds the semaphore positive lets its process in.
pub Excludes-wait :
    {value : ℕ} {inside : ℕ → Bool} (i : ℕ)
    → 0 < value
    → Excludes value inside
    → Excludes (value - 1) (update inside i true)
Excludes-wait {value} {inside} i h (inl free) =
    inr (omega (arith, free.0), (i, ground arith, λ j e. ground (arith, free.1 j)))
Excludes-wait i h (inr taken) = absurd (omega (arith, taken.0))

-- The post of the process inside lets it out.
pub Excludes-post :
    {value : ℕ} {inside : ℕ → Bool} (i : ℕ)
    → inside i ≡ true
    → Excludes value inside
    → Excludes (value + 1) (update inside i false)
Excludes-post i e (inl free) = cc (free.1 i)
Excludes-post {value} {inside} i e (inr (z, (k, here, only))) =
    inl (omega (arith, z), λ j. ground (arith, only j, only i e))

-- A step of a process that neither enters nor leaves.
pub Excludes-stay :
    {value : ℕ} {inside : ℕ → Bool} (i : ℕ) (b : Bool)
    → inside i ≡ b
    → Excludes value inside
    → Excludes value (update inside i b)
Excludes-stay {value} {inside} i b e (inl free) =
    inl (free.0, λ j. ground (arith, free.1 j, free.1 i))
Excludes-stay {value} {inside} i b e (inr (z, (k, here, only))) =
    inr (z, (k, ground arith, λ j q. ground (arith, only j)))

-- The same for the processes' positions `pc`, of which `critical` says whether they are inside, when
-- process `i` goes to `p`.
module _ {ℓ} {P : Type ℓ} (critical : P → Bool) where
  abbrev pub insiders : (ℕ → P) → ℕ → Bool
  insiders pc j = critical (pc j)

  insiders-update :
      (pc : ℕ → P) (i : ℕ) (p : P) (b : Bool)
      → critical p ≡ b
      → update (insiders pc) i b ≡ insiders (update pc i p)
  insiders-update pc i p b e = fun_ext λ j. ground arith

  pub enters :
      {value : ℕ} (pc : ℕ → P) (i : ℕ) (p : P)
      → critical p ≡ true
      → 0 < value
      → Excludes value (insiders pc)
      → Excludes (value - 1) (insiders (update pc i p))
  enters {value} pc i p c h x =
      subst (Excludes (value - 1)) (insiders-update pc i p true c) (Excludes-wait i h x)

  pub leaves :
      {value : ℕ} (pc : ℕ → P) (i : ℕ) (p : P)
      → critical (pc i) ≡ true
      → critical p ≡ false
      → Excludes value (insiders pc)
      → Excludes (value + 1) (insiders (update pc i p))
  leaves {value} pc i p e c x =
      subst (Excludes (value + 1)) (insiders-update pc i p false c) (Excludes-post i e x)

  pub stays :
      {value : ℕ} (pc : ℕ → P) (i : ℕ) (p : P)
      → critical (pc i) ≡ critical p
      → Excludes value (insiders pc)
      → Excludes value (insiders (update pc i p))
  stays {value} pc i p e x =
      subst (Excludes value) (insiders-update pc i p (critical p) refl)
        (Excludes-stay i (critical p) e x)
