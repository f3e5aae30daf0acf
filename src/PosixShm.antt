-- ===== src/PosixShm.antt =====
-- C/posix_shm.h, C/posix_shm_init.c, C/posix_shm_worker.c: workers that take turns at a shared
-- buffer under a POSIX semaphore. The increment of `mb->count` is a load and a store of their own.
-- Any number of workers runs; a schedule is any sequence of steps.
pub mod Progress
pub mod Setup
pub mod Sequential
mod Tests
use linux_riscv.Prelude.{
  ℕ, ◌+◌, ◌-◌, ◌≡◌, refl, inl, ap, Bool, true, false, arith, update, ◌<◌, Option, none, some,
}
use linux_riscv.Mutex.{Excludes, Excludes-unique, insiders, enters, leaves, stays}

-- Where a worker stands: before `sem_wait`, before `snprintf`, before the load of the count, between
-- load and store, before `sem_post`, at the end.
pub data Pc : Type 0 where
  waiting entered written : Pc
  loaded : ℕ → Pc
  stored done : Pc

abbrev pub critical : Pc → Bool
critical waiting = false
critical done = false
critical _ = true

-- The semaphore and the shared page; `text` is the worker and the count that the buffer names, or
-- none while it is empty.
pub record Shared : Type 0 where
  pub value : ℕ
  pub count : ℕ
  pub text : Option (ℕ × ℕ)
  pub pc : ℕ → Pc

-- What posix_shm_init.c leaves, before any worker has begun.
pub initialized : Shared
initialized = record { value = 1; count = 0; text = none; pc = λ i. waiting }

pub data Step : Shared → Shared → Type 0 where
  wait :
      {s : Shared} (i : ℕ)
      → s.pc i ≡ waiting
      → 0 < s.value
      → Step s (record s { value = s.value - 1; pc = update s.pc i entered })
  print :
      {s : Shared} (i : ℕ)
      → s.pc i ≡ entered
      → Step s (record s { text = some (i, s.count); pc = update s.pc i written })
  load :
      {s : Shared} (i : ℕ)
      → s.pc i ≡ written
      → Step s (record s { pc = update s.pc i (loaded s.count) })
  store :
      {s : Shared} (i c : ℕ)
      → s.pc i ≡ loaded c
      → Step s (record s { count = c + 1; pc = update s.pc i stored })
  post :
      {s : Shared} (i : ℕ)
      → s.pc i ≡ stored
      → Step s (record s { value = s.value + 1; pc = update s.pc i done })

-- The increments that a step makes.
abbrev increments : {s t : Shared} → Step s t → ℕ
increments (store i c e) = 1
increments (wait i e h) = 0
increments (print i e) = 0
increments (load i e) = 0
increments (post i e) = 0

-- Histories from the initialised page, with the number of workers that have stored their increment.
pub data Reach : ℕ → Shared → Type 0 where
  here : Reach 0 initialized
  next : {n m : ℕ} {s t : Shared} → Reach n s → (st : Step s t) → m ≡ n + increments st → Reach m t

pub record Inv (n : ℕ) (s : Shared) : Type 0 where
  pub exclusive : Excludes s.value (insiders critical s.pc)
  pub counted : s.count ≡ n
  pub fresh : (i c : ℕ) → s.pc i ≡ loaded c → c ≡ n
  pub own : (i : ℕ) → (s.pc i ≡ written) → s.text ≡ some (i, n)

initialized-Inv : Inv 0 initialized
unfolding initialized
initialized-Inv = record {
  exclusive = inl (refl, λ i. refl);
  counted = refl;
  fresh = λ i c e. cc;
  own = λ i e. cc;
}

module _ {n : ℕ} {s : Shared} (v : Inv n s) where
  -- A worker inside is the only one.
  alone : (i j : ℕ) → critical (s.pc i) ≡ true → critical (s.pc j) ≡ true → i ≡ j
  alone = Excludes-unique v.exclusive

  Step-Inv : {t : Shared} (st : Step s t) → Inv (n + increments st) t
  Step-Inv (wait i e h) = record {
    exclusive = enters critical s.pc i entered refl h v.exclusive;
    counted = omega (arith, v.counted);
    fresh = λ j c q. ground (arith, v.fresh j c);
    own = λ j q. ground (arith, v.own j);
  }
  Step-Inv (print i e) = record {
    exclusive = stays critical s.pc i written (ap critical e) v.exclusive;
    counted = omega (arith, v.counted);
    fresh = λ j c q. ground (arith, v.fresh j c);
    own = λ j q. ground (arith, v.own j, v.counted, alone i j);
  }
  Step-Inv (load i e) = record {
    exclusive = stays critical s.pc i (loaded s.count) (ap critical e) v.exclusive;
    counted = omega (arith, v.counted);
    fresh = λ j c q. ground (arith, v.fresh j c, v.counted);
    own = λ j q. ground (arith, v.own j);
  }
  Step-Inv (store i c e) = record {
    exclusive = stays critical s.pc i stored (ap critical e) v.exclusive;
    counted = omega (arith, v.fresh i c e);
    fresh = λ j d q. ground (arith, v.fresh j d, alone i j);
    own = λ j q. ground (arith, v.own j, alone i j);
  }
  Step-Inv (post i e) = record {
    exclusive = leaves critical s.pc i done (ap critical e) refl v.exclusive;
    counted = omega (arith, v.counted);
    fresh = λ j c q. ground (arith, v.fresh j c);
    own = λ j q. ground (arith, v.own j);
  }

pub Reach-Inv : {n : ℕ} {s : Shared} → Reach n s → Inv n s
Reach-Inv here = initialized-Inv
Reach-Inv (next r st e) = rw e (Step-Inv (Reach-Inv r) st)

-- In every history of the workers at most one is between its wait and its post, and the shared
-- count is the number of increments that have been stored.
pub Reach-counted :
    {n : ℕ} {s : Shared}
    → Reach n s
    → (s.count ≡ n) × ((i j : ℕ) → critical (s.pc i) ≡ true → critical (s.pc j) ≡ true → i ≡ j)
Reach-counted r = let v = Reach-Inv r in (v.counted, Excludes-unique v.exclusive)
