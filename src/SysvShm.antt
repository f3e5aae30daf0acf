-- ===== src/SysvShm.antt =====
-- C/shm.c: processes that write to a shared segment under a System V semaphore. Each process runs
-- `create_semaphore`, which sets the value to 1 whether or not the semaphore was there before.
mod Tests
pub mod Recovery
pub mod Main
use linux_riscv.Prelude.{
  ℕ, ◌+◌, ◌-◌, ◌≡◌, ◌≢◌, refl, inl, ap, Bool, true, false, arith, update, ◌<◌, Option, none, some,
}
use linux_riscv.Mutex.{Excludes, Excludes-unique, insiders, enters, leaves, stays}

-- Before `create_semaphore`, before `lock_semaphore`, before the write, before `unlock_semaphore`,
-- at the end.
pub data Pc : Type 0 where
  starting ready locked wrote finished : Pc

abbrev pub critical : Pc → Bool
critical locked = true
critical wrote = true
critical _ = false

-- The semaphore's value, the process that the text in the segment names, and the processes.
pub record Shared : Type 0 where
  pub value : ℕ
  pub text : Option ℕ
  pub pc : ℕ → Pc

pub nothing_yet : Shared
nothing_yet = record { value = 0; text = none; pc = λ i. starting }

pub create_semaphore : ℕ → Shared → Shared
create_semaphore i s = record s { value = 1; pc = update s.pc i ready }

pub lock_semaphore : ℕ → Shared → Shared
lock_semaphore i s = record s { value = s.value - 1; pc = update s.pc i locked }

pub write_text : ℕ → Shared → Shared
write_text i s = record s { text = some i; pc = update s.pc i wrote }

pub unlock_semaphore : ℕ → Shared → Shared
unlock_semaphore i s = record s { value = s.value + 1; pc = update s.pc i finished }

-- A step of a process that has run `create_semaphore`; the lock waits for a positive value.
pub data Step (s : Shared) : Shared → Type 0 where
  lock : (i : ℕ) → s.pc i ≡ ready → 0 < s.value → Step s (lock_semaphore i s)
  write : (i : ℕ) → s.pc i ≡ locked → Step s (write_text i s)
  unlock : (i : ℕ) → s.pc i ≡ wrote → Step s (unlock_semaphore i s)

-- All histories, in which processes start at any time.
pub data Reach : Shared → Type 0 where
  here : Reach nothing_yet
  start : {s : Shared} → Reach s → (i : ℕ) → s.pc i ≡ starting → Reach (create_semaphore i s)
  next : {s t : Shared} → Reach s → Step s t → Reach t

-- For any two processes there is a history, in which the second starts while the first holds the
-- lock, after which both are between lock and unlock.
pub start_breaks_exclusion :
    (i j : ℕ)
    → i ≢ j
    → (s : Shared) × Reach s × (critical (s.pc i) ≡ true) × (critical (s.pc j) ≡ true)
unfolding create_semaphore lock_semaphore nothing_yet
start_breaks_exclusion i j h =
    let s₁ = create_semaphore i nothing_yet in
    let s₂ = lock_semaphore i s₁ in
    let s₃ = create_semaphore j s₂ in
    let r₂ : Reach s₂ = next (start here i refl) (lock i (ground arith) (omega arith)) in
    (
      lock_semaphore j s₃,
      next (start r₂ j (ground arith)) (lock j (ground arith) (omega arith)),
      ground arith,
      ground arith,
    )

-- Histories of processes that have all started before the first lock.
pub data Settled (s₀ : Shared) : Shared → Type 0 where
  here : Settled s₀ s₀
  next : {s t : Shared} → Settled s₀ s → Step s t → Settled s₀ t

pub record Inv (s : Shared) : Type 0 where
  pub exclusive : Excludes s.value (insiders critical s.pc)
  pub own : (i : ℕ) → s.pc i ≡ wrote → s.text ≡ some i

Step-Inv : {s t : Shared} → Step s t → Inv s → Inv t
unfolding lock_semaphore write_text unlock_semaphore
Step-Inv {s} (lock i e h) v = record {
  exclusive = enters critical s.pc i locked refl h v.exclusive;
  own = λ j q. ground (arith, v.own j);
}
Step-Inv {s} (write i e) v = record {
  exclusive = stays critical s.pc i wrote (ap critical e) v.exclusive;
  own = λ j q. ground (arith, v.own j, Excludes-unique v.exclusive i j);
}
Step-Inv {s} (unlock i e) v = record {
  exclusive = leaves critical s.pc i finished (ap critical e) refl v.exclusive;
  own = λ j q. ground (arith, v.own j);
}

Settled-Inv : {s₀ s : Shared} → Inv s₀ → Settled s₀ s → Inv s
Settled-Inv v here = v
Settled-Inv v (next r st) = Step-Inv st (Settled-Inv v r)

-- From a state with the value 1 and no process inside, where no process starts any more, at most
-- one process is between lock and unlock, and the text in the segment is that of a process that has
-- written and not unlocked.
pub Settled-exclusive :
    {s₀ s : Shared}
    → s₀.value ≡ 1
    → ((i : ℕ) → critical (s₀.pc i) ≡ false)
    → Settled s₀ s
    → ((i j : ℕ) → critical (s.pc i) ≡ true → critical (s.pc j) ≡ true → i ≡ j)
      × ((i : ℕ) → s.pc i ≡ wrote → s.text ≡ some i)
Settled-exclusive {s₀} one quiet r =
    let v =
      Settled-Inv
        (record { exclusive = inl (one, quiet); own = λ i e. cc (quiet i, ap critical e) }) r in
    (Excludes-unique v.exclusive, v.own)
