-- ===== src/SysvShm/Recovery.antt =====
-- C/shm.c where processes may die: both calls of `semop` are made with SEM_UNDO, so the kernel takes
-- back what a process has done to the semaphore when the process ends.
use linux_riscv.Prelude.{
  ℕ, ◌+◌, ◌<◌, ◌≡◌, refl, inl, inr, ap, Bool, true, false, arith, update, some, if◌then◌else◌, ◌∙◌,
  Bool-cases,
}
use linux_riscv.Mutex.{Excludes, Excludes-unique, insiders, enters, leaves, stays}
use linux_riscv.SysvShm.{
  ready, locked, wrote, finished, critical, Shared, lock_semaphore, write_text, unlock_semaphore,
}

-- The processes, and of each whether the kernel has to add 1 for it when it ends.
pub record Undoable : Type 0 where
  pub shared : Shared
  pub owed : ℕ → Bool

-- The end of process `i`, wherever it stands.
unfoldable pub die : ℕ → Undoable → Undoable
die i u = record {
  shared = record u.shared {
    value = if u.owed i then u.shared.value + 1 else u.shared.value;
    pc = update u.shared.pc i finished;
  };
  owed = update u.owed i false;
}

pub data Step (u : Undoable) : Undoable → Type 0 where
  lock :
      (i : ℕ)
      → u.shared.pc i ≡ ready
      → 0 < u.shared.value
      → Step u (record { shared = lock_semaphore i u.shared; owed = update u.owed i true })
  write : (i : ℕ) → u.shared.pc i ≡ locked → Step u (record u { shared = write_text i u.shared })
  unlock :
      (i : ℕ)
      → u.shared.pc i ≡ wrote
      → Step u (record { shared = unlock_semaphore i u.shared; owed = update u.owed i false })
  death : (i : ℕ) → Step u (die i u)

-- Histories of processes that have all started before the first lock.
pub data Settled (start : Undoable) : Undoable → Type 0 where
  here : Settled start start
  next : {u w : Undoable} → Settled start u → Step u w → Settled start w

record Inv (u : Undoable) : Type 0 where
  exclusive : Excludes u.shared.value (insiders critical u.shared.pc)
  owes : (i : ℕ) → u.owed i ≡ critical (u.shared.pc i)
  own : (i : ℕ) → u.shared.pc i ≡ wrote → u.shared.text ≡ some i

die-exclusive :
    (u : Undoable) (i : ℕ)
    → u.owed i ≡ critical (u.shared.pc i)
    → Excludes u.shared.value (insiders critical u.shared.pc)
    → Excludes (die i u).shared.value (insiders critical (die i u).shared.pc)
unfolding die
die-exclusive u i e x = elim (Bool-cases (critical (u.shared.pc i))) [
  | inl inside ↦ rw (e ∙ inside) (leaves critical u.shared.pc i finished inside refl x)
  | inr outside ↦ rw (e ∙ outside) (stays critical u.shared.pc i finished outside x)
]

Step-Inv : {u w : Undoable} → Step u w → Inv u → Inv w
unfolding lock_semaphore write_text unlock_semaphore die
Step-Inv {u} (lock i e h) v = record {
  exclusive = enters critical u.shared.pc i locked refl h v.exclusive;
  owes = λ j. ground (arith, v.owes j);
  own = λ j q. ground (arith, v.own j);
}
Step-Inv {u} (write i e) v = record {
  exclusive = stays critical u.shared.pc i wrote (ap critical e) v.exclusive;
  owes = λ j. ground (arith, v.owes j);
  own = λ j q. ground (arith, v.own j, Excludes-unique v.exclusive i j);
}
Step-Inv {u} (unlock i e) v = record {
  exclusive = leaves critical u.shared.pc i finished (ap critical e) refl v.exclusive;
  owes = λ j. ground (arith, v.owes j);
  own = λ j q. ground (arith, v.own j);
}
Step-Inv {u} (death i) v = record {
  exclusive = die-exclusive u i (v.owes i) v.exclusive;
  owes = λ j. ground (arith, v.owes j);
  own = λ j q. ground (arith, v.own j);
}

Settled-Inv : {start u : Undoable} → Inv start → Settled start u → Inv u
Settled-Inv v here = v
Settled-Inv v (next r st) = Step-Inv st (Settled-Inv v r)

-- A free semaphore is positive, so that a process in front of its lock is not kept out.
free_value :
    {value : ℕ} {inside : ℕ → Bool}
    → Excludes value inside
    → ((i : ℕ) → inside i ≡ false)
    → value ≡ 1
free_value (inl free) h = free.0
free_value (inr (z, (k, e, only))) h = cc (h k)

taken_value :
    {value : ℕ} {inside : ℕ → Bool} → Excludes value inside → (i : ℕ) → inside i ≡ true → value ≡ 0
taken_value (inl free) i h = cc (free.1 i)
taken_value (inr (z, some_one)) i h = z

die-value :
    (u : Undoable) (i : ℕ) → u.owed i ≡ true → u.shared.value ≡ 0 → (die i u).shared.value ≡ 1
unfolding die
die-value u i e z = rw (e, z)

-- From a state with the value 1, no process inside and nothing to take back, where no process
-- starts any more and any process may die at any point: at most one process is between lock and
-- unlock, the text is that of a process that has written and not unlocked, the value is 1 while
-- nobody is inside, and it is 1 after the death of the process inside.
pub Settled-recovers :
    {start u : Undoable}
    → start.shared.value ≡ 1
    → ((i : ℕ) → critical (start.shared.pc i) ≡ false)
    → ((i : ℕ) → start.owed i ≡ false)
    → Settled start u
    → ((i j : ℕ) → critical (u.shared.pc i) ≡ true → critical (u.shared.pc j) ≡ true → i ≡ j)
      × ((i : ℕ) → u.shared.pc i ≡ wrote → u.shared.text ≡ some i)
      × (((i : ℕ) → critical (u.shared.pc i) ≡ false) → u.shared.value ≡ 1)
      × ((i : ℕ) → critical (u.shared.pc i) ≡ true → (die i u).shared.value ≡ 1)
Settled-recovers {start} {u} one quiet nothing r =
    let v : Inv u =
      Settled-Inv
        (record {
          exclusive = inl (one, quiet);
          owes = λ i. cc (quiet i, nothing i);
          own = λ i e. cc (quiet i, ap critical e);
        })
        r in
    (
      Excludes-unique v.exclusive,
      v.own,
      free_value v.exclusive,
      λ i e. die-value u i (v.owes i ∙ e) (taken_value v.exclusive i e),
    )
