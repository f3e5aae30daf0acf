-- ===== src/SysvShm/Main.antt =====
-- `main` of C/shm.c as calls of the System V interface, which answer -1 where they fail.
use linux_riscv.Prelude.{
  ◌≡◌, ◌⊎◌, List, [], ◌∷◌, ℤ, pos, negsuc, Bool, true, false, Option, some, arith, if◌then◌else◌,
  ◌==◌,
}
use linux_riscv.Calls.{
  Oracle, M, ask, pure, ◌>>=◌, ◌>>◌, choose, Effect, acquire, release, keep, settle, Trace,
}

-- `semop` with -1 and with 1, and the `sprintf` into the segment, which answers its length.
pub data Call : Type 0 where
  semget semctl shmget shmat semop_lock sprintf semop_unlock shmdt : Call

pub data Resource : Type 0 where
  segment lock : Resource

-- `r == -1`, also as `ptr == (char*)-1`.
abbrev pub is_minus_one : ℤ → Bool
is_minus_one (pos n) = false
is_minus_one (negsuc n) = n == 0

-- The status with which the process ends.
finish : Oracle Call → M Call ℤ
finish os = do ask os shmdt; pure (pos 0)

use_segment : Oracle Call → M Call ℤ
unfolding finish
use_segment os = do
  ask os sprintf
  r ← ask os semop_unlock
  choose (is_minus_one r) (pure (pos 1)) (finish os)

attach : Oracle Call → M Call ℤ
unfolding use_segment
attach os = do
  p ← ask os shmat
  choose (is_minus_one p) (pure (pos 1))
      do r ← ask os semop_lock; choose (is_minus_one r) (pure (pos 1)) (use_segment os)

pub main : Oracle Call → M Call ℤ
unfolding attach
main os = do
  id ← ask os semget
  choose (is_minus_one id) (pure (pos 1)) do
    r ← ask os semctl
    choose (is_minus_one r) (pure (pos 1))
        do shmid ← ask os shmget; choose (is_minus_one shmid) (pure (pos 1)) (attach os)

abbrev same : Resource → Resource → Bool
same segment segment = true
same lock lock = true
same _ _ = false

abbrev unless_failed : ℤ → Effect Resource → Effect Resource
unless_failed r e = if is_minus_one r then keep else e

abbrev effect : Call → ℤ → Effect Resource
effect shmat r = unless_failed r (acquire segment)
effect semop_lock r = unless_failed r (acquire lock)
effect semop_unlock r = unless_failed r (release lock)
effect shmdt r = unless_failed r (release segment)
effect _ r = keep

-- What the process holds after the calls, the latest first; `none`: it gave back what it did not
-- hold.
abbrev pub held : Trace Call → Option (List Resource)
held tr = settle same effect tr

-- That every write to the segment was made while the process held the lock.
abbrev holds_lock : Option (List Resource) → Bool
holds_lock (some (lock ∷ _)) = true
holds_lock _ = false

pub guarded : Trace Call → Bool
guarded [] = true
guarded ((sprintf, r) ∷ tr) = if holds_lock (held tr) then guarded tr else false
guarded ((_, r) ∷ tr) = guarded tr

-- Whatever the calls answer, main of shm.c writes to the segment only while it holds the lock. It
-- ends with status 0, and nothing or only the segment held; or with status 1, and nothing, the
-- segment, or the segment and the lock held.
pub main-held :
    (os : Oracle Call)
    → let r = main os [] in
      (guarded r.1 ≡ true)
      × (((r.0 ≡ pos 0) × ((held r.1 ≡ some []) ⊎ (held r.1 ≡ some (segment ∷ []))))
          ⊎ ((r.0 ≡ pos 1)
              × ((held r.1 ≡ some [])
                  ⊎ (held r.1 ≡ some (segment ∷ []))
                  ⊎ (held r.1 ≡ some (lock ∷ segment ∷ [])))))
unfolding main attach use_segment finish guarded
main-held os = ground arith
