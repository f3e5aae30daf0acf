-- ===== src/PosixShm/Setup.antt =====
-- C/posix_shm_init.c, C/posix_shm_worker.c and C/posix_shm_cleanup.c as programs that run one after
-- the other: what they leave under the two names. Whether the kernel grants a call is a parameter.
use linux_riscv.Prelude.{
  ℕ, zero, suc, ◌+◌, ◌≡◌, refl, sym, ap, ◌∙◌, List, [], ◌∷◌, ℤ, pos, Bool, true, false, Option,
  none, some, arith, length, if◌then◌else◌,
}
use linux_riscv.Calls.{is_null}

pub data Call : Type 0 where
  shm_open ftruncate mmap sem_open : Call

-- `struct mybuf`; `text` is the worker and the count that the buffer names, or none while it is
-- empty.
pub record Mybuf : Type 0 where
  pub count : ℕ
  pub text : Option (ℕ × ℕ)

pub empty : Mybuf
empty = record { count = 0; text = none }

-- The segment under SHM_NAME: not there, there without any bytes, or as large as `struct mybuf`.
pub data Segment : Type 0 where
  absent unsized : Segment
  page : Mybuf → Segment

-- What stands under SHM_NAME, and the value of the semaphore under SEM_NAME.
pub record Names : Type 0 where
  pub segment : Segment
  pub semaphore : Option ℕ

pub no_names : Names
no_names = record { segment = absent; semaphore = none }

-- `shm_open` with `O_CREAT` but without `O_EXCL`: what is there is kept; a segment that is too small
-- is filled up with zeros by `ftruncate`.
created : Segment → Segment
created absent = unsized
created unsized = unsized
created (page b) = page b

grown : Segment → Segment
unfolding empty
grown absent = page empty
grown unsized = page empty
grown (page b) = page b

abbrev create_semaphore : Names → Names
create_semaphore m = record m { semaphore = elim m.semaphore [ none ↦ some 1 | some v ↦ some v ] }

-- `main` of posix_shm_init.c: the status and the names.
pub init : (granted : Call → Bool) → Names → ℤ × Names
unfolding created grown
init granted m =
    let cleared = record m { segment = page empty } in
    if granted shm_open
    then if granted ftruncate
      then if granted mmap
        then if granted sem_open then (pos 0, create_semaphore cleared) else (pos 1, cleared)
        else (pos 1, record m { segment = grown m.segment })
      else (pos 1, record m { segment = created m.segment })
    else (pos 1, m)

-- The critical section of worker `i`.
pub update_page : ℕ → Mybuf → Mybuf
update_page i b = record { count = b.count + 1; text = some (i, b.count) }

abbrev is_absent : Segment → Bool
is_absent absent = true
is_absent _ = false

-- How a worker ends: with a status; not before a post; or killed, where the segment has no bytes.
pub data Run : Type 0 where
  ended : ℤ → Names → Run
  blocked : Run
  killed : Names → Run

-- From `sem_wait` to `sem_post` on a semaphore of value `v`.
pub critical_section : ℕ → ℕ → Segment → Run
critical_section i zero seg = blocked
critical_section i (suc v) (page b) =
    ended (pos 0) (record { segment = page (update_page i b); semaphore = some (suc v) })
critical_section i (suc v) absent = killed (record { segment = absent; semaphore = some v })
critical_section i (suc v) unsized = killed (record { segment = unsized; semaphore = some v })

-- `main` of posix_shm_worker.c.
attached : (granted : Call → Bool) → ℕ → ℕ → Names → Run
unfolding critical_section
attached granted i v m =
    if is_absent m.segment
    then ended (pos 1) m
    else if granted shm_open
    then if granted mmap then critical_section i v m.segment else ended (pos 1) m
    else ended (pos 1) m

pub worker : (granted : Call → Bool) → ℕ → Names → Run
unfolding attached
worker granted i m = elim m.semaphore [
  | none ↦ ended (pos 1) m
  | some v ↦ if granted sem_open then attached granted i v m else ended (pos 1) m
]

-- `main` of posix_shm_cleanup.c.
pub cleanup : Names → Names
cleanup m = no_names

-- Workers one after the other, as long as each ends with status 0.
next_worker : Run → (Names → Option Names) → Option Names
next_worker (ended status m) more = if is_null status then more m else none
next_worker blocked more = none
next_worker (killed m) more = none

pub workers : (granted : Call → Bool) → List ℕ → Names → Option Names
unfolding next_worker
workers granted [] m = some m
workers granted (i ∷ is) m = next_worker (worker granted i m) (λ m. workers granted is m)

-- The text that is left by workers one after the other, the first of which finds the count `n`.
abbrev pub text_after : ℕ → Option (ℕ × ℕ) → List ℕ → Option (ℕ × ℕ)
text_after n t [] = t
text_after n t (i ∷ is) = text_after (n + 1) (some (i, n)) is

abbrev pub after_workers : ℕ → Mybuf → List ℕ → Names
after_workers v b is = record {
  segment = page (record { count = b.count + length is; text = text_after b.count b.text is });
  semaphore = some (suc v);
}

module _ (granted : Call → Bool) (all : (c : Call) → granted c ≡ true) where
  worker_lem :
      (i v : ℕ) (b : Mybuf)
      → worker granted i (record { segment = page b; semaphore = some v })
        ≡ critical_section i v (page b)
  unfolding worker attached
  worker_lem i v b = rw (all sem_open, all shm_open, all mmap) refl

  pub workers_lem :
      (is : List ℕ) (v : ℕ) (b : Mybuf)
      → workers granted is (record { segment = page b; semaphore = some (suc v) })
        ≡ some (after_workers v b is)
  unfolding workers critical_section update_page
  workers_lem [] v b =
      let same : b.count + 0 ≡ b.count = omega arith in
      ap
        (λ (c : ℕ). some (record {
          segment = page (record { count = c; text = b.text });
          semaphore = some (suc v);
        }))
        (sym same)
  workers_lem (i ∷ is) v b =
      let count : b.count + 1 + length is ≡ b.count + suc (length is) = omega arith in
      rw (worker_lem i (suc v) b) (
        workers_lem is v (update_page i b)
        ∙ ap
            (λ (c : ℕ). some (record {
              segment =
                  page
                    (record { count = c; text = text_after (b.count + 1) (some (i, b.count)) is });
              semaphore = some (suc v);
            }))
            count)

  init_lem :
      (m : Names)
      → init granted m ≡ (
        pos 0,
        record {
          segment = page empty;
          semaphore = elim m.semaphore [ none ↦ some 1 | some v ↦ some v ];
        },
      )
  unfolding init
  init_lem m = rw (all shm_open, all ftruncate, all mmap, all sem_open) refl

  -- Where the kernel grants every call, posix_shm_init ends with status 0. Then, if the semaphore
  -- had been left with the value 0, every worker waits; if it was not there, or was left with
  -- another value, any workers, one after the other, all end with status 0, the count is their
  -- number, the text is that of the last, and the semaphore has the value 1, or the one it was left
  -- with.
  pub init-workers :
      (m : Names)
      → ((init granted m).0 ≡ pos 0)
        × (m.semaphore ≡ some 0 → (i : ℕ) → worker granted i (init granted m).1 ≡ blocked)
        × (m.semaphore ≡ none
            → (is : List ℕ)
            → workers granted is (init granted m).1 ≡ some (after_workers 0 empty is))
        × ((v : ℕ)
            → m.semaphore ≡ some (suc v)
            → (is : List ℕ)
            → workers granted is (init granted m).1 ≡ some (after_workers v empty is))
  unfolding critical_section
  init-workers m = (
    rw (init_lem m) refl,
    λ taken i. rw (init_lem m, taken) (worker_lem i 0 empty),
    λ new is. rw (init_lem m, new) (workers_lem is 0 empty),
    λ v left is. rw (init_lem m, left) (workers_lem is v empty),
  )
