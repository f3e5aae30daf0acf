-- ===== src/Payment.antt =====
-- C/payment.c: the semaphore is opened with retries, as in C/health.c; one connection is accepted, and
-- each message on it is worked on in twenty waits of 100 ms, until a read fails or brings nothing.
use linux_riscv.Prelude.{
  ℕ, zero, suc, ◌+◌, ◌≤◌, ◌<◌, ◌≡◌, ◌⊎◌, refl, inl, inr, List, [], ◌∷◌, ◌++◌, ◌==◌, ℤ, pos, negsuc,
  is_neg, Bool, true, false, Option, some, none, arith, if◌then◌else◌, length, ap, ◌∙◌, Bool-cases,
}
use linux_riscv.Calls.{
  Trace, Oracle, M, ask, is_null, Effect, acquire, release, keep, if_granted, settle,
}
use linux_riscv.Buffer.{Received, failed, bytes, read_text, text, text-read_text}
pub mod Orders
mod Tests

pub data Call : Type 0 where
  pi_sem_open usleep socket accept : Call
  close : ℤ → Call

abbrev pub same_fd : ℤ → ℤ → Bool
same_fd (pos n) (pos m) = n == m
same_fd _ _ = false

abbrev pub effect : Call → ℤ → Effect ℤ
effect pi_sem_open r = keep
effect usleep r = keep
effect socket r = if_granted r r
effect accept r = if_granted r r
effect (close fd) r = if is_neg fd then keep else release fd

-- What is done for a message: its text is printed, the waits, and the end.
pub data Job : Type 0 where
  processing : List ℕ → Job
  wait : ℕ → Job
  finished : Job

pub waits : ℕ → ℕ → List Job
waits i zero = []
waits i (suc n) = wait i ∷ waits (i + 1) n

pub work : List ℕ → List Job
unfolding waits
work message = processing message ∷ (waits 0 20 ++ finished ∷ [])

-- The loop over the answers of `read`; `none` is a store outside of `buf`.
and_then : List ℕ → Option (List Job) → Option (List Job)
and_then message none = none
and_then message (some jobs) = some (work message ++ jobs)

served : Option (List ℕ) → (List ℕ → Option (List Job)) → Option (List Job)
unfolding and_then
served none loop = none
served (some b) loop = and_then (text b) (loop b)

pub service : List ℕ → List Received → Option (List Job)
unfolding served
service buf [] = some []
service buf (failed ∷ more) = some []
service buf (bytes [] ∷ more) = some []
service buf (bytes (c ∷ cs) ∷ more) = served (read_text buf (bytes (c ∷ cs))) (λ b. service b more)

module _ (os : Oracle Call) where
  -- At most `n` tries; NULL if none succeeds.
  pub open_semaphore : ℕ → M Call ℤ
  open_semaphore zero tr = (pos 0, tr)
  open_semaphore (suc n) tr =
      let sem = ask os pi_sem_open tr in
      let again = open_semaphore n (ask os usleep sem.1).1 in if is_null sem.0 then again else sem

  -- `main`, with the status and what was done.
  pub main : List ℕ → List Received → M Call (ℤ × Option (List Job))
  unfolding open_semaphore
  main buf messages tr =
      let sem = open_semaphore 20 tr in
      let listen_sock = ask os socket sem.1 in
      let client_sock = ask os accept listen_sock.1 in
      let closed = ask os (close listen_sock.0) (ask os (close client_sock.0) client_sock.1).1 in
      if is_null sem.0 then ((pos 1, some []), sem.1) else ((pos 0, service buf messages), closed.1)

-- The messages that the loop works on, with room for the end of the text.
abbrev pub AreMessages : ℕ → List (List ℕ) → Type 0
AreMessages cap [] = Unit {0}
AreMessages cap (m ∷ ms) = (0 < length m) × (length m < cap) × AreMessages cap ms

abbrev pub Ends : Received → Type 0
Ends r = (r ≡ failed) ⊎ (r ≡ bytes [])

abbrev pub all_bytes : List (List ℕ) → List Received
all_bytes [] = []
all_bytes (m ∷ ms) = bytes m ∷ all_bytes ms

abbrev pub all_work : List (List ℕ) → List Job
all_work [] = []
all_work (m ∷ ms) = work (text m) ++ all_work ms

service_end :
    (buf : List ℕ) (r : Received) (more : List Received) → Ends r → service buf (r ∷ more) ≡ some []
unfolding service
service_end buf failed more e = refl
service_end buf (bytes []) more e = refl
service_end buf (bytes (c ∷ cs)) more (inl e) = cc
service_end buf (bytes (c ∷ cs)) more (inr e) = cc

-- Non-empty messages that leave room for the end of the text are each printed up to their first NUL
-- and worked on in twenty waits, in order, until a read fails or brings nothing; no store leaves
-- the buffer.
pub service_lem :
    (buf : List ℕ) (ms : List (List ℕ)) (r : Received) (more : List Received)
    → AreMessages (length buf) ms
    → Ends r
    → service buf (all_bytes ms ++ r ∷ more) ≡ some (all_work ms)
unfolding service
service_lem buf [] r more h e = service_end buf r more e
service_lem buf ([] ∷ ms) r more (p, q, h) e = absurd (omega arith)
service_lem buf ((c ∷ cs) ∷ ms) r more (p, q, h) e =
    let (b, stored, size, same) = text-read_text buf (c ∷ cs) q in
    let rest = service_lem b ms r more (rw size h) e in
    ap (λ (o : Option (List ℕ)). served o (λ b. service b (all_bytes ms ++ r ∷ more))) stored
    ∙ ap (and_then (text b)) rest
    ∙ ap (λ (xs : List ℕ). some (work xs ++ all_work ms)) same

is_null-zero : (p : ℤ) → is_null p ≡ true → p ≡ pos 0
is_null-zero (pos n) h = ground arith
is_null-zero (negsuc n) h = cc

-- The tries in a trace.
abbrev pub tries : Trace Call → ℕ
tries [] = 0
tries ((pi_sem_open, r) ∷ tr) = suc (tries tr)
tries ((usleep, r) ∷ tr) = tries tr
tries ((socket, r) ∷ tr) = tries tr
tries ((accept, r) ∷ tr) = tries tr
tries ((close fd, r) ∷ tr) = tries tr

module _ (os : Oracle Call) where
  open_semaphore-tries :
      (n : ℕ) (tr : Trace Call)
      → (tries (open_semaphore os n tr).1 ≤ tries tr + n)
        × ((open_semaphore os n tr).0 ≡ pos 0 → tries (open_semaphore os n tr).1 ≡ tries tr + n)
  unfolding open_semaphore
  open_semaphore-tries zero tr = (omega arith, λ e. omega arith)
  open_semaphore-tries (suc n) tr =
      let again = open_semaphore-tries n (ask os usleep (ask os pi_sem_open tr).1).1 in
      elim (Bool-cases (is_null (os tr pi_sem_open))) [
        | inl null ↦ rw null (omega (arith, again.0), λ e. omega (arith, again.1 e))
        | inr found ↦ rw found (omega arith, λ e. ground arith)
      ]

  open_semaphore-held :
      (n : ℕ) (tr : Trace Call)
      → settle same_fd effect (open_semaphore os n tr).1 ≡ settle same_fd effect tr
  unfolding open_semaphore
  open_semaphore-held zero tr = refl
  open_semaphore-held (suc n) tr = elim (Bool-cases (is_null (os tr pi_sem_open))) [
    | inl null ↦ rw null (open_semaphore-held n _ ∙ ground arith)
    | inr found ↦ rw found (ground arith)
  ]

  -- The payment process ends with no descriptor open; it ends with status 1 and no work after
  -- exactly twenty tries for the semaphore, or with status 0 after at most twenty and the work of
  -- its service loop.
  pub main-open_semaphore :
      (buf : List ℕ) (messages : List Received)
      → (settle same_fd effect (main os buf messages []).1 ≡ some [])
        × ((((main os buf messages []).0 ≡ (pos 1, some []))
              × (tries (main os buf messages []).1 ≡ 20))
            ⊎ (((main os buf messages []).0 ≡ (pos 0, service buf messages))
                × (tries (main os buf messages []).1 ≤ 20)))
  unfolding main
  main-open_semaphore buf messages =
      let held = open_semaphore-held 20 [] in
      let (most, all) = open_semaphore-tries 20 [] in
      elim (Bool-cases (is_null (open_semaphore os 20 []).0)) [
        | inl null ↦ rw null (held, inl (refl, all (is_null-zero _ null)))
        | inr found ↦ rw found (ground (arith, held), inr (refl, most))
      ]
