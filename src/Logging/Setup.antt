-- ===== src/Logging/Setup.antt =====
-- C/logger.c and C/health.c: the calls up to their loops. What a call answers other than the
-- semaphore and the log is not tested.
use linux_riscv.Prelude.{
  ℕ, zero, suc, ◌≡◌, ◌⊎◌, refl, inl, inr, [], ◌∷◌, ℤ, pos, is_neg, false, Option, some, none,
  if◌then◌else◌, Bool-cases,
}
use linux_riscv.Calls.{Trace, Oracle, M, ask, pure, ◌>>=◌, ◌>>◌, choose, is_null}

pub data Call : Type 0 where
  unlink mkfifo pi_sem_unlink pi_sem_open usleep open_fifo open_log : Call
  socket timerfd_create timerfd_settime accept epoll_create1 : Call
  bind listen watch : ℤ → Call

-- What the loops work with.
pub record Logger : Type 0 where
  pub sem : ℤ
  pub fd : ℤ
  pub logfd : ℤ

pub record Health : Type 0 where
  pub sem : ℤ
  pub tfd : ℤ
  pub client : ℤ
  pub epfd : ℤ
  pub logfd : ℤ

-- The log is opened last; `none`: the process ends with status 1.
with_log : {A : Type 0} → Oracle Call → (ℤ → A) → M Call (Option A)
with_log os f = do
  logfd ← ask os open_log
  choose (is_neg logfd) (pure none) (pure (some (f logfd)))

with_log_lem :
    {A : Type 0} (os : Oracle Call) (f : ℤ → A) (tr : Trace Call)
    → let r = with_log os f tr in
      (r.0 ≡ none)
      ⊎ ((logfd : ℤ) × (r.0 ≡ some (f logfd))
          × (is_neg logfd ≡ false)
          × (r.1 ≡ (open_log, logfd) ∷ tr))
unfolding with_log
with_log_lem os f tr = elim (Bool-cases (is_neg (os tr open_log))) [
  | inl failed ↦ inl (rw failed refl)
  | inr opened ↦ inr (os tr open_log, rw opened refl, opened, rw opened refl)
]

module _ (os : Oracle Call) where
  -- `none`: the process ends with status 1.
  pub logger : M Call (Option Logger)
  unfolding with_log
  logger = do
    ask os unlink
    ask os mkfifo
    ask os pi_sem_unlink
    sem ← ask os pi_sem_open
    choose (is_null sem) (pure none) do
      fd ← ask os open_fifo
      with_log os (λ logfd. record { sem = sem; fd = fd; logfd = logfd })

  -- At most `n` tries, a millisecond apart; NULL if none succeeds.
  pub open_semaphore : ℕ → M Call ℤ
  open_semaphore zero tr = (pos 0, tr)
  open_semaphore (suc n) tr =
      let sem = ask os pi_sem_open tr in
      let again = open_semaphore n (ask os usleep sem.1).1 in if is_null sem.0 then again else sem

  watching : ℤ → ℤ → M Call (Option Health)
  unfolding with_log
  watching sem tfd = do
    client ← ask os accept
    epfd ← ask os epoll_create1
    ask os (watch tfd)
    ask os (watch client)
    with_log os
        (λ logfd. record { sem = sem; tfd = tfd; client = client; epfd = epfd; logfd = logfd })

  listening : ℤ → M Call (Option Health)
  unfolding watching
  listening sem = do
    sock ← ask os socket
    ask os unlink
    ask os (bind sock)
    ask os (listen sock)
    tfd ← ask os timerfd_create
    ask os timerfd_settime
    watching sem tfd

  pub health : M Call (Option Health)
  unfolding open_semaphore listening
  health = do sem ← open_semaphore 20; choose (is_null sem) (pure none) (listening sem)

  -- The end of health's setup, after any calls, where `sem` is not NULL.
  abbrev pub Ready : ℤ → Option Health → Trace Call → Type 0
  Ready sem o tr =
      (o ≡ none)
      ⊎ ((h : Health) × (o ≡ some h)
          × (h.sem ≡ sem)
          × (is_neg h.logfd ≡ false)
          × (before : Trace Call) × (r s : ℤ) × (tr
              ≡ (open_log, h.logfd)
                ∷ (watch h.client, r)
                ∷ (watch h.tfd, s)
                ∷ (epoll_create1, h.epfd)
                ∷ (accept, h.client)
                ∷ before))

  watching-Ready :
      (sem tfd : ℤ) (tr : Trace Call) → Ready sem (watching sem tfd tr).0 (watching sem tfd tr).1
  unfolding watching
  watching-Ready sem tfd tr =
      let c = ask os accept tr in
      let e = ask os epoll_create1 c.1 in
      let timer = ask os (watch tfd) e.1 in
      let last = ask os (watch c.0) timer.1 in
      let health_of : ℤ → Health =
        λ logfd. record { sem = sem; tfd = tfd; client = c.0; epfd = e.0; logfd = logfd } in
      elim (with_log_lem os health_of last.1) [
        | inl failed ↦ inl failed
        | inr (logfd, found, opened, calls) ↦
            inr (health_of logfd, found, refl, opened, tr, last.0, timer.0, calls)
      ]

  listening-Ready :
      (sem : ℤ) (tr : Trace Call) → Ready sem (listening sem tr).0 (listening sem tr).1
  unfolding listening
  listening-Ready sem tr = watching-Ready sem _ _

  -- The logger enters its loop only with a semaphore, which it opened after the name was taken away,
  -- and with a log; otherwise it ends with status 1.
  pub logger-Ready :
      ((logger []).0 ≡ none)
      ⊎ ((l : Logger) × ((logger []).0 ≡ some l)
          × (is_null l.sem ≡ false)
          × (is_neg l.logfd ≡ false)
          × (r s t : ℤ) × ((logger []).1
              ≡ (open_log, l.logfd)
                ∷ (open_fifo, l.fd)
                ∷ (pi_sem_open, l.sem)
                ∷ (pi_sem_unlink, r)
                ∷ (mkfifo, s)
                ∷ (unlink, t)
                ∷ []))
  unfolding logger
  logger-Ready =
      let gone = ask os unlink [] in
      let made = ask os mkfifo gone.1 in
      let cleared = ask os pi_sem_unlink made.1 in
      let sem = ask os pi_sem_open cleared.1 in
      let fd = ask os open_fifo sem.1 in
      let logger_of : ℤ → Logger = λ logfd. record { sem = sem.0; fd = fd.0; logfd = logfd } in
      elim (Bool-cases (is_null sem.0)) [
        | inl null ↦ inl (rw null refl)
        | inr found ↦ elim (with_log_lem os logger_of fd.1) [
          | inl failed ↦ inl (rw found failed)
          | inr (logfd, e, opened, calls) ↦ inr (
            logger_of logfd,
            rw found e,
            found,
            opened,
            cleared.0,
            made.0,
            gone.0,
            rw found calls,
          )
        ]
      ]

  -- Health enters its loop only with a semaphore and a log, and with the timer and the client of its
  -- connection watched; otherwise it ends with status 1.
  pub health-Ready :
      ((health []).0 ≡ none)
      ⊎ ((is_null (open_semaphore 20 []).0 ≡ false)
          × Ready (open_semaphore 20 []).0 (health []).0 (health []).1)
  unfolding health
  health-Ready =
      let sem = open_semaphore 20 [] in
      elim (Bool-cases (is_null sem.0)) [
        | inl null ↦ inl (rw null refl)
        | inr found ↦ inr (found, rw found (listening-Ready sem.0 sem.1))
      ]
