-- ===== src/Logging/Startup.antt =====
-- C/logger.c and C/health.c up to their loops: how each comes to its semaphore. Semaphores are
-- numbered, the name SEM_NAME stands for at most one of them, and an open one stays what it is when
-- the name is taken away. With USE_PI_SEM the flags of `pi_sem_open_or_create` are ignored: either
-- process creates what is not there, and keeps the name of one that it cannot map.
use linux_riscv.Prelude.{ℕ, zero, suc, ◌+◌, ◌≡◌, refl, Option, none, some, Bool, true, false, arith}

-- The logger: before `pi_sem_unlink`, before `pi_sem_open_or_create`, with its semaphore, ended.
pub data Logger : Type 0 where
  starting unlinked : Logger
  logger_has : ℕ → Logger
  logger_ended : Logger

-- The health process: with tries left, with its semaphore, ended.
pub data Health : Type 0 where
  trying : ℕ → Health
  health_has : ℕ → Health
  health_ended : Health

pub record Startup : Type 0 where
  pub name : Option ℕ
  pub fresh : ℕ
  pub logger : Logger
  pub health : Health

-- Both start; `old` is the semaphore that an earlier run has left.
unfoldable pub begun : (old : Option ℕ) → (fresh : ℕ) → Startup
begun old fresh = record { name = old; fresh = fresh; logger = starting; health = trying 20 }

pub data Step (use_pi_sem : Bool) (s : Startup) : Startup → Type 0 where
  unlink : s.logger ≡ starting → Step use_pi_sem s (record s { name = none; logger = unlinked })
  create :
      s.logger ≡ unlinked
      → s.name ≡ none
      → Step use_pi_sem s
          (record s { name = some s.fresh; fresh = s.fresh + 1; logger = logger_has s.fresh })
  joins :
      (x : ℕ)
      → s.logger ≡ unlinked
      → s.name ≡ some x
      → Step use_pi_sem s (record s { logger = logger_has x })
  create_unmapped :
      use_pi_sem ≡ true
      → s.logger ≡ unlinked
      → s.name ≡ none
      → Step use_pi_sem s
          (record s { name = some s.fresh; fresh = s.fresh + 1; logger = logger_ended })
  create_fails : s.logger ≡ unlinked → Step use_pi_sem s (record s { logger = logger_ended })
  found :
      (k x : ℕ)
      → s.health ≡ trying (suc k)
      → s.name ≡ some x
      → Step use_pi_sem s (record s { health = health_has x })
  health_creates :
      (k : ℕ)
      → use_pi_sem ≡ true
      → s.health ≡ trying (suc k)
      → s.name ≡ none
      → Step use_pi_sem s
          (record s { name = some s.fresh; fresh = s.fresh + 1; health = health_has s.fresh })
  health_unmapped :
      (k : ℕ)
      → use_pi_sem ≡ true
      → s.health ≡ trying (suc k)
      → s.name ≡ none
      → Step use_pi_sem s (record s { name = some s.fresh; fresh = s.fresh + 1; health = trying k })
  again : (k : ℕ) → s.health ≡ trying (suc k) → Step use_pi_sem s (record s { health = trying k })
  gives_up : s.health ≡ trying zero → Step use_pi_sem s (record s { health = health_ended })

pub data Reach (use_pi_sem : Bool) (start : Startup) : Startup → Type 0 where
  here : Reach use_pi_sem start start
  next : {s t : Startup} → Reach use_pi_sem start s → Step use_pi_sem s t → Reach use_pi_sem start t

record Inv (s : Startup) : Type 0 where
  named : (x : ℕ) → s.name ≡ some x → s.logger ≡ logger_has x
  shared : (x : ℕ) → s.health ≡ health_has x → s.logger ≡ logger_has x

Step-Inv : {s t : Startup} → Step false s t → Inv s → Inv t
Step-Inv (unlink e) v = record { named = λ x q. cc; shared = λ x q. ground (arith, v.shared x) }
Step-Inv (create e n) v = record {
  named = λ x q. ground arith;
  shared = λ x q. ground (arith, v.shared x);
}
Step-Inv (joins x e n) v = record {
  named = λ y q. ground (arith, v.named y, v.named x);
  shared = λ y q. ground (arith, v.shared y);
}
Step-Inv (create_unmapped w e n) v = cc
Step-Inv (create_fails e) v = record {
  named = λ x q. ground (arith, v.named x);
  shared = λ x q. ground (arith, v.shared x);
}
Step-Inv (found k x e n) v = record { named = v.named; shared = λ y q. ground (arith, v.named y) }
Step-Inv (health_creates k w e n) v = cc
Step-Inv (health_unmapped k w e n) v = cc
Step-Inv (again k e) v = record { named = v.named; shared = λ x q. cc }
Step-Inv (gives_up e) v = record { named = v.named; shared = λ x q. cc }

Reach-Inv : (fresh : ℕ) {s : Startup} → Reach false (begun none fresh) s → Inv s
unfolding begun
Reach-Inv fresh here = record { named = λ x q. cc; shared = λ x q. cc }
Reach-Inv fresh (next r st) = Step-Inv st (Reach-Inv fresh r)

-- With USE_PI_SEM health opens a semaphore of its own before the logger takes the name away.
pi_semaphore_divides :
    (fresh : ℕ)
    → (t : Startup) × Reach true (begun none fresh) t
      × (t.health ≡ health_has fresh)
      × (t.logger ≡ logger_has (fresh + 1))
unfolding begun
pi_semaphore_divides fresh =
    let opened = next here (health_creates 19 refl refl refl) in
    let gone = next opened (unlink refl) in (_, next gone (create refl refl), refl, refl)

-- Where no semaphore is left from an earlier run: without USE_PI_SEM, a semaphore that health has
-- opened is the one that the logger has; with USE_PI_SEM there is a history in which health has
-- created one of its own and the logger has another.
pub Reach-shared :
    (fresh : ℕ) {s : Startup}
    → Reach false (begun none fresh) s
    → ((x : ℕ) → s.health ≡ health_has x → s.logger ≡ logger_has x)
      × ((t : Startup) × Reach true (begun none fresh) t
          × (t.health ≡ health_has fresh)
          × (t.logger ≡ logger_has (fresh + 1)))
Reach-shared fresh r = ((Reach-Inv fresh r).shared, pi_semaphore_divides fresh)

-- Where a semaphore is left from an earlier run, there is a history in which health opens it and
-- the logger has another one.
pub old_semaphore_divides :
    (use_pi_sem : Bool) (old : ℕ)
    → (s : Startup) × Reach use_pi_sem (begun (some old) (old + 1)) s
      × (s.health ≡ health_has old)
      × (s.logger ≡ logger_has (old + 1))
unfolding begun
old_semaphore_divides use_pi_sem old =
    let opened = next here (found 19 old refl refl) in
    let gone = next opened (unlink refl) in (_, next gone (create refl refl), refl, refl)
