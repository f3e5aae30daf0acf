-- ===== src/Logging.antt =====
-- C/logger.c and C/health.c over the shared log, under the semaphore of C/pi_sem.h that both open.
-- One step is one call that the other process can observe; a schedule is any sequence of steps.
mod Tests
use linux_riscv.Prelude.{
  ℕ, ◌+◌, ◌-◌, ◌<◌, ◌≡◌, List, [], ◌∷◌, Bool, true, false, ◌||◌, ◌&&◌, if◌then◌else◌, ◌==◌, codes,
  length,
}
use linux_riscv.Buffer.{bytes, text}
pub mod Exclusion
pub mod Commands
pub mod Progress
pub mod Startup
pub mod Atomic
pub mod Setup

-- `strstr(s, word) != NULL` on the bytes in front of the NUL.
starts_with : List ℕ → List ℕ → Bool
starts_with [] s = true
starts_with (c ∷ word) [] = false
starts_with (c ∷ word) (d ∷ s) = c == d && starts_with word s

pub contains : List ℕ → List ℕ → Bool
unfolding starts_with
contains word [] = starts_with word []
contains word (d ∷ s) = starts_with word (d ∷ s) || contains word s

pub data Command : Type 0 where
  stop go ignore : Command

-- The branches of health.c on a message: STOP is looked for first.
pub command : List ℕ → Command
unfolding contains
command s =
    if contains (codes "STOP") s then stop else if contains (codes "START") s then go else ignore

-- `if (buf[n-1] == '\n') buf[n-1] = '\0';`
pub chop : List ℕ → List ℕ
chop [] = []
chop (c ∷ []) = if c == 10 then [] else c ∷ []
chop (c ∷ d ∷ rest) = c ∷ chop (d ∷ rest)

-- The lines of the shared log, without their times.
pub data Entry : Type 0 where
  line : ℕ → List ℕ → Entry
  check delayed stopped started : Entry

-- Where the logger stands: at `poll`, before the wait, before the read, before the post.
pub data Logger : Type 0 where
  polling wanting reading posting : Logger

-- Where health stands: at `epoll_wait`; before the wait for a check or for a message; before the
-- line of the check, before the line on the delay, before the work on a message, before the post.
pub data Health : Type 0 where
  idle wants_check : Health
  wants_message : List ℕ → Health
  checking checked : Health
  obeying : List ℕ → Health
  releasing : Health

pub record System : Type 0 where
  pub value : ℕ
  pub logger : Logger
  pub cnt : ℕ
  pub health : Health
  pub running : Bool
  pub log : List Entry

-- The semaphore is created with the value 1 by the logger; `running` is 0.
pub initial : System
initial = record { value = 1; logger = polling; cnt = 0; health = idle; running = false; log = [] }

-- The work on a message, under the semaphore.
pub obey : Command → System → System
obey stop s = record s { running = false; log = stopped ∷ s.log }
obey go s = record s { running = true; log = started ∷ s.log }
obey ignore s = s

-- The lines of the log, newest first.
pub data Step (s : System) : System → Type 0 where
  poll : s.logger ≡ polling → Step s (record s { logger = wanting })
  logger_wait :
      s.logger ≡ wanting → 0 < s.value → Step s (record s { logger = reading; value = s.value - 1 })
  nothing_read : s.logger ≡ reading → Step s (record s { logger = posting })
  line_read :
      (xs : List ℕ)
      → s.logger ≡ reading
      → 0 < length xs
      → Step s (record s {
        logger = posting;
        cnt = s.cnt + 1;
        log = line (s.cnt + 1) (text (chop xs)) ∷ s.log;
      })
  logger_post : s.logger ≡ posting → Step s (record s { logger = polling; value = s.value + 1 })
  tick : s.health ≡ idle → Step s (record s { health = if s.running then wants_check else idle })
  message :
      (xs : List ℕ)
      → s.health ≡ idle
      → 0 < length xs
      → Step s (record s { health = wants_message xs })
  check_wait :
      s.health ≡ wants_check
      → 0 < s.value
      → Step s (record s { health = checking; value = s.value - 1 })
  check_line : s.health ≡ checking → Step s (record s { health = checked; log = check ∷ s.log })
  was_delayed : s.health ≡ checked → Step s (record s { health = releasing; log = delayed ∷ s.log })
  in_time : s.health ≡ checked → Step s (record s { health = releasing })
  message_wait :
      (xs : List ℕ)
      → s.health ≡ wants_message xs
      → 0 < s.value
      → Step s (record s { health = obeying xs; value = s.value - 1 })
  obeys :
      (xs : List ℕ)
      → s.health ≡ obeying xs
      → Step s (record (obey (command (text xs)) s) { health = releasing })
  health_post : s.health ≡ releasing → Step s (record s { health = idle; value = s.value + 1 })

pub data Reach : System → Type 0 where
  here : Reach initial
  next : {s t : System} → Reach s → Step s t → Reach t
