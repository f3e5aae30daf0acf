-- ===== src/Logging/Progress/LoggerTurn.antt =====
-- C/logger.c: from any point of its loop the logger can come back to `poll`.
use linux_riscv.Prelude.{◌+◌, ◌-◌, ◌<◌, ◌≡◌, refl, ap, ◌∙◌, sym, arith, Bool, true, false}
use linux_riscv.Logging.{
  Logger, polling, wanting, reading, posting, System, Step, poll, logger_wait, nothing_read,
  line_read, logger_post, tick, message, check_wait, check_line, was_delayed, in_time, message_wait,
  obeys, health_post,
}
use linux_riscv.Logging.Exclusion.{logger_inside}

-- A step that takes neither a message nor a tick of the timer from outside.
abbrev pub is_work : {s t : System} → Step s t → Bool
is_work (poll e) = true
is_work (logger_wait e h) = true
is_work (nothing_read e) = true
is_work (line_read xs e h) = true
is_work (logger_post e) = true
is_work (tick e) = false
is_work (message xs e h) = false
is_work (check_wait e h) = true
is_work (check_line e) = true
is_work (was_delayed e) = true
is_work (in_time e) = true
is_work (message_wait xs e h) = true
is_work (obeys xs e) = true
is_work (health_post e) = true

-- The states that a schedule of such steps can lead to.
pub data Leads (s : System) : System → Type 0 where
  here : Leads s s
  onward : {t u : System} → Leads s t → (st : Step t u) → is_work st ≡ true → Leads s u

pub Leads-trans : {s t u : System} → Leads s t → Leads t u → Leads s u
Leads-trans p here = p
Leads-trans p (onward q st w) = onward (Leads-trans p q) st w

-- A state in which the logger is back at `poll` and has given back what it held; health and the
-- flag are as they were.
pub record LoggerOut (s t : System) : Type 0 where
  pub leads : Leads s t
  pub outside : t.logger ≡ polling
  pub given_back : t.value ≡ s.value + logger_inside s.logger
  pub same_health : t.health ≡ s.health
  pub same_running : t.running ≡ s.running

logger_from_posting : (s : System) → s.logger ≡ posting → (t : System) × LoggerOut s t
logger_from_posting s e = (
  record s { logger = polling; value = s.value + 1 },
  record {
    leads = onward here (logger_post e) refl;
    outside = refl;
    given_back = ap (λ (l : Logger). s.value + logger_inside l) (sym e);
    same_health = refl;
    same_running = refl;
  },
)

logger_from_reading : (s : System) → s.logger ≡ reading → (t : System) × LoggerOut s t
logger_from_reading s e =
    let s' : System = record s { logger = posting } in
    let (t, f) = logger_from_posting s' refl in
    (
      t,
      record {
        leads = Leads-trans (onward here (nothing_read e) refl) f.leads;
        outside = f.outside;
        given_back = f.given_back ∙ ap (λ (l : Logger). s.value + logger_inside l) (sym e);
        same_health = f.same_health;
        same_running = f.same_running;
      },
    )

-- The logger takes its turn, where the semaphore is free or it is inside itself.
pub logger_out :
    (s : System) (l : Logger)
    → s.logger ≡ l
    → 0 < s.value + logger_inside l
    → (t : System) × LoggerOut s t
logger_out s polling e h = (
  s,
  record {
    leads = here;
    outside = e;
    given_back = omega (arith, ap logger_inside e);
    same_health = refl;
    same_running = refl;
  },
)
logger_out s wanting e h =
    let s' : System = record s { logger = reading; value = s.value - 1 } in
    let (t, f) = logger_from_reading s' refl in
    (
      t,
      record {
        leads = Leads-trans (onward here (logger_wait e (omega arith)) refl) f.leads;
        outside = f.outside;
        given_back = omega (arith, f.given_back, ap logger_inside e);
        same_health = f.same_health;
        same_running = f.same_running;
      },
    )
logger_out s reading e h = logger_from_reading s e
logger_out s posting e h = logger_from_posting s e
