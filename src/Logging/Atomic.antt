-- ===== src/Logging/Atomic.antt =====
-- C/logger.c and C/health.c against a system in which each critical section is one step: what it
-- shows is the counter of the logger, `running` of health, and the log.
pub mod Simulation
use linux_riscv.Prelude.{
  ℕ, ◌+◌, ◌-◌, ◌<◌, ◌≡◌, List, [], ◌∷◌, Bool, true, false, subst, ◌∙◌, length,
}
use linux_riscv.Buffer.{text}
use linux_riscv.Logging.{
  Entry, line, check, delayed, stopped, started, Health, wants_check, checking, checked, System,
  stop, go, message, command, chop,
}

pub record Visible : Type 0 where
  pub cnt : ℕ
  pub running : Bool
  pub log : List Entry

pub nothing_shown : Visible
nothing_shown = record { cnt = 0; running = false; log = [] }

-- The critical sections: a line of the logger, a check in time, a check with a delay, a message.
pub data Action (a : Visible) : Visible → Type 0 where
  log_line :
      (xs : List ℕ)
      → 0 < length xs
      → Action a (record a { cnt = a.cnt + 1; log = line (a.cnt + 1) (text (chop xs)) ∷ a.log })
  check_in_time : a.running ≡ true → Action a (record a { log = check ∷ a.log })
  check_late : a.running ≡ true → Action a (record a { log = delayed ∷ check ∷ a.log })
  stop_message :
      (xs : List ℕ)
      → command (text xs) ≡ stop
      → Action a (record a { running = false; log = stopped ∷ a.log })
  start_message :
      (xs : List ℕ)
      → command (text xs) ≡ go
      → Action a (record a { running = true; log = started ∷ a.log })

pub data Acts : Visible → Type 0 where
  none_yet : Acts nothing_shown
  after : {a b : Visible} → Acts a → Action a b → Acts b

-- The line of a check whose delay is not known yet is not part of what is shown.
abbrev pub unfinished : Health → List Entry → List Entry
unfinished checked log = check ∷ log
unfinished _ log = log

abbrev pub is_check : Health → Bool
is_check wants_check = true
is_check checking = true
is_check checked = true
is_check _ = false

pub record Shows (a : Visible) (s : System) : Type 0 where
  pub cnt : a.cnt ≡ s.cnt
  pub running : a.running ≡ s.running
  pub log : s.log ≡ unfinished s.health a.log
  pub wanted : is_check s.health ≡ true → s.running ≡ true

abbrev pub Shown : System → Type 0
Shown s = (a : Visible) × Acts a × Shows a s

pub at_health :
    {a : Visible} {s : System} {h : Health} → s.health ≡ h → Shows a s → s.log ≡ unfinished h a.log
at_health {a} {s} e v = subst (λ h. s.log ≡ unfinished h a.log) e v.log

-- Health moves on and shows nothing.
pub quiet :
    {a : Visible} {s : System} (h k : Health)
    → s.health ≡ h
    → Shows a s
    → ((log : List Entry) → unfinished h log ≡ unfinished k log)
    → (is_check k ≡ true → s.running ≡ true)
    → (a.cnt ≡ s.cnt)
      × (a.running ≡ s.running)
      × (s.log ≡ unfinished k a.log)
      × (is_check k ≡ true → s.running ≡ true)
quiet {a} h k e v same w = (v.cnt, v.running, at_health e v ∙ same a.log, w)
