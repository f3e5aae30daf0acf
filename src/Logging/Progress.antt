-- ===== src/Logging/Progress.antt =====
-- C/logger.c and C/health.c: that neither process waits for the semaphore for good.
pub mod LoggerTurn
use linux_riscv.Prelude.{◌+◌, ◌≡◌, Bool, true, false}
use linux_riscv.Buffer.{text}
use linux_riscv.Logging.{
  polling, Health, idle, wants_message, obeying, System, Command, stop, go, ignore, command,
}
use linux_riscv.Logging.Progress.LoggerTurn.{Leads}
use linux_riscv.Logging.Exclusion.{health_inside}

-- What health does to its flag on the way back to `epoll_wait`.
abbrev pub flag : Command → Bool → Bool
flag stop r = false
flag go r = true
flag ignore r = r

abbrev pub running_after : Health → Bool → Bool
running_after (wants_message xs) r = flag (command (text xs)) r
running_after (obeying xs) r = flag (command (text xs)) r
running_after _ r = r

-- A state in which health is back at `epoll_wait` and has given back what it held; it has obeyed a
-- message that it had received, and the logger is where it was.
record HealthOut (s t : System) : Type 0 where
  leads : Leads s t
  outside : t.health ≡ idle
  given_back : t.value ≡ s.value + health_inside s.health
  same_logger : t.logger ≡ s.logger
  obeyed : t.running ≡ running_after s.health s.running

-- Both processes at rest, with the semaphore free.
pub record AtRest (t : System) : Type 0 where
  pub logger : t.logger ≡ polling
  pub health : t.health ≡ idle
  pub value : t.value ≡ 1
