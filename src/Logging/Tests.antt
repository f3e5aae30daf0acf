-- ===== src/Logging/Tests.antt =====
-- C/logger.c and C/health.c on concrete inputs.
use linux_riscv.Prelude.{ℕ, ◌+◌, ◌-◌, ◌≤◌, ◌≡◌, refl, List, [], ◌∷◌, arith, codes}
use linux_riscv.Buffer.{text}
use linux_riscv.Logging.{
  chop, line, wanting, reading, posting, System, initial, poll, logger_wait, line_read, Reach, here,
  next,
}
use linux_riscv.Logging.Exclusion.{logger_inside, health_inside, Ordered, Reach-exclusive}
use linux_riscv.Logging.Atomic.{Visible, Acts}
use linux_riscv.Logging.Atomic.Simulation.{Reach-Acts}
use linux_riscv.Logging.Commands.{Factor}
use linux_riscv.Logging.Startup.{
  Startup, begun, health_has, logger_has, unlink, create, found, Reach-shared,
  Reach as Reach_startup, here as start_here, next as next_step,
}
use linux_riscv.Prelude.{none, true, false}

-- The logger has taken the semaphore and written its first line.
abbrev asked : System
asked = record initial { logger = wanting }

abbrev locked : System
locked = record asked { logger = reading; value = initial.value - 1 }

abbrev logged : System
logged = record locked {
  logger = posting;
  cnt = locked.cnt + 1;
  log = line (locked.cnt + 1) (text (chop (codes "x\n"))) ∷ locked.log;
}

history : Reach logged
unfolding initial
history =
    next (next (next here (poll refl)) (logger_wait refl (omega arith)))
      (line_read (codes "x\n") refl (omega arith))

Reach-exclusive_example :
    (logger_inside logged.logger + health_inside logged.health ≤ 1) × Ordered logged.cnt logged.log
Reach-exclusive_example = Reach-exclusive history

Reach-Acts_example :
    (a : Visible) × Acts a
    × (a.cnt ≡ logged.cnt)
    × (a.running ≡ logged.running)
    × (a.log ≡ logged.log)
unfolding initial
Reach-Acts_example = Reach-Acts history refl

abbrev both : List ℕ
both = codes "START, then STOP"

both_test : Factor (codes "STOP") both
both_test = (codes "START, then ", [], refl)

-- The logger creates its semaphore, and health finds it.
startup : (s : Startup) × Reach_startup false (begun none 7) s × (s.health ≡ health_has 7)
unfolding begun
startup =
    let gone = next_step start_here (unlink refl) in
    let made = next_step gone (create refl refl) in (_, next_step made (found 19 7 refl refl), refl)

Reach-shared_example :
    ((x : ℕ) → startup.0.health ≡ health_has x → startup.0.logger ≡ logger_has x)
    × ((t : Startup) × Reach_startup true (begun none 7) t
        × (t.health ≡ health_has 7)
        × (t.logger ≡ logger_has (7 + 1)))
Reach-shared_example = Reach-shared 7 startup.1
