-- ===== src/Logging/Atomic/Simulation.antt =====
-- C/logger.c and C/health.c do what the system with critical sections of one step allows.
use linux_riscv.Prelude.{
  ℕ, ◌+◌, ◌<◌, ◌≡◌, refl, List, ◌∷◌, Bool, true, false, arith, ap, sym, ◌∙◌, if◌then◌else◌, length,
}
use linux_riscv.Buffer.{text}
use linux_riscv.Logging.{
  Entry, line, check, delayed, stopped, started, posting, Health, idle, wants_check, wants_message,
  checking, checked, obeying, releasing, System, initial, Step, Reach, Command, stop, go, ignore,
  poll, logger_wait, nothing_read, line_read, logger_post, tick, message, check_wait, check_line,
  was_delayed, in_time, message_wait, obeys, health_post, here, next, obey, command, chop,
}
use linux_riscv.Logging.Exclusion.{logger_inside, health_inside, Inv, Reach-Inv}
use linux_riscv.Logging.Atomic.{
  Visible, nothing_shown, log_line, check_in_time, check_late, stop_message, start_message, Acts,
  none_yet, after, unfinished, is_check, Shows, Shown, at_health, quiet,
}

outside-unfinished : (h : Health) (log : List Entry) → health_inside h ≡ 0 → unfinished h log ≡ log
outside-unfinished idle log e = refl
outside-unfinished wants_check log e = refl
outside-unfinished (wants_message xs) log e = refl
outside-unfinished checking log e = refl
outside-unfinished checked log e = absurd (omega (arith, e))
outside-unfinished (obeying xs) log e = refl
outside-unfinished releasing log e = refl

tick-unfinished :
    (r : Bool) (log : List Entry) → log ≡ unfinished (if r then wants_check else idle) log
tick-unfinished true log = refl
tick-unfinished false log = refl

tick-wanted : (r : Bool) → is_check (if r then wants_check else idle) ≡ true → r ≡ true
tick-wanted true e = refl
tick-wanted false e = cc

-- A line of the logger, which is inside, so that health is not.
line-Shows :
    (s : System) (a : Visible) (xs : List ℕ)
    → Acts a
    → Shows a s
    → health_inside s.health ≡ 0
    → 0 < length xs
    → Shown (record s {
      logger = posting;
      cnt = s.cnt + 1;
      log = line (s.cnt + 1) (text (chop xs)) ∷ s.log;
    })
line-Shows s a xs acts v out l =
    let new = line (a.cnt + 1) (text (chop xs)) in
    let same : line (s.cnt + 1) (text (chop xs)) ≡ new =
      ap (λ (n : ℕ). line (n + 1) (text (chop xs))) (sym v.cnt) in
    let before = v.log ∙ outside-unfinished s.health a.log out in
    (
      _,
      after acts (log_line xs l),
      record {
        cnt = ap (λ (n : ℕ). n + 1) v.cnt;
        running = v.running;
        log =
            ap (λ (e : Entry). e ∷ s.log) same
            ∙ ap (◌∷◌ new) before
            ∙ sym (outside-unfinished s.health (new ∷ a.log) out);
        wanted = v.wanted;
      },
    )

obey-Shows :
    (s : System) (a : Visible) (xs : List ℕ) (c : Command)
    → s.health ≡ obeying xs
    → command (text xs) ≡ c
    → Acts a
    → Shows a s
    → Shown (record (obey c s) { health = releasing })
unfolding obey
obey-Shows s a xs stop e k acts v = (
  _,
  after acts (stop_message xs k),
  record { cnt = v.cnt; running = refl; log = ap (◌∷◌ stopped) (at_health e v); wanted = λ q. cc },
)
obey-Shows s a xs go e k acts v = (
  _,
  after acts (start_message xs k),
  record { cnt = v.cnt; running = refl; log = ap (◌∷◌ started) (at_health e v); wanted = λ q. cc },
)
obey-Shows s a xs ignore e k acts v =
    (a, acts, record { cnt = v.cnt; running = v.running; log = at_health e v; wanted = λ q. cc })

Step-Shows : {s t : System} → Step s t → Inv s → Shown s → Shown t
Step-Shows (poll e) i (a, acts, v) =
    (a, acts, record { cnt = v.cnt; running = v.running; log = v.log; wanted = v.wanted })
Step-Shows (logger_wait e h) i (a, acts, v) =
    (a, acts, record { cnt = v.cnt; running = v.running; log = v.log; wanted = v.wanted })
Step-Shows (nothing_read e) i (a, acts, v) =
    (a, acts, record { cnt = v.cnt; running = v.running; log = v.log; wanted = v.wanted })
Step-Shows {s} (line_read xs e l) i (a, acts, v) =
    line-Shows s a xs acts v (omega (arith, i.exclusive, ap logger_inside e)) l
Step-Shows (logger_post e) i (a, acts, v) =
    (a, acts, record { cnt = v.cnt; running = v.running; log = v.log; wanted = v.wanted })
Step-Shows {s} (tick e) i (a, acts, v) = (
  a,
  acts,
  record {
    cnt = v.cnt;
    running = v.running;
    log = at_health e v ∙ tick-unfinished s.running a.log;
    wanted = tick-wanted s.running;
  },
)
Step-Shows {s} (message xs e l) i (a, acts, v) =
    let (c, r, g, w) = quiet idle (wants_message xs) e v (λ log. refl) (λ q. cc) in
    (a, acts, record { cnt = c; running = r; log = g; wanted = w })
Step-Shows {s} (check_wait e h) i (a, acts, v) =
    let (c, r, g, w) =
      quiet wants_check checking e v (λ log. refl) (λ q. v.wanted (ap is_check e)) in
    (a, acts, record { cnt = c; running = r; log = g; wanted = w })
Step-Shows {s} (check_line e) i (a, acts, v) = (
  a,
  acts,
  record {
    cnt = v.cnt;
    running = v.running;
    log = ap (◌∷◌ check) (at_health e v);
    wanted = λ q. v.wanted (ap is_check e);
  },
)
Step-Shows {s} (was_delayed e) i (a, acts, v) = (
  _,
  after acts (check_late (v.running ∙ v.wanted (ap is_check e))),
  record {
    cnt = v.cnt;
    running = v.running;
    log = ap (◌∷◌ delayed) (at_health e v);
    wanted = λ q. cc;
  },
)
Step-Shows {s} (in_time e) i (a, acts, v) = (
  _,
  after acts (check_in_time (v.running ∙ v.wanted (ap is_check e))),
  record { cnt = v.cnt; running = v.running; log = at_health e v; wanted = λ q. cc },
)
Step-Shows {s} (message_wait xs e h) i (a, acts, v) =
    let (c, r, g, w) = quiet (wants_message xs) (obeying xs) e v (λ log. refl) (λ q. cc) in
    (a, acts, record { cnt = c; running = r; log = g; wanted = w })
Step-Shows {s} (obeys xs e) i (a, acts, v) = obey-Shows s a xs (command (text xs)) e refl acts v
Step-Shows {s} (health_post e) i (a, acts, v) =
    let (c, r, g, w) = quiet releasing idle e v (λ log. refl) (λ q. cc) in
    (a, acts, record { cnt = c; running = r; log = g; wanted = w })

initial-Shows : Shown initial
unfolding initial nothing_shown
initial-Shows =
    (nothing_shown, none_yet, record { cnt = refl; running = refl; log = refl; wanted = λ q. cc })

Reach-Shown : {s : System} → Reach s → Shown s
Reach-Shown here = initial-Shows
Reach-Shown (next r st) = Step-Shows st (Reach-Inv r) (Reach-Shown r)

-- In every reachable state of the logger and the health process in which health is not between its
-- wait and its post, the counter of the logger, running, and the log are those of a history in
-- which each critical section is one step, and health checks only while it is started.
pub Reach-Acts :
    {s : System}
    → Reach s
    → health_inside s.health ≡ 0
    → (a : Visible) × Acts a × (a.cnt ≡ s.cnt) × (a.running ≡ s.running) × (a.log ≡ s.log)
Reach-Acts {s} r out =
    let (a, acts, v) = Reach-Shown r in
    (a, acts, v.cnt, v.running, sym (v.log ∙ outside-unfinished s.health a.log out))
