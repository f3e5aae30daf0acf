-- ===== src/Logging/Exclusion.antt =====
-- The two processes of C/logger.c and C/health.c never write to the shared log at the same time.
use linux_riscv.Prelude.{
  ℕ, ◌+◌, ◌-◌, ◌<◌, ◌≡◌, refl, List, [], ◌∷◌, Bool, true, false, arith, ap, ◌≤◌, subst,
  if◌then◌else◌,
}
use linux_riscv.Buffer.{text}
use linux_riscv.Logging.{
  Entry, line, check, delayed, Logger, reading, posting, Health, idle, wants_check, wants_message,
  checking, checked, obeying, releasing, System, initial, Step, Reach, Command, stop, go, ignore,
  poll, logger_wait, nothing_read, line_read, logger_post, tick, message, check_wait, check_line,
  was_delayed, in_time, message_wait, obeys, health_post, here, next, obey, command, chop,
}

-- Between wait and post.
abbrev pub logger_inside : Logger → ℕ
logger_inside reading = 1
logger_inside posting = 1
logger_inside _ = 0

abbrev pub health_inside : Health → ℕ
health_inside idle = 0
health_inside wants_check = 0
health_inside (wants_message xs) = 0
health_inside _ = 1

-- Every line on a delay stands right behind its check, and the lines of the logger are numbered
-- without a gap, up to `n`.
abbrev pub NewestIsCheck : List Entry → Type 0
NewestIsCheck (check ∷ log) = Unit {0}
NewestIsCheck _ = ⊥

abbrev pub Ordered : ℕ → List Entry → Type 0
Ordered n [] = n ≡ 0
Ordered n (line k xs ∷ log) = (k ≡ n) × (0 < n) × Ordered (n - 1) log
Ordered n (delayed ∷ log) = NewestIsCheck log × Ordered n log
Ordered n (_ ∷ log) = Ordered n log

abbrev CheckWritten : Health → List Entry → Type 0
CheckWritten checked log = NewestIsCheck log
CheckWritten _ log = Unit {0}

pub record Inv (s : System) : Type 0 where
  pub exclusive : s.value + logger_inside s.logger + health_inside s.health ≡ 1
  pub ordered : Ordered s.cnt s.log
  pub pending : CheckWritten s.health s.log

initial-Inv : Inv initial
unfolding initial
initial-Inv = record { exclusive = omega arith; ordered = refl; pending = tt }

pub obey-keeps :
    (c : Command) (s : System)
    → ((obey c s).value ≡ s.value) × ((obey c s).logger ≡ s.logger) × ((obey c s).cnt ≡ s.cnt)
unfolding obey
obey-keeps stop s = (refl, refl, refl)
obey-keeps go s = (refl, refl, refl)
obey-keeps ignore s = (refl, refl, refl)

obey-Ordered :
    (c : Command) (s : System) → Ordered s.cnt s.log → Ordered (obey c s).cnt (obey c s).log
unfolding obey
obey-Ordered stop s h = h
obey-Ordered go s h = h
obey-Ordered ignore s h = h

Ordered-line :
    (n : ℕ) (xs : List ℕ) (log : List Entry)
    → Ordered n log
    → Ordered (n + 1) (line (n + 1) xs ∷ log)
Ordered-line n xs log h =
    let e : n ≡ n + 1 - 1 = omega arith in (refl, omega arith, subst (λ (k : ℕ). Ordered k log) e h)

-- The newest line stays while the logger is outside.
CheckWritten-outside :
    (h : Health) (e : Entry) (log : List Entry) → health_inside h ≡ 0 → CheckWritten h (e ∷ log)
CheckWritten-outside idle e log z = tt
CheckWritten-outside wants_check e log z = tt
CheckWritten-outside (wants_message xs) e log z = tt
CheckWritten-outside checking e log z = absurd (omega arith)
CheckWritten-outside checked e log z = absurd (omega arith)
CheckWritten-outside (obeying xs) e log z = absurd (omega arith)
CheckWritten-outside releasing e log z = absurd (omega arith)

tick-inside : (r : Bool) → health_inside (if r then wants_check else idle) ≡ 0
tick-inside true = refl
tick-inside false = refl

tick-pending : (r : Bool) (log : List Entry) → CheckWritten (if r then wants_check else idle) log
tick-pending true log = tt
tick-pending false log = tt

Step-Inv : {s t : System} → Step s t → Inv s → Inv t
Step-Inv (poll e) v = record {
  exclusive = omega (arith, v.exclusive, ap logger_inside e);
  ordered = v.ordered;
  pending = v.pending;
}
Step-Inv (logger_wait e h) v = record {
  exclusive = omega (arith, v.exclusive, ap logger_inside e);
  ordered = v.ordered;
  pending = v.pending;
}
Step-Inv (nothing_read e) v = record {
  exclusive = omega (arith, v.exclusive, ap logger_inside e);
  ordered = v.ordered;
  pending = v.pending;
}
Step-Inv {s} (line_read xs e h) v = record {
  exclusive = omega (arith, v.exclusive, ap logger_inside e);
  ordered = Ordered-line s.cnt (text (chop xs)) s.log v.ordered;
  pending =
      CheckWritten-outside s.health (line (s.cnt + 1) (text (chop xs))) s.log
        (omega (arith, v.exclusive, ap logger_inside e));
}
Step-Inv (logger_post e) v = record {
  exclusive = omega (arith, v.exclusive, ap logger_inside e);
  ordered = v.ordered;
  pending = v.pending;
}
Step-Inv {s} (tick e) v = record {
  exclusive = omega (arith, v.exclusive, ap health_inside e, tick-inside s.running);
  ordered = v.ordered;
  pending = tick-pending s.running s.log;
}
Step-Inv (message xs e h) v = record {
  exclusive = omega (arith, v.exclusive, ap health_inside e);
  ordered = v.ordered;
  pending = tt;
}
Step-Inv (check_wait e h) v = record {
  exclusive = omega (arith, v.exclusive, ap health_inside e);
  ordered = v.ordered;
  pending = tt;
}
Step-Inv (check_line e) v = record {
  exclusive = omega (arith, v.exclusive, ap health_inside e);
  ordered = v.ordered;
  pending = tt;
}
Step-Inv {s} (was_delayed e) v = record {
  exclusive = omega (arith, v.exclusive, ap health_inside e);
  ordered = (subst (λ h. CheckWritten h s.log) e v.pending, v.ordered);
  pending = tt;
}
Step-Inv (in_time e) v = record {
  exclusive = omega (arith, v.exclusive, ap health_inside e);
  ordered = v.ordered;
  pending = tt;
}
Step-Inv (message_wait xs e h) v = record {
  exclusive = omega (arith, v.exclusive, ap health_inside e);
  ordered = v.ordered;
  pending = tt;
}
Step-Inv {s} (obeys xs e) v =
    let kept = obey-keeps (command (text xs)) s in
    record {
      exclusive = omega (arith, v.exclusive, ap health_inside e, kept.0, ap logger_inside kept.1);
      ordered = obey-Ordered (command (text xs)) s v.ordered;
      pending = tt;
    }
Step-Inv (health_post e) v = record {
  exclusive = omega (arith, v.exclusive, ap health_inside e);
  ordered = v.ordered;
  pending = tt;
}

pub Reach-Inv : {s : System} → Reach s → Inv s
Reach-Inv here = initial-Inv
Reach-Inv (next r st) = Step-Inv st (Reach-Inv r)

-- In every reachable state of the logger and the health process, at most one of them is between its
-- wait and its post, every line on a delay stands right behind the line of its check, and the lines
-- of the logger are numbered from 1 on without a gap.
pub Reach-exclusive :
    {s : System}
    → Reach s
    → (logger_inside s.logger + health_inside s.health ≤ 1) × Ordered s.cnt s.log
Reach-exclusive r = let v = Reach-Inv r in (omega (arith, v.exclusive), v.ordered)
