-- ===== src/Scheduling.antt =====
-- C/sched_rr.c, C/rtsample.c and C/sched_fifo.c: a process that starts two threads, which print lines
-- and end, and waits for both. One step is one call; the kernel may choose any order of the steps,
-- whatever the scheduling policy. `pthread_create` is taken to be granted.
pub mod Invariant
pub mod Output
pub mod Progress
mod Tests
use linux_riscv.Prelude.{ℕ, ◌+◌, ◌≡◌, ◌≤◌, ◌<◌, List, [], ◌∷◌, Bool, true, false, if◌then◌else◌}

-- The lines, without the texts around the numbers.
pub data Line : Type 0 where
  rr rt norm : ℕ → Line

-- A thread function: whether it begins with `sched_setscheduler`, how often its loop runs, and what
-- a round prints.
pub record Task : Type 0 where
  pub sets_policy : Bool
  pub rounds : ℕ
  pub line : ℕ → Line

pub rr_task : ℕ → Task
rr_task id = record { sets_policy = true; rounds = 10; line = λ i. rr id }

pub realtime_task : Task
realtime_task = record { sets_policy = true; rounds = 5; line = rt }

pub normal_task : Task
normal_task = record { sets_policy = false; rounds = 5; line = norm }

-- The threads in the order in which `main` creates them.
pub data Thread : Type 0 where
  first second : Thread

pub record Program : Type 0 where
  pub task : Thread → Task
  pub joined_first : Thread
  pub joined_second : Thread

pub sched_rr : Program
sched_rr = record {
  task = λ t. elim t [ first ↦ rr_task 1 | second ↦ rr_task 2 ];
  joined_first = first;
  joined_second = second;
}

pub sched_fifo : Program
sched_fifo = record {
  task = λ t. elim t [ first ↦ normal_task | second ↦ realtime_task ];
  joined_first = second;
  joined_second = first;
}

-- Where a thread stands: not created; before its first call; before round `i`; returned.
pub data Pc : Type 0 where
  unborn entered : Pc
  looping : ℕ → Pc
  returned : Pc

-- Where `main` stands: before the first `pthread_create`, before the second, before the first
-- `pthread_join`, before the second, at its end.
pub data Main : Type 0 where
  creating_first creating_second joining_first joining_second ended : Main

-- The lines that were printed are the newest first; `granted` is what `sched_setscheduler` answers
-- each thread that calls it, as long as the program runs.
pub record State : Type 0 where
  pub main : Main
  pub pc : Thread → Pc
  pub out : List (Thread × Line)
  pub granted : Thread → Bool

pub at_start : (Thread → Bool) → State
at_start granted = record { main = creating_first; pc = λ t. unborn; out = []; granted = granted }

abbrev pub put : (Thread → Pc) → Thread → Pc → Thread → Pc
put pc first p first = p
put pc first p second = pc second
put pc second p first = pc first
put pc second p second = p

-- What a thread does first.
abbrev pub entry : Task → Pc
entry t = if t.sets_policy then entered else looping 0

-- The test of the answer: a refused thread returns.
abbrev pub after_policy : Bool → Pc
after_policy granted = if granted then looping 0 else returned

pub data Step (p : Program) (s : State) : State → Type 0 where
  create_first :
      s.main ≡ creating_first
      → Step p s (record s { main = creating_second; pc = put s.pc first (entry (p.task first)) })
  create_second :
      s.main ≡ creating_second
      → Step p s (record s { main = joining_first; pc = put s.pc second (entry (p.task second)) })
  set_policy :
      (t : Thread)
      → s.pc t ≡ entered
      → Step p s (record s { pc = put s.pc t (after_policy (s.granted t)) })
  print :
      (t : Thread) (i : ℕ)
      → s.pc t ≡ looping i
      → i < (p.task t).rounds
      → Step p s
          (record s { pc = put s.pc t (looping (i + 1)); out = (t, (p.task t).line i) ∷ s.out })
  leave :
      (t : Thread) (i : ℕ)
      → s.pc t ≡ looping i
      → (p.task t).rounds ≤ i
      → Step p s (record s { pc = put s.pc t returned })
  join_first :
      s.main ≡ joining_first
      → s.pc p.joined_first ≡ returned
      → Step p s (record s { main = joining_second })
  join_second :
      s.main ≡ joining_second
      → s.pc p.joined_second ≡ returned
      → Step p s (record s { main = ended })

pub data Reach (p : Program) : State → Type 0 where
  here : (granted : Thread → Bool) → Reach p (at_start granted)
  next : {s t : State} → Reach p s → Step p s t → Reach p t
