-- ===== src/Scheduling/Invariant.antt =====
-- C/sched_rr.c, C/rtsample.c and C/sched_fifo.c: what each thread has printed at every point.
use linux_riscv.Prelude.{
  ℕ, zero, suc, ◌+◌, ◌≡◌, ◌≤◌, ◌<◌, refl, inl, inr, ◌&&◌, not, List, [], ◌∷◌, Bool, true, false,
  arith, if◌then◌else◌, ap, Bool-cases, ◌∙◌, subst, sym,
}
use linux_riscv.Scheduling.{
  Line, Task, Thread, first, second, Program, Pc, unborn, entered, looping, returned, Main,
  creating_first, creating_second, joining_first, joining_second, ended, State, put, entry,
}

-- The lines of one thread, the newest first.
abbrev pub is : Thread → Thread → Bool
is first first = true
is second second = true
is _ _ = false

abbrev pub shown : Thread → List (Thread × Line) → List Line
shown t [] = []
shown t ((u, l) ∷ out) = let more = shown t out in if is t u then l ∷ more else more

-- The lines of the first `n` rounds, the newest first.
abbrev pub lines : Task → ℕ → List Line
lines t zero = []
lines t (suc n) = t.line n ∷ lines t n

-- What a thread that has returned has printed: nothing where it was refused its policy, else all its
-- lines.
abbrev pub whole : Task → Bool → List Line
whole t granted = if t.sets_policy && not granted then [] else lines t t.rounds

-- What a thread at `pc` has printed.
abbrev pub Printed : Task → Bool → Pc → List Line → Type 0
Printed t granted unborn out = out ≡ []
Printed t granted entered out = (out ≡ []) × (t.sets_policy ≡ true)
Printed t granted (looping i) out =
    (out ≡ lines t i) × (i ≤ t.rounds) × ((t.sets_policy && not granted) ≡ false)
Printed t granted returned out = out ≡ whole t granted

abbrev pub is_unborn : Pc → Bool
is_unborn unborn = true
is_unborn _ = false

abbrev pub is_returned : Pc → Bool
is_returned returned = true
is_returned _ = false

-- What `main` knows of the threads.
abbrev pub to_come : Main → Thread → Bool
to_come creating_first t = true
to_come creating_second second = true
to_come _ _ = false

abbrev pub has_first : Main → Bool
has_first joining_second = true
has_first ended = true
has_first _ = false

abbrev pub has_second : Main → Bool
has_second ended = true
has_second _ = false

pub record Inv (p : Program) (s : State) : Type 0 where
  pub printed : (t : Thread) → Printed (p.task t) (s.granted t) (s.pc t) (shown t s.out)
  pub born : (t : Thread) → is_unborn (s.pc t) ≡ to_come s.main t
  pub first_back : has_first s.main ≡ true → is_returned (s.pc p.joined_first) ≡ true
  pub second_back : has_second s.main ≡ true → is_returned (s.pc p.joined_second) ≡ true

move :
    (p : Program) (g : Thread → Bool) (pc : Thread → Pc) (out : List (Thread × Line)) (t : Thread)
    (q : Pc)
    → ((u : Thread) → is u t ≡ false → Printed (p.task u) (g u) (pc u) (shown u out))
    → Printed (p.task t) (g t) q (shown t out)
    → (u : Thread) → Printed (p.task u) (g u) (put pc t q u) (shown u out)
move p g pc out first q h new first = new
move p g pc out first q h new second = h second refl
move p g pc out second q h new first = h first refl
move p g pc out second q h new second = new

abbrev pub active : Pc → Bool
active unborn = false
active returned = false
active _ = true

-- A step of an active thread keeps what is known of a thread that is created, or has returned.
put-is_unborn :
    (pc : Thread → Pc) (t : Thread) (q : Pc)
    → active (pc t) ≡ true
    → is_unborn q ≡ false
    → (u : Thread) → is_unborn (put pc t q u) ≡ is_unborn (pc u)
put-is_unborn pc first q h k first = ground arith
put-is_unborn pc first q h k second = refl
put-is_unborn pc second q h k first = refl
put-is_unborn pc second q h k second = ground arith

put-is_returned :
    (pc : Thread → Pc) (t : Thread) (q : Pc)
    → active (pc t) ≡ true
    → (u : Thread) → is_returned (pc u) ≡ true
    → is_returned (put pc t q u) ≡ true
put-is_returned pc first q h first = λ k. ground arith
put-is_returned pc first q h second = λ k. k
put-is_returned pc second q h first = λ k. k
put-is_returned pc second q h second = λ k. ground arith

-- A step of a thread that `main` does not see.
pub thread_step :
    (p : Program) (s : State) (t : Thread) (q : Pc) (out : List (Thread × Line))
    → Inv p s
    → active (s.pc t) ≡ true
    → is_unborn q ≡ false
    → ((u : Thread) → is u t ≡ false → Printed (p.task u) (s.granted u) (s.pc u) (shown u out))
    → Printed (p.task t) (s.granted t) q (shown t out)
    → Inv p (record s { pc = put s.pc t q; out = out })
thread_step p s t q out v h k same new = record {
  printed = move p s.granted s.pc out t q same new;
  born = λ u. put-is_unborn s.pc t q h k u ∙ v.born u;
  first_back = λ e. put-is_returned s.pc t q h p.joined_first (v.first_back e);
  second_back = λ e. put-is_returned s.pc t q h p.joined_second (v.second_back e);
}

entry-Printed : (t : Task) (g : Bool) (out : List Line) → out ≡ [] → Printed t g (entry t) out
entry-Printed t g out e = elim (Bool-cases t.sets_policy) [
  | inl sets ↦ rw sets (e, refl)
  | inr keeps ↦ rw keeps (e, omega arith, refl)
]

unborn-Printed :
    (t : Task) (g : Bool) (pc : Pc) (out : List Line)
    → is_unborn pc ≡ true
    → Printed t g pc out
    → out ≡ []
unborn-Printed t g unborn out e h = h
unborn-Printed t g entered out e h = cc
unborn-Printed t g (looping i) out e h = cc
unborn-Printed t g returned out e h = cc

entry-is_unborn : (t : Task) → is_unborn (entry t) ≡ false
entry-is_unborn t = elim (Bool-cases t.sets_policy) [
  | inl sets ↦ ap (λ (b : Bool). is_unborn (if b then entered else looping 0)) sets
  | inr keeps ↦ ap (λ (b : Bool). is_unborn (if b then entered else looping 0)) keeps
]

-- `main` is behind the creation of `t`.
put-born :
    (pc : Thread → Pc) (t : Thread) (q : Pc) (main : Main)
    → is_unborn q ≡ false
    → to_come main t ≡ false
    → ((u : Thread) → is t u ≡ false → is_unborn (pc u) ≡ to_come main u)
    → (u : Thread) → is_unborn (put pc t q u) ≡ to_come main u
put-born pc first q main k e h first = cc
put-born pc first q main k e h second = h second refl
put-born pc second q main k e h first = h first refl
put-born pc second q main k e h second = cc

-- A thread that is created has printed nothing.
pub create_step :
    (p : Program) (s : State) (t : Thread) (main : Main)
    → Inv p s
    → to_come s.main t ≡ true
    → to_come main t ≡ false
    → has_first main ≡ false
    → has_second main ≡ false
    → ((u : Thread) → is t u ≡ false → is_unborn (s.pc u) ≡ to_come main u)
    → Inv p (record s { main = main; pc = put s.pc t (entry (p.task t)) })
create_step p s t main v e k one two h = record {
  printed =
      move p s.granted s.pc s.out t (entry (p.task t)) (λ u d. v.printed u)
        (entry-Printed (p.task t) (s.granted t) (shown t s.out) (
          unborn-Printed (p.task t) (s.granted t) (s.pc t) (shown t s.out) (v.born t ∙ e)
            (v.printed t)));
  born = put-born s.pc t (entry (p.task t)) main (entry-is_unborn (p.task t)) k h;
  first_back = λ q. cc;
  second_back = λ q. cc;
}

pub only_second :
    (pc : Thread → Pc)
    → is_unborn (pc second) ≡ true
    → (u : Thread) → is first u ≡ false
    → is_unborn (pc u) ≡ to_come creating_second u
only_second pc h first = λ e. cc
only_second pc h second = λ e. h

pub only_first :
    (pc : Thread → Pc)
    → is_unborn (pc first) ≡ false
    → (u : Thread) → is second u ≡ false
    → is_unborn (pc u) ≡ to_come joining_first u
only_first pc h first = λ e. h
only_first pc h second = λ e. cc

shown_other :
    (t u : Thread) (l : Line) (out : List (Thread × Line))
    → is u t ≡ false
    → shown u ((t, l) ∷ out) ≡ shown u out
shown_other t u l out e = rw e refl

shown_same :
    (t : Thread) (l : Line) (out : List (Thread × Line)) → shown t ((t, l) ∷ out) ≡ l ∷ shown t out
shown_same first l out = refl
shown_same second l out = refl

-- A thread that prints is seen by itself only.
pub print_step :
    (p : Program) (s : State) (t : Thread) (i : ℕ)
    → Inv p s
    → s.pc t ≡ looping i
    → i < (p.task t).rounds
    → Inv p (record s { pc = put s.pc t (looping (i + 1)); out = (t, (p.task t).line i) ∷ s.out })
print_step p s t i v e l =
    let before : Printed (p.task t) (s.granted t) (looping i) (shown t s.out) =
      subst (λ q. Printed (p.task t) (s.granted t) q (shown t s.out)) e (v.printed t) in
    let more = ap (◌∷◌ ((p.task t).line i)) before.0 in
    let all = shown_same t ((p.task t).line i) s.out ∙ more in
    let count : i + 1 ≡ suc i = omega arith in
    thread_step p s t (looping (i + 1)) ((t, (p.task t).line i) ∷ s.out) v (ap active e) refl
      (λ u d.
        subst (Printed (p.task u) (s.granted u) (s.pc u))
          (sym (shown_other t u ((p.task t).line i) s.out d)) (v.printed u))
      (all ∙ ap (lines (p.task t)) (sym count), omega arith, before.2)
