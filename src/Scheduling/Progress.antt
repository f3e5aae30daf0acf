-- ===== src/Scheduling/Progress.antt =====
-- C/sched_rr.c, C/rtsample.c and C/sched_fifo.c: under every schedule `main` comes to its end.
use linux_riscv.Prelude.{
  ℕ, ◌+◌, ◌-◌, ◌≡◌, ◌≤◌, ◌<◌, refl, ◌⊎◌, inl, inr, true, false, arith, ap, Bool-cases, ◌∙◌,
  if◌then◌else◌, ltb, ltb→lt, Bool,
}
use linux_riscv.Scheduling.{
  Task, Thread, first, second, Program, Pc, unborn, entered, looping, returned, Main,
  creating_first, creating_second, joining_first, joining_second, ended, State, at_start, put, Step,
  create_first, create_second, set_policy, after_policy, print, leave, join_first, join_second,
  Reach, here, next,
}
use linux_riscv.Scheduling.Invariant.{is_unborn, to_come, Inv}
use linux_riscv.Scheduling.Output.{Reach-Inv}

-- The steps that a thread and `main` can still make.
abbrev thread_left : Task → Pc → ℕ
thread_left t unborn = t.rounds + 2
thread_left t entered = t.rounds + 2
thread_left t (looping i) = t.rounds - i + 1
thread_left t returned = 0

abbrev main_left : Main → ℕ
main_left creating_first = 4
main_left creating_second = 3
main_left joining_first = 2
main_left joining_second = 1
main_left ended = 0

abbrev left : Program → State → ℕ
left p s =
    main_left s.main
    + thread_left (p.task first) (s.pc first)
    + thread_left (p.task second) (s.pc second)

chosen-left :
    (t : Task) (b : Bool) → thread_left t (if b then entered else looping 0) ≤ t.rounds + 2
chosen-left t true = omega arith
chosen-left t false = omega arith

after_policy-left : (t : Task) (g : Bool) → thread_left t (after_policy g) ≤ t.rounds + 1
after_policy-left t true = omega arith
after_policy-left t false = omega arith

unborn-left : (t : Task) (q : Pc) → is_unborn q ≡ true → thread_left t q ≡ t.rounds + 2
unborn-left t unborn e = refl
unborn-left t entered e = cc
unborn-left t (looping i) e = cc
unborn-left t returned e = cc

-- A step of thread `t`.
put-left :
    (p : Program) (s : State) (t : Thread) (q : Pc)
    → thread_left (p.task t) q < thread_left (p.task t) (s.pc t)
    → main_left s.main
        + thread_left (p.task first) (put s.pc t q first)
        + thread_left (p.task second) (put s.pc t q second)
      < left p s
put-left p s first q h = omega arith
put-left p s second q h = omega arith

Step-left : (p : Program) {s t : State} → Inv p s → Step p s t → left p t < left p s
Step-left p {s} v (create_first e) =
    let quiet =
      unborn-left (p.task first) (s.pc first) (v.born first ∙ ap (λ m. to_come m first) e) in
    rw (e, quiet) (omega (arith, chosen-left (p.task first) (p.task first).sets_policy))
Step-left p {s} v (create_second e) =
    let quiet =
      unborn-left (p.task second) (s.pc second) (v.born second ∙ ap (λ m. to_come m second) e) in
    rw (e, quiet) (omega (arith, chosen-left (p.task second) (p.task second).sets_policy))
Step-left p {s} v (set_policy t e) =
    put-left p s t (after_policy (s.granted t))
      (rw e (omega (arith, after_policy-left (p.task t) (s.granted t))))
Step-left p {s} v (print t i e l) = put-left p s t (looping (i + 1)) (rw e (omega arith))
Step-left p {s} v (leave t i e l) = put-left p s t returned (rw e (omega arith))
Step-left p {s} v (join_first e b) = rw e (omega arith)
Step-left p {s} v (join_second e b) = rw e (omega arith)

abbrev pub steps : {p : Program} {s : State} → Reach p s → ℕ
steps (here granted) = 0
steps (next r st) = steps r + 1

Reach-left :
    (p : Program) {s : State} (r : Reach p s)
    → steps r + left p s ≤ (p.task first).rounds + (p.task second).rounds + 8
unfolding at_start
Reach-left p (here granted) = omega arith
Reach-left p (next r st) = omega (arith, Reach-left p r, Step-left p (Reach-Inv p r) st)

-- A thread that is there has returned, or can make a step.
thread_moves :
    (p : Program) (s : State) (t : Thread) (q : Pc)
    → s.pc t ≡ q
    → is_unborn q ≡ false
    → (s.pc t ≡ returned) ⊎ ((u : State) × Step p s u)
thread_moves p s t unborn e h = cc
thread_moves p s t entered e h = inr (_, set_policy t e)
thread_moves p s t (looping i) e h = elim (Bool-cases (ltb i (p.task t).rounds)) [
  | inl more ↦ inr (_, print t i e (ltb→lt _ _ more))
  | inr last ↦ inr (_, leave t i e (ground arith))
]
thread_moves p s t returned e h = inl e

main_moves :
    (p : Program) (s : State) (main : Main)
    → s.main ≡ main
    → Inv p s
    → (s.main ≡ ended) ⊎ ((u : State) × Step p s u)
main_moves p s creating_first e v = inr (_, create_first e)
main_moves p s creating_second e v = inr (_, create_second e)
main_moves p s joining_first e v =
    let t = p.joined_first in
    elim (thread_moves p s t (s.pc t) refl (v.born t ∙ ap (λ m. to_come m t) e)) [
      | inl back ↦ inr (_, join_first e back)
      | inr more ↦ inr more
    ]
main_moves p s joining_second e v =
    let t = p.joined_second in
    elim (thread_moves p s t (s.pc t) refl (v.born t ∙ ap (λ m. to_come m t) e)) [
      | inl back ↦ inr (_, join_second e back)
      | inr more ↦ inr more
    ]
main_moves p s ended e v = inl e

-- Every history of main and its two threads has at most as many steps as they have rounds, and
-- eight more, and main is at its end or a step can be made.
pub Reach-ends :
    (p : Program) {s : State} (r : Reach p s)
    → (steps r ≤ (p.task first).rounds + (p.task second).rounds + 8)
      × ((s.main ≡ ended) ⊎ ((t : State) × Step p s t))
unfolding at_start
Reach-ends p {s} r = (omega (arith, Reach-left p r), main_moves p s s.main refl (Reach-Inv p r))
