-- ===== src/Scheduling/Output.antt =====
-- C/sched_rr.c, C/rtsample.c and C/sched_fifo.c: what has been printed when `main` is at its end.
use linux_riscv.Prelude.{◌≡◌, refl, List, Bool, true, false, arith, ap, ◌∙◌, subst}
use linux_riscv.Scheduling.{
  Line, Task, first, second, Program, Pc, unborn, entered, looping, returned, creating_second,
  joining_first, ended, State, at_start, Step, create_first, create_second, set_policy,
  after_policy, print, leave, join_first, join_second, Reach, here, next,
}
use linux_riscv.Scheduling.Invariant.{
  shown, whole, Printed, is_unborn, is_returned, to_come, has_first, has_second, Inv, active,
  thread_step, create_step, print_step, only_second, only_first,
}

after_policy-is_unborn : (g : Bool) → is_unborn (after_policy g) ≡ false
after_policy-is_unborn true = refl
after_policy-is_unborn false = refl

after_policy-Printed :
    (t : Task) (g : Bool) (out : List Line)
    → Printed t g entered out
    → Printed t g (after_policy g) out
after_policy-Printed t true out (e, sets) = (e, omega arith, rw sets refl)
after_policy-Printed t false out (e, sets) = rw sets e

Step-Inv : (p : Program) {s t : State} → Step p s t → Inv p s → Inv p t
Step-Inv p {s} (create_first e) v =
    create_step p s first creating_second v (ap (λ m. to_come m first) e) refl refl refl
      (only_second s.pc (v.born second ∙ ap (λ m. to_come m second) e))
Step-Inv p {s} (create_second e) v =
    create_step p s second joining_first v (ap (λ m. to_come m second) e) refl refl refl
      (only_first s.pc (v.born first ∙ ap (λ m. to_come m first) e))
Step-Inv p {s} (set_policy t e) v =
    let h : Printed (p.task t) (s.granted t) entered (shown t s.out) =
      subst (λ q. Printed (p.task t) (s.granted t) q (shown t s.out)) e (v.printed t) in
    thread_step p s t (after_policy (s.granted t)) s.out v (ap active e)
      (after_policy-is_unborn (s.granted t)) (λ u d. v.printed u)
      (after_policy-Printed (p.task t) (s.granted t) (shown t s.out) h)
Step-Inv p {s} (print t i e l) v = print_step p s t i v e l
Step-Inv p {s} (leave t i e l) v =
    let h : Printed (p.task t) (s.granted t) (looping i) (shown t s.out) =
      subst (λ q. Printed (p.task t) (s.granted t) q (shown t s.out)) e (v.printed t) in
    let last : i ≡ (p.task t).rounds = omega (arith, h.1) in
    thread_step p s t returned s.out v (ap active e) refl (λ u d. v.printed u)
      (rw h.2 (rw last at h.0))
Step-Inv p {s} (join_first e b) v = record {
  printed = v.printed;
  born = λ u. rw e at (v.born u);
  first_back = λ q. ap is_returned b;
  second_back = λ q. cc;
}
Step-Inv p {s} (join_second e b) v = record {
  printed = v.printed;
  born = λ u. rw e at (v.born u);
  first_back = λ q. v.first_back (ap has_first e);
  second_back = λ q. ap is_returned b;
}

pub Reach-Inv : (p : Program) {s : State} → Reach p s → Inv p s
unfolding at_start
Reach-Inv p (here granted) = record {
  printed = λ t. refl;
  born = λ t. refl;
  first_back = λ q. cc;
  second_back = λ q. cc;
}
Reach-Inv p (next r st) = Step-Inv p st (Reach-Inv p r)

Printed-returned :
    (t : Task) (g : Bool) (pc : Pc) (out : List Line)
    → is_returned pc ≡ true
    → Printed t g pc out
    → out ≡ whole t g
Printed-returned t g unborn out e h = cc
Printed-returned t g entered out e h = cc
Printed-returned t g (looping i) out e h = cc
Printed-returned t g returned out e h = h

-- Under every schedule: when main is at its end, each thread that it has joined has printed nothing
-- if it asks for a policy that the kernel refuses it, and otherwise all its lines in order.
pub ended-whole :
    (p : Program) {s : State}
    → Reach p s
    → s.main ≡ ended
    → (shown p.joined_first s.out ≡ whole (p.task p.joined_first) (s.granted p.joined_first))
      × (shown p.joined_second s.out ≡ whole (p.task p.joined_second) (s.granted p.joined_second))
ended-whole p {s} r e =
    let v = Reach-Inv p r in
    (
      Printed-returned _ _ (s.pc p.joined_first) _ (v.first_back (ap has_first e))
          (v.printed p.joined_first),
      Printed-returned _ _ (s.pc p.joined_second) _ (v.second_back (ap has_second e))
          (v.printed p.joined_second),
    )
