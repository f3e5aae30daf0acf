-- ===== src/Scheduling/Tests.antt =====
-- C/sched_fifo.c, where the real-time policy is refused and the other thread runs to its end.
use linux_riscv.Prelude.{Bool, false, ◌≡◌, ◌≤◌, ◌⊎◌, refl, arith}
use linux_riscv.Scheduling.{
  Thread, first, second, sched_fifo, normal_task, realtime_task, ended, State, at_start, Step,
  create_first, create_second, set_policy, print, leave, join_first, join_second, Reach, here, next,
}
use linux_riscv.Scheduling.Invariant.{shown, whole}
use linux_riscv.Scheduling.Output.{ended-whole}
use linux_riscv.Scheduling.Progress.{steps, Reach-ends}

abbrev only_normal : Thread → Bool
only_normal t = false

final : (s : State) × Reach sched_fifo s
unfolding at_start sched_fifo normal_task realtime_task
final =
    let r₁ = next (here only_normal) (create_first refl) in
    let r₂ = next r₁ (create_second refl) in
    let r₃ = next r₂ (set_policy second refl) in
    let r₄ = next r₃ (print first 0 refl (omega arith)) in
    let r₅ = next r₄ (print first 1 refl (omega arith)) in
    let r₆ = next r₅ (print first 2 refl (omega arith)) in
    let r₇ = next r₆ (print first 3 refl (omega arith)) in
    let r₈ = next r₇ (print first 4 refl (omega arith)) in
    let r₉ = next r₈ (leave first 5 refl (omega arith)) in
    let r₁₀ = next r₉ (join_first refl refl) in (_, next r₁₀ (join_second refl refl))

ended-whole_example :
    (shown second final.0.out ≡ whole realtime_task (final.0.granted second))
    × (shown first final.0.out ≡ whole normal_task (final.0.granted first))
unfolding final sched_fifo
ended-whole_example = ended-whole sched_fifo final.1 refl

Reach-ends_example :
    (steps final.1 ≤ 18) × ((final.0.main ≡ ended) ⊎ ((t : State) × Step sched_fifo final.0 t))
unfolding sched_fifo realtime_task normal_task
Reach-ends_example = Reach-ends sched_fifo final.1
