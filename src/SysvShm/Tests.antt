-- ===== src/SysvShm/Tests.antt =====
-- C/shm.c with two processes that have both started, and its main where every call is granted.
use linux_riscv.Prelude.{ℕ, ◌≡◌, ◌⊎◌, refl, arith, true, false, some, none, update, pos, [], ◌∷◌}
use linux_riscv.SysvShm.{
  ready, wrote, critical, Shared, lock_semaphore, Reach, start_breaks_exclusion,
}
use linux_riscv.Calls.{Oracle}
use linux_riscv.SysvShm.Recovery.{Undoable, die, death, Settled-recovers}
use linux_riscv.SysvShm.Recovery
use linux_riscv.SysvShm.Main.{segment, guarded, held, main-held}
use linux_riscv.SysvShm.Main

start_breaks_exclusion_example :
    (s : Shared) × Reach s × (critical (s.pc 1) ≡ true) × (critical (s.pc 2) ≡ true)
start_breaks_exclusion_example = start_breaks_exclusion 1 2 (λ e. omega (arith, e))

abbrev both_started : Shared
both_started = record { value = 1; text = none; pc = λ i. ready }

abbrev started : Undoable
started = record { shared = both_started; owed = λ i. false }

-- Process 2 dies inside, then process 1 locks.
abbrev one_died : Undoable
one_died =
    let u =
      die 2
        (record { shared = lock_semaphore 2 both_started; owed = update started.owed 2 true }) in
    record { shared = lock_semaphore 1 u.shared; owed = update u.owed 1 true }

recovery : Recovery.Settled started one_died
unfolding lock_semaphore die
recovery =
    Recovery.next
      (Recovery.next (Recovery.next Recovery.here (Recovery.lock 2 refl (omega arith))) (death 2))
      (Recovery.lock 1 refl (omega arith))

Settled-recovers_example :
    ((i j : ℕ)
      → critical (one_died.shared.pc i) ≡ true
      → critical (one_died.shared.pc j) ≡ true
      → i ≡ j)
    × ((i : ℕ) → one_died.shared.pc i ≡ wrote → one_died.shared.text ≡ some i)
    × (((i : ℕ) → critical (one_died.shared.pc i) ≡ false) → one_died.shared.value ≡ 1)
    × ((i : ℕ) → critical (one_died.shared.pc i) ≡ true → (die i one_died).shared.value ≡ 1)
Settled-recovers_example = Settled-recovers refl (λ i. refl) (λ i. refl) recovery

abbrev grants : Oracle Main.Call
grants tr c = pos 3

main-held_example :
    let r = Main.main grants [] in
    (guarded r.1 ≡ true)
    × (((r.0 ≡ pos 0) × ((held r.1 ≡ some []) ⊎ (held r.1 ≡ some (segment ∷ []))))
        ⊎ ((r.0 ≡ pos 1)
            × ((held r.1 ≡ some [])
                ⊎ (held r.1 ≡ some (segment ∷ []))
                ⊎ (held r.1 ≡ some (Main.lock ∷ segment ∷ [])))))
main-held_example = main-held grants
