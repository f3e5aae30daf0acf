-- ===== src/PosixShm/Tests.antt =====
-- One worker takes its whole turn, and a second one enters.
use linux_riscv.Prelude.{ℕ, ◌+◌, ◌-◌, ◌≡◌, refl, arith, true, some, update}
use linux_riscv.PosixShm.{
  entered, written, loaded, stored, critical, Shared, initialized, wait, print, load, store, Reach,
  here, next, Reach-counted,
}
use linux_riscv.PosixShm.{done}
use linux_riscv.PosixShm.Progress.{Leads, Reach-done}
use linux_riscv.PosixShm.Setup.{
  Call, Names, absent, empty, init, worker, workers, blocked, after_workers, init-workers,
}
use linux_riscv.PosixShm.Sequential.{names_of, AllDone, workers-Leads}
use linux_riscv.Prelude.{List, pos, Bool, [], ◌∷◌, suc, none}

abbrev after_wait : Shared
after_wait = record initialized {
  value = initialized.value - 1;
  pc = update initialized.pc 3 entered;
}

abbrev after_print : Shared
after_print = record after_wait {
  text = some (3, after_wait.count);
  pc = update after_wait.pc 3 written;
}

abbrev after_load : Shared
after_load = record after_print { pc = update after_print.pc 3 (loaded after_print.count) }

abbrev after_store : Shared
after_store = record after_load { count = 0 + 1; pc = update after_load.pc 3 stored }

history : Reach 1 after_store
unfolding initialized
history =
    next
      (next (next (next here (wait 3 refl (omega arith)) refl) (print 3 refl) refl) (load 3 refl)
        refl)
      (store 3 0 refl) refl

Reach-counted_example :
    (after_store.count ≡ 1)
    × ((i j : ℕ) → critical (after_store.pc i) ≡ true → critical (after_store.pc j) ≡ true → i ≡ j)
Reach-counted_example = Reach-counted history

-- The worker that has stored still posts, and one that has not begun can finish too.
Reach-done_example : (t : Shared) × Leads after_store t × (t.pc 5 ≡ done)
Reach-done_example = Reach-done history 5

abbrev grant_all : Call → Bool
grant_all c = true

-- A run in which the semaphore was left taken.
abbrev left_taken : Names
left_taken = record { segment = absent; semaphore = some 0 }

init-workers_example :
    ((init grant_all left_taken).0 ≡ pos 0)
    × (left_taken.semaphore ≡ some 0
        → (i : ℕ) → worker grant_all i (init grant_all left_taken).1 ≡ blocked)
    × (left_taken.semaphore ≡ none
        → (is : List ℕ)
        → workers grant_all is (init grant_all left_taken).1 ≡ some (after_workers 0 empty is))
    × ((v : ℕ)
        → left_taken.semaphore ≡ some (suc v)
        → (is : List ℕ)
        → workers grant_all is (init grant_all left_taken).1 ≡ some (after_workers v empty is))
init-workers_example = init-workers grant_all (λ c. refl) left_taken

workers-Leads_example :
    (t : Shared) × Leads initialized t
    × AllDone t.pc (1 ∷ 2 ∷ [])
    × (workers (λ c. true) (1 ∷ 2 ∷ []) (names_of initialized) ≡ some (names_of t))
unfolding initialized
workers-Leads_example =
    workers-Leads (λ c. true) (λ c. refl) initialized 0 (1 ∷ 2 ∷ []) refl (refl, (refl, tt))
