-- ===== src/Payment/Tests.antt =====
-- C/epoll_server.c with C/payment.c on concrete inputs: two clients pay.
use linux_riscv.Prelude.{
  ℕ, ◌≡◌, refl, inr, List, [], ◌∷◌, ◌++◌, some, arith, codes, replicate, pos, true, length, ◌*◌,
  get_elem?,
}
use linux_riscv.Buffer.{failed, bytes, text}
use linux_riscv.Epoll.{Event, run, paid, payments}
use linux_riscv.Payment.{Job, service, all_bytes}
use linux_riscv.Payment.Orders.{IsDone, service-run}

abbrev array : List ℕ
array = replicate 8 0

abbrev session : List Event
session =
    record { fd = 3; connfd = pos 7; added = true; received = failed }
    ∷ record { fd = 7; connfd = pos 9; added = true; received = bytes (codes "P10") }
    ∷ record { fd = 7; connfd = pos 9; added = true; received = bytes (codes "Lx") }
    ∷ record { fd = 7; connfd = pos 9; added = true; received = bytes (codes "P25") }
    ∷ []

service-run_example :
    (jobs : List Job) × (service array (all_bytes (paid (run 3 session)) ++ bytes [] ∷ [])
      ≡ some jobs)
    × (length jobs ≡ 22 * length (payments 3 session))
    × ((i : ℕ) (m : List ℕ)
        → get_elem? (payments 3 session) i ≡ some m
        → IsDone (text m) jobs (22 * i))
service-run_example =
    service-run array 3 session (bytes [])
      (omega arith, omega arith, (omega arith, omega arith, tt)) (inr refl)
