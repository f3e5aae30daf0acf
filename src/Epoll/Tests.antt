-- ===== src/Epoll/Tests.antt =====
-- C/epoll_server.c on concrete inputs: a client connects, pays and leaves.
use linux_riscv.Prelude.{ℕ, ◌≡◌, List, [], ◌∷◌, codes}
use linux_riscv.Buffer.{failed, bytes}
use linux_riscv.Epoll.{Event, run, paid, replies, payments, messages, run-served}
use linux_riscv.Prelude.{pos, true}

abbrev session : List Event
session =
    record { fd = 3; connfd = pos 7; added = true; received = failed }
    ∷ record { fd = 7; connfd = pos 9; added = true; received = bytes (codes "P42") }
    ∷ record { fd = 7; connfd = pos 9; added = true; received = bytes [] }
    ∷ []

run-served_example :
    (paid (run 3 session) ≡ payments 3 session)
    × ((fd : ℕ) → replies fd (run 3 session) ≡ messages 3 fd session)
run-served_example = run-served 3 session
