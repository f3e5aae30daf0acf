-- ===== src/Server/Tests.antt =====
-- C/server_tcp.c and C/server_unix.c on concrete inputs.
use linux_riscv.Prelude.{ℕ, ◌≡◌, refl, List, true, codes, replicate}
use linux_riscv.Server.{buf_size, tcp_response, unix_response}
use linux_riscv.Server.Reap.{
  Children, no_children, outside, Reach, here, next, fork as fork_child, exit, IsCollected,
  Reach-IsCollected,
}

abbrev array : List ℕ
array = replicate buf_size 0

-- A client that sends 1024 bytes.
abbrev flood : List ℕ
flood = replicate buf_size 65

abbrev pid : List ℕ
pid = codes "7"

tcp_response_test :
    tcp_response (codes "7")
    ≡ codes "HTTP/1.1 200 OK\r\nContent-Type: text/plain\r\n\r\nHello! Served by PID: 7\n"
unfolding tcp_response
tcp_response_test = refl

unix_response_test : unix_response (codes "7") ≡ codes "Hello! UNIX socket, Served by PID: 7\n"
unfolding unix_response
unix_response_test = refl

-- Two clients end, and their signals are merged.
abbrev two_gone : Children
two_gone = record { running = 0; zombies = 2; pending = true; handler = outside }

two_gone_history : Reach two_gone
unfolding no_children
two_gone_history =
    next (next (next (next here (fork_child refl)) (fork_child refl)) (exit 1 refl)) (exit 0 refl)

Reach-IsCollected_example : (t : Children) × IsCollected two_gone t
Reach-IsCollected_example = Reach-IsCollected two_gone_history
