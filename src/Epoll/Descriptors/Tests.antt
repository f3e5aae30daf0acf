-- ===== src/Epoll/Descriptors/Tests.antt =====
-- C/epoll_server.c on concrete inputs: clients that epoll takes or does not take.
use linux_riscv.Prelude.{
  ℕ, ◌≡◌, List, [], ◌∷◌, Bool, refl, ◌==◌, ◌||◌, leb, pos, negsuc, true, false, arith,
}
use linux_riscv.Buffer.{failed, bytes}
use linux_riscv.Epoll.{Event, handle, serve, disconnect}
use linux_riscv.Epoll.Descriptors.{
  Descriptors, IsConsistent, Occur, left_out, serve_event, serve_events, accepted, open_client,
  perform, perform_all, serve_events-IsConsistent,
}

-- The standard descriptors, and those of the payment process and of epoll; epoll does not take the
-- second client, and the third `accept` fails.
abbrev own : ℕ → Bool
own fd = leb fd 2 || fd == 4 || fd == 5

abbrev at_start : Descriptors
at_start = record { is_open = λ fd. fd == 3 || own fd; is_watched = λ fd. fd == 3 }

abbrev accepts : List Event
accepts =
    record { fd = 3; connfd = pos 7; added = true; received = failed }
    ∷ record { fd = 3; connfd = pos 8; added = false; received = failed }
    ∷ record { fd = 3; connfd = negsuc 0; added = false; received = failed }
    ∷ record { fd = 7; connfd = pos 9; added = true; received = bytes [] }
    ∷ []

own-apart : (fd : ℕ) → own fd ≡ true → (fd == 3) ≡ false
own-apart fd h = ground arith

accepts-Occur : Occur 3 accepts at_start
unfolding serve_event handle serve disconnect accepted open_client perform_all perform
accepts-Occur = (refl, refl, (refl, refl, (refl, tt, (refl, refl, tt))))

serve_events-IsConsistent_example :
    IsConsistent 3 (left_out 3 accepts own) (serve_events 3 accepts at_start)
serve_events-IsConsistent_example =
    serve_events-IsConsistent 3 own accepts at_start accepts-Occur
      (record { listening = refl; same = λ fd. refl; apart = own-apart })
