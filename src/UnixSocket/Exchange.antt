-- ===== src/UnixSocket/Exchange.antt =====
-- C/unix_socket.c and C/unix_socket_cl.c: what is on the connection
-- and under the name, at every point.
use linux_riscv.Prelude.{refl, true, ◌∙◌, sym, subst}
use linux_riscv.UnixSocket.{
  Name, fresh, opened, connected, unconnected, wrote, wrote_nothing, gone, gone_unheard, State,
  begun, Step, server_unlink, server_socket, bind, listen, accept, read, end_of_file, server_close,
  last_unlink, client_socket, connect, refused, write, write_fails, client_close, close_unheard,
  Reach, here, next,
}
use linux_riscv.UnixSocket.Connection.{
  InFlight, Waiting, Expects, Inv, nothing-message, at_server, at_client, client_move,
  client_writes, takes-listening, client_connects, waits_on, reads_message,
}

Step-Inv : {s t : State} → Step s t → Inv s → Inv t
Step-Inv {s} (server_unlink e) v =
    let (x, n) = at_server e v in record { expects = x; named = refl }
Step-Inv {s} (server_socket e) v = let (x, n) = at_server e v in record { expects = x; named = n }
Step-Inv {s} (bind e n) v = let (x, m) = at_server e v in record { expects = x; named = refl }
Step-Inv {s} (listen e) v =
    let ((a, b, x), n) = at_server e v in
    record { expects = subst (λ p. Waiting p s.client s.stream) (sym a) (b, x); named = n }
Step-Inv {s} (accept e p) v =
    let (x, n) = at_server e v in
    record { expects = waits_on s.pending s.client s.stream p x; named = n }
Step-Inv {s} (read c cs e st) v =
    let (x, n) = at_server e v in
    record { expects = reads_message s.client c cs (subst (InFlight s.client) st x); named = n }
Step-Inv {s} (end_of_file e st g) v =
    let (x, n) = at_server e v in
    let y : InFlight gone s.stream = subst (λ c. InFlight c s.stream) g x in
    absurd (nothing-message (sym st ∙ y))
Step-Inv {s} (server_close t e) v = let (x, n) = at_server e v in record { expects = x; named = n }
Step-Inv {s} (last_unlink t e) v =
    let (x, n) = at_server e v in record { expects = x; named = refl }
Step-Inv {s} (client_socket e) v = record {
  expects =
      client_move s.server s.pending fresh opened s.stream (λ x. cc) (λ x. refl) (λ x. cc)
        (at_client e v);
  named = v.named;
}
Step-Inv {s} (connect e k) v =
    let on = takes-listening s.name s.server k in
    let x = at_client e v in
    let y : Waiting s.pending opened s.stream =
      subst (λ q. Expects q s.pending opened s.stream) on x in
    record {
      expects =
          subst (λ q. Expects q true connected s.stream) (sym on)
            (client_connects s.pending s.stream y);
      named = v.named;
    }
Step-Inv {s} (refused e k) v = record {
  expects =
      client_move s.server s.pending opened unconnected s.stream (λ x. cc) (λ x. refl) (λ x. cc)
        (at_client e v);
  named = v.named;
}
Step-Inv {s} (write e) v = record {
  expects = client_writes s.server s.pending s.stream (at_client e v);
  named = v.named;
}
Step-Inv {s} (write_fails e) v = record {
  expects =
      client_move s.server s.pending unconnected wrote_nothing s.stream (λ x. cc) (λ x. refl)
        (λ x. cc) (at_client e v);
  named = v.named;
}
Step-Inv {s} (client_close e) v = record {
  expects =
      client_move s.server s.pending wrote gone s.stream (λ x. x) (λ x. cc) (λ x. refl)
        (at_client e v);
  named = v.named;
}
Step-Inv {s} (close_unheard e) v = record {
  expects =
      client_move s.server s.pending wrote_nothing gone_unheard s.stream (λ x. cc) (λ x. refl)
        (λ x. cc) (at_client e v);
  named = v.named;
}

pub Reach-Inv : (n : Name) {s : State} → Reach n s → Inv s
unfolding begun
Reach-Inv n here = record { expects = (refl, refl, refl); named = refl }
Reach-Inv n (next r st) = Step-Inv st (Reach-Inv n r)
