-- ===== src/UnixSocket/Ends.antt =====
-- C/unix_socket.c and C/unix_socket_cl.c: how far the processes come.
use linux_riscv.Prelude.{
  ℕ, ◌+◌, ◌≤◌, ◌<◌, ◌≡◌, refl, ◌⊎◌, inl, inr, List, ◌∷◌, true, false, arith, ap, Bool-cases, sym,
  subst,
}
use linux_riscv.Messages.{client_message}
use linux_riscv.UnixSocket.{
  Name, Server, starting, unlinked, has_socket, bound, listening, accepted, got, closed, ended,
  Client, fresh, opened, connected, unconnected, wrote, wrote_nothing, gone, gone_unheard, State,
  begun, takes, Step, server_unlink, server_socket, bind, listen, accept, read, end_of_file,
  server_close, last_unlink, client_socket, connect, refused, write, write_fails, client_close,
  close_unheard, Reach, here, next,
}
use linux_riscv.UnixSocket.Connection.{
  InFlight, has_sent, is_unheard, Waiting, Expects, Named, Inv, at_client,
}
use linux_riscv.UnixSocket.Exchange.{Reach-Inv}

-- Both are at their ends and the message was printed; or the client is at its end and was not
-- connected, and the server waits in `accept`.
pub data Over : Server → Client → Type 0 where
  delivered : Over (ended client_message) gone
  lost : Over listening gone_unheard

is_gone_unheard :
    (c : Client) → (c ≡ gone) ⊎ (c ≡ gone_unheard) → is_unheard c ≡ true → c ≡ gone_unheard
is_gone_unheard c (inl e) h = cc (h, ap is_unheard e)
is_gone_unheard c (inr e) h = e

is_gone : (c : Client) → (c ≡ gone) ⊎ (c ≡ gone_unheard) → has_sent c ≡ true → c ≡ gone
is_gone c (inl e) h = e
is_gone c (inr e) h = cc (h, ap has_sent e)

message_there :
    (c : Client) (st : List ℕ)
    → (c ≡ gone) ⊎ (c ≡ gone_unheard)
    → InFlight c st
    → (b : ℕ) × (bs : List ℕ) × (st ≡ b ∷ bs)
unfolding client_message
message_there c st (inl e) h = (_, _, subst (λ d. InFlight d st) e h)
message_there c st (inr e) h = let none_there : false ≡ true = subst (λ d. InFlight d st) e h in cc

-- The server's turn, where the client is at its end.
server_moves :
    (s : State) (q : Server) (c : Client)
    → s.server ≡ q
    → s.client ≡ c
    → (c ≡ gone) ⊎ (c ≡ gone_unheard)
    → Expects q s.pending c s.stream
    → Named q s.name
    → ((t : State) × Step s t) ⊎ Over q c
server_moves s starting c e k h x n = inl (_, server_unlink e)
server_moves s unlinked c e k h x n = inl (_, server_socket e)
server_moves s has_socket c e k h x n = inl (_, bind e n)
server_moves s bound c e k h x n = inl (_, listen e)
server_moves s listening c e k h x n = elim (Bool-cases s.pending) [
  | inl p ↦ inl (_, accept e p)
  | inr p ↦
      let y : Waiting false c s.stream = subst (λ b. Waiting b c s.stream) p x in
      let unheard = is_gone_unheard c h y.1 in inr (subst (Over listening) (sym unheard) lost)
]
server_moves s accepted c e k h x n =
    let (b, bs, there) = message_there c s.stream h x in inl (_, read b bs e there)
server_moves s (got t) c e k h x n = inl (_, server_close t e)
server_moves s (closed t) c e k h x n = inl (_, last_unlink t e)
server_moves s (ended t) c e k h (x, y) n =
    let heard = is_gone c h y in
    inr (
      subst (λ d. Over (ended t) d) (sym heard)
        (subst (λ u. Over (ended u) gone) (sym x) delivered))

client_moves :
    (s : State) (c : Client) → s.client ≡ c → Inv s → ((t : State) × Step s t) ⊎ Over s.server c
client_moves s fresh e v = inl (_, client_socket e)
client_moves s opened e v = elim (Bool-cases (takes s.name s.server)) [
  | inl on ↦ inl (_, connect e on)
  | inr off ↦ inl (_, refused e off)
]
client_moves s connected e v = inl (_, write e)
client_moves s unconnected e v = inl (_, write_fails e)
client_moves s wrote e v = inl (_, client_close e)
client_moves s wrote_nothing e v = inl (_, close_unheard e)
client_moves s gone e v = server_moves s s.server gone refl e (inl refl) (at_client e v) v.named
client_moves s gone_unheard e v =
    server_moves s s.server gone_unheard refl e (inr refl) (at_client e v) v.named

abbrev server_left : Server → ℕ
server_left starting = 8
server_left unlinked = 7
server_left has_socket = 6
server_left bound = 5
server_left listening = 4
server_left accepted = 3
server_left (got t) = 2
server_left (closed t) = 1
server_left (ended t) = 0

abbrev client_left : Client → ℕ
client_left fresh = 4
client_left opened = 3
client_left connected = 2
client_left unconnected = 2
client_left wrote = 1
client_left wrote_nothing = 1
client_left gone = 0
client_left gone_unheard = 0

abbrev left : State → ℕ
left s = server_left s.server + client_left s.client

Step-left : {s t : State} → Step s t → left t < left s
Step-left (server_unlink e) = rw e (omega arith)
Step-left (server_socket e) = rw e (omega arith)
Step-left (bind e n) = rw e (omega arith)
Step-left (listen e) = rw e (omega arith)
Step-left (accept e p) = rw e (omega arith)
Step-left (read c cs e st) = rw e (omega arith)
Step-left (end_of_file e st g) = rw e (omega arith)
Step-left (server_close t e) = rw e (omega arith)
Step-left (last_unlink t e) = rw e (omega arith)
Step-left (client_socket e) = rw e (omega arith)
Step-left (connect e k) = rw e (omega arith)
Step-left (refused e k) = rw e (omega arith)
Step-left (write e) = rw e (omega arith)
Step-left (write_fails e) = rw e (omega arith)
Step-left (client_close e) = rw e (omega arith)
Step-left (close_unheard e) = rw e (omega arith)

abbrev pub steps : {n : Name} {s : State} → Reach n s → ℕ
steps here = 0
steps (next r st) = steps r + 1

Reach-left : (n : Name) {s : State} (r : Reach n s) → steps r + left s ≤ 12
unfolding begun
Reach-left n here = omega arith
Reach-left n (next r st) = omega (arith, Reach-left n r, Step-left st)

-- Whatever stands under the name at first, every history of unix_socket.c and its client has at
-- most twelve steps; where no step can be made, either both are at their ends and the server has
-- printed the message of the client, or the client is at its end without a connection and the
-- server waits for one.
pub Reach-Over :
    (n : Name) {s : State} (r : Reach n s)
    → (steps r ≤ 12) × (((t : State) × Step s t) ⊎ Over s.server s.client)
Reach-Over n {s} r = (omega (arith, Reach-left n r), client_moves s s.client refl (Reach-Inv n r))
