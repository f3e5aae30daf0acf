-- ===== src/UnixSocket/Connection.antt =====
-- C/unix_socket.c and C/unix_socket_cl.c: how a client on the connection, and what it has sent, may
-- change.
use linux_riscv.Prelude.{ℕ, ◌≡◌, ◌≢◌, refl, List, [], ◌∷◌, Bool, true, false, subst}
use linux_riscv.Messages.{client_message}
use linux_riscv.UnixSocket.{
  Name, nothing, old, ours, Server, starting, unlinked, has_socket, bound, listening, accepted, got,
  closed, ended, Client, fresh, opened, connected, unconnected, wrote, wrote_nothing, gone,
  gone_unheard, State, takes,
}

-- A client on whose connection nothing has been read, and what it has sent.
abbrev pub InFlight : Client → List ℕ → Type 0
InFlight connected st = st ≡ []
InFlight wrote st = st ≡ client_message
InFlight gone st = st ≡ client_message
InFlight c st = false ≡ true

abbrev pub has_sent : Client → Bool
has_sent wrote = true
has_sent gone = true
has_sent _ = false

abbrev pub is_unheard : Client → Bool
is_unheard fresh = true
is_unheard opened = true
is_unheard unconnected = true
is_unheard wrote_nothing = true
is_unheard gone_unheard = true
is_unheard _ = false

-- Before `accept`.
abbrev pub Waiting : Bool → Client → List ℕ → Type 0
Waiting true c st = InFlight c st
Waiting false c st = (st ≡ []) × (is_unheard c ≡ true)

abbrev pub Expects : Server → Bool → Client → List ℕ → Type 0
Expects (got t) p c st = (t ≡ client_message) × (has_sent c ≡ true)
Expects (closed t) p c st = (t ≡ client_message) × (has_sent c ≡ true)
Expects (ended t) p c st = (t ≡ client_message) × (has_sent c ≡ true)
Expects accepted p c st = InFlight c st
Expects listening p c st = Waiting p c st
Expects _ p c st = (p ≡ false) × (st ≡ []) × (is_unheard c ≡ true)

-- What stands under the name, by the server.
abbrev pub Named : Server → Name → Type 0
Named starting n = true ≡ true
Named unlinked n = n ≡ nothing
Named has_socket n = n ≡ nothing
Named (ended t) n = n ≡ nothing
Named _ n = n ≡ ours

pub record Inv (s : State) : Type 0 where
  pub expects : Expects s.server s.pending s.client s.stream
  pub named : Named s.server s.name

pub nothing-message : [] ≢ client_message
unfolding client_message
nothing-message e = cc

pub at_server :
    {s : State} {q : Server}
    → s.server ≡ q
    → Inv s
    → Expects q s.pending s.client s.stream × Named q s.name
at_server {s} e v = (
  subst (λ q. Expects q s.pending s.client s.stream) e v.expects,
  subst (λ q. Named q s.name) e v.named,
)

pub at_client :
    {s : State} {c : Client} → s.client ≡ c → Inv s → Expects s.server s.pending c s.stream
at_client {s} e v = subst (λ c. Expects s.server s.pending c s.stream) e v.expects

-- A step of the client that sends nothing and does not connect.
pub client_move :
    (q : Server) (p : Bool) (c d : Client) (st : List ℕ)
    → (InFlight c st → InFlight d st)
    → (is_unheard c ≡ true → is_unheard d ≡ true)
    → (has_sent c ≡ true → has_sent d ≡ true)
    → Expects q p c st
    → Expects q p d st
client_move starting p c d st f u h (a, b, x) = (a, b, u x)
client_move unlinked p c d st f u h (a, b, x) = (a, b, u x)
client_move has_socket p c d st f u h (a, b, x) = (a, b, u x)
client_move bound p c d st f u h (a, b, x) = (a, b, u x)
client_move listening true c d st f u h x = f x
client_move listening false c d st f u h (a, x) = (a, u x)
client_move accepted p c d st f u h x = f x
client_move (got t) p c d st f u h (a, x) = (a, h x)
client_move (closed t) p c d st f u h (a, x) = (a, h x)
client_move (ended t) p c d st f u h (a, x) = (a, h x)

pub client_writes :
    (q : Server) (p : Bool) (st : List ℕ)
    → Expects q p connected st
    → Expects q p wrote client_message
client_writes starting p st (a, b, x) = cc
client_writes unlinked p st (a, b, x) = cc
client_writes has_socket p st (a, b, x) = cc
client_writes bound p st (a, b, x) = cc
client_writes listening true st x = refl
client_writes listening false st (a, x) = cc
client_writes accepted p st x = refl
client_writes (got t) p st (a, x) = cc
client_writes (closed t) p st (a, x) = cc
client_writes (ended t) p st (a, x) = cc

pub takes-listening : (n : Name) (q : Server) → takes n q ≡ true → q ≡ listening
takes-listening nothing q e = cc
takes-listening old q e = cc
takes-listening ours listening e = refl
takes-listening ours starting e = cc
takes-listening ours unlinked e = cc
takes-listening ours has_socket e = cc
takes-listening ours bound e = cc
takes-listening ours accepted e = cc
takes-listening ours (got t) e = cc
takes-listening ours (closed t) e = cc
takes-listening ours (ended t) e = cc

pub client_connects : (p : Bool) (st : List ℕ) → Waiting p opened st → st ≡ []
client_connects true st x = cc
client_connects false st (a, x) = a

pub waits_on : (p : Bool) (c : Client) (st : List ℕ) → p ≡ true → Waiting p c st → InFlight c st
waits_on true c st e x = x
waits_on false c st e x = cc

-- What a read that finds bytes brings.
pub reads_message :
    (c : Client) (b : ℕ) (bs : List ℕ)
    → InFlight c (b ∷ bs)
    → (b ∷ bs ≡ client_message) × (has_sent c ≡ true)
reads_message connected b bs x = cc
reads_message wrote b bs x = (x, refl)
reads_message gone b bs x = (x, refl)
reads_message fresh b bs x = cc
reads_message opened b bs x = cc
reads_message unconnected b bs x = cc
reads_message wrote_nothing b bs x = cc
reads_message gone_unheard b bs x = cc
