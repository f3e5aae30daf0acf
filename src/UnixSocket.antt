-- ===== src/UnixSocket.antt =====
-- C/unix_socket.c and C/unix_socket_cl.c, started at any time and interleaved call by call. The name is
-- /tmp/mysock. A client that is not connected cannot write; nothing of this is tested.
pub mod Connection
pub mod Exchange
pub mod Ends
mod Tests
use linux_riscv.Prelude.{ℕ, ◌≡◌, List, [], ◌∷◌, Bool, true, false}
use linux_riscv.Messages.{client_message}

-- What stands under the name: nothing, a socket of an earlier run, or that of the server.
pub data Name : Type 0 where
  nothing old ours : Name

-- The server before `unlink`, `socket`, `bind`, `listen`, `accept`, `read`, the two calls of `close`,
-- the last `unlink`, and at its end; with the text that it has printed.
pub data Server : Type 0 where
  starting unlinked has_socket bound listening accepted : Server
  got closed ended : List ℕ → Server

-- The client before `socket`, `connect`, `write` with and without a connection, `close` with and
-- without a message sent, and at its end.
pub data Client : Type 0 where
  fresh opened connected unconnected wrote wrote_nothing gone gone_unheard : Client

pub record State : Type 0 where
  pub name : Name
  pub server : Server
  pub client : Client
  pub pending : Bool
  pub stream : List ℕ

pub begun : Name → State
begun n = record { name = n; server = starting; client = fresh; pending = false; stream = [] }

-- Whether a `connect` to the name is taken up.
abbrev pub takes : Name → Server → Bool
takes ours listening = true
takes _ _ = false

pub data Step (s : State) : State → Type 0 where
  server_unlink : s.server ≡ starting → Step s (record s { name = nothing; server = unlinked })
  server_socket : s.server ≡ unlinked → Step s (record s { server = has_socket })
  bind :
      s.server ≡ has_socket → s.name ≡ nothing → Step s (record s { name = ours; server = bound })
  listen : s.server ≡ bound → Step s (record s { server = listening })
  accept : s.server ≡ listening → s.pending ≡ true → Step s (record s { server = accepted })
  read :
      (c : ℕ) (cs : List ℕ)
      → s.server ≡ accepted
      → s.stream ≡ c ∷ cs
      → Step s (record s { server = got (c ∷ cs); stream = [] })
  end_of_file :
      s.server ≡ accepted → s.stream ≡ [] → s.client ≡ gone → Step s (record s { server = got [] })
  server_close : (t : List ℕ) → s.server ≡ got t → Step s (record s { server = closed t })
  last_unlink :
      (t : List ℕ) → s.server ≡ closed t → Step s (record s { name = nothing; server = ended t })
  client_socket : s.client ≡ fresh → Step s (record s { client = opened })
  connect :
      s.client ≡ opened
      → takes s.name s.server ≡ true
      → Step s (record s { client = connected; pending = true })
  refused :
      s.client ≡ opened → takes s.name s.server ≡ false → Step s (record s { client = unconnected })
  write : s.client ≡ connected → Step s (record s { client = wrote; stream = client_message })
  write_fails : s.client ≡ unconnected → Step s (record s { client = wrote_nothing })
  client_close : s.client ≡ wrote → Step s (record s { client = gone })
  close_unheard : s.client ≡ wrote_nothing → Step s (record s { client = gone_unheard })

pub data Reach (n : Name) : State → Type 0 where
  here : Reach n (begun n)
  next : {s t : State} → Reach n s → Step s t → Reach n t
