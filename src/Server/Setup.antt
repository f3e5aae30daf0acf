-- ===== src/Server/Setup.antt =====
-- C/server_tcp.c and C/server_unix.c up to their loops: what stands under the address of the server.
-- `bind` fails where something stands there; a TCP socket that is not bound is given another port by
-- `listen`, and one of the UNIX family cannot listen. Nothing of this is tested.
use linux_riscv.Prelude.{◌≡◌, ◌≢◌, ◌↔◌, refl}

-- Port 18080, or the name /tmp/my_socket.
pub data Address : Type 0 where
  free taken ours : Address

pub data Socket : Type 0 where
  unbound bound listening_here listening_elsewhere deaf : Socket

pub record Endpoint : Type 0 where
  pub address : Address
  pub socket : Socket

abbrev bind : Endpoint → Endpoint
bind e = elim e.address [ free ↦ record { address = ours; socket = bound } | _ ↦ e ]

abbrev unlink : Endpoint → Endpoint
unlink e = record e { address = free }

abbrev listen_tcp : Endpoint → Endpoint
listen_tcp e = elim e.socket [
  | unbound ↦ record e { socket = listening_elsewhere }
  | bound ↦ record e { socket = listening_here }
  | _ ↦ e
]

abbrev listen_unix : Endpoint → Endpoint
listen_unix e = elim e.socket [
  | unbound ↦ record e { socket = deaf }
  | bound ↦ record e { socket = listening_here }
  | _ ↦ e
]

pub tcp_setup : Address → Endpoint
tcp_setup a = listen_tcp (bind (record { address = a; socket = unbound }))

pub unix_setup : Address → Endpoint
unix_setup a = listen_unix (bind (unlink (record { address = a; socket = unbound })))

-- The UNIX server takes its name over from whatever stood there; the TCP server listens on its port
-- exactly when nothing stood there, and on another one otherwise.
pub setup_iff :
    (a : Address)
    → (unix_setup a ≡ record { address = ours; socket = listening_here })
      × (((tcp_setup a).socket ≡ listening_here) ↔ (a ≡ free))
      × (((tcp_setup a).socket ≡ listening_elsewhere) ↔ (a ≢ free))
unfolding unix_setup tcp_setup
setup_iff free = (refl, ((λ e. refl), λ e. refl), ((λ e. cc), λ h. absurd (h refl)))
setup_iff taken = (refl, ((λ e. cc), λ e. cc), ((λ e q. cc), λ h. refl))
setup_iff ours = (refl, ((λ e. cc), λ e. cc), ((λ e q. cc), λ h. refl))
