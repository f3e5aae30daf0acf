-- ===== src/Epoll/Setup.antt =====
-- C/epoll_server.c, `init_payment_connection` and `main` up to its loop. `init_log_fifo` and
-- `init_health_connection` are empty.
use linux_riscv.Prelude.{ℤ, is_neg, true, Option, none, some, [], ◌∷◌, ◌≡◌, ◌↔◌, arith}
use linux_riscv.Calls.{Oracle, M, ask, pure, ◌>>=◌, ◌>>◌, choose}

pub data Call : Type 0 where
  payment_socket : Call
  connect : ℤ → Call
  listen_socket : Call
  bind listen : ℤ → Call
  epoll_create1 : Call
  watch : ℤ → Call

-- The descriptors of the payment process, the listening socket and epoll.
pub record Server : Type 0 where
  pub payment_fd : ℤ
  pub listenfd : ℤ
  pub epfd : ℤ

module _ (os : Oracle Call) where
  -- `none`: the program ends with status 1.
  pub init_payment_connection : M Call (Option ℤ)
  init_payment_connection = do
    payment_fd ← ask os payment_socket
    r ← ask os (connect payment_fd)
    choose (is_neg r) (pure none) (pure (some payment_fd))

  listening : ℤ → M Call (Option Server)
  listening payment_fd = do
    listenfd ← ask os listen_socket
    ask os (bind listenfd)
    ask os (listen listenfd)
    epfd ← ask os epoll_create1
    ask os (watch listenfd)
    pure (some (record { payment_fd = payment_fd; listenfd = listenfd; epfd = epfd }))

  connected : Option ℤ → M Call (Option Server)
  unfolding listening
  connected none = pure none
  connected (some payment_fd) = listening payment_fd

  pub setup : M Call (Option Server)
  unfolding init_payment_connection connected
  setup = do payment_fd ← init_payment_connection; connected payment_fd

  -- The server starts to wait for events exactly when the connection to the payment process is
  -- accepted, whatever else fails.
  pub setup_iff : ((setup []).0 ≡ none) ↔ (
      is_neg (os ((payment_socket, os [] payment_socket) ∷ []) (connect (os [] payment_socket)))
      ≡ true)
  unfolding setup
  setup_iff = (ground arith, ground arith)
