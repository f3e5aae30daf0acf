-- ===== src/Server.antt =====
-- C/server_tcp.c and C/server_unix.c, which differ in the address family and the response: the
-- loop of `main`, which forks for each client, and `handle_client`.
pub mod Reap
pub mod Setup
mod Tests
use linux_riscv.Prelude.{
  ℕ, zero, suc, ◌+◌, ◌≡◌, ◌≢◌, List, [], ◌∷◌, ◌++◌, ℤ, pos, negsuc, is_neg, Bool, false, not,
  Option, none, some, arith, ◌==◌, if◌then◌else◌, codes,
}
use linux_riscv.Calls.{
  Trace, Oracle, M, ask, pure, ◌>>=◌, ◌>>◌, choose, is_null, Effect, acquire, release, keep,
  if_granted, settle,
}
use linux_riscv.Buffer.{Received, bytes, read_text, text}

pub data Call : Type 0 where
  accept fork : Call
  close : ℤ → Call

-- Equality of descriptors, of which -1 and below are none.
abbrev pub same_fd : ℤ → ℤ → Bool
same_fd (pos n) (pos m) = n == m
same_fd (negsuc n) (negsuc m) = n == m
same_fd _ _ = false

abbrev pub effect : Call → ℤ → Effect ℤ
effect accept r = if_granted r r
effect fork r = keep
effect (close fd) r = if is_neg fd then keep else release fd

abbrev pub held : Trace Call → Option (List ℤ)
held = settle same_fd effect

-- How a process leaves a round of the loop: the parent goes on, the child serves a client.
pub data Role : Type 0 where
  parent : Role
  child : ℤ → Role

module _ (os : Oracle Call) where
  pub serve_round : (sockfd : ℤ) → M Call Role
  serve_round sockfd = do
    clientfd ← ask os accept
    pid ← ask os fork
    choose (is_null pid) (do ask os (close sockfd); pure (child clientfd))
        (do ask os (close clientfd); pure parent)

  -- `n` rounds of the parent.
  pub serve : (sockfd : ℤ) → ℕ → Trace Call → Trace Call
  serve sockfd zero tr = tr
  serve sockfd (suc n) tr = serve sockfd n (serve_round sockfd tr).1

  serve_round-held :
      (sockfd : ℤ) (tr : Trace Call) (fds : List ℤ)
      → ((t : Trace Call) → os t fork ≢ pos 0)
      → held tr ≡ some fds
      → held (serve_round sockfd tr).1 ≡ some fds
  unfolding serve_round
  serve_round-held sockfd tr fds h e = ground (arith, h ((accept, os tr accept) ∷ tr))

  -- Where fork does not answer 0, any number of rounds of the server leaves the parent with just
  -- the descriptors that it held before, whether or not accept and fork succeed.
  pub serve-held :
      (sockfd : ℤ) (n : ℕ) (tr : Trace Call) (fds : List ℤ)
      → ((t : Trace Call) → os t fork ≢ pos 0)
      → held tr ≡ some fds
      → held (serve sockfd n tr) ≡ some fds
  unfolding serve
  serve-held sockfd zero tr fds h e = e
  serve-held sockfd (suc n) tr fds h e =
      serve-held sockfd n (serve_round sockfd tr).1 fds h (serve_round-held sockfd tr fds h e)

-- The work for a client: its text is logged, the response is sent, `date` runs on the connection,
-- which is closed. `none` is a store outside of `buf`.
pub data Action : Type 0 where
  print write : List ℕ → Action
  run_date close_client : Action

abbrev pub buf_size : ℕ
buf_size = 1024

finish : List ℕ → Option (List ℕ) → Option (List Action)
finish response none = none
finish response (some b) = some (print (text b) ∷ write response ∷ run_date ∷ close_client ∷ [])

pub handle_client : (response : List ℕ) → List ℕ → Received → Option (List Action)
handle_client response buf r = finish response (read_text buf r)

-- The responses, with the decimal digits of the process number.
pub tcp_response : List ℕ → List ℕ
tcp_response pid =
    codes "HTTP/1.1 200 OK\r\nContent-Type: text/plain\r\n\r\n"
    ++ (codes "Hello! Served by PID: " ++ (pid ++ codes "\n"))

pub unix_response : List ℕ → List ℕ
unix_response pid = codes "Hello! UNIX socket, Served by PID: " ++ (pid ++ codes "\n")

pub handle_tcp_client : (pid : List ℕ) → List ℕ → Received → Option (List Action)
handle_tcp_client pid buf r = handle_client (tcp_response pid) buf r

pub handle_unix_client : (pid : List ℕ) → List ℕ → Received → Option (List Action)
handle_unix_client pid buf r = handle_client (unix_response pid) buf r
