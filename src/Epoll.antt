-- ===== src/Epoll.antt =====
-- C/epoll_server.c: one event loop that accepts clients and hands their commands to the payment
-- process, the logger and the health process. The answers of `epoll_wait`, `accept` and `read` are
-- in the events; what the server does is the list of its calls, in order.
pub mod Descriptors
pub mod Setup
mod Tests
use linux_riscv.Prelude.{
  ℕ, ◌+◌, ◌≡◌, ◌≢◌, ◌⊎◌, refl, List, [], ◌∷◌, ◌++◌, arith, ◌==◌, if◌then◌else◌, codes, take, ap,
  ap₂, ℤ, Bool, ◌∙◌, Bool-cases, ==_iff, inl, inr,
}
use linux_riscv.Buffer.{Received, failed, bytes, text}

-- One entry of `events`: the descriptor; what `accept` answers if it is the listening one, and
-- whether epoll takes that; and what `read` brings otherwise.
pub record Event : Type 0 where
  pub fd : ℕ
  pub connfd : ℤ
  pub added : Bool
  pub received : Received

pub data Action : Type 0 where
  watch : ℤ → Bool → Action
  unwatch close : ℕ → Action
  log : List ℕ → Action
  pay report : List ℕ → Action
  reply : ℕ → List ℕ → Action

-- `write(fd, "…", n)` of a literal: its bytes and the NUL behind them, as far as `n` goes.
abbrev pub literal : List ℕ → ℕ → List ℕ
literal s n = take n (s ++ 0 ∷ [])

-- `switch (cmd)` on the first byte; `rest` is the `n - 1` bytes behind it.
pub dispatch : ℕ → ℕ → List ℕ → List Action
dispatch fd cmd rest =
    if cmd == b'P'
    then log (codes "PAYING " ++ text rest)
      ∷ pay rest
      ∷ reply fd (literal (codes "ACK payment\n") 13)
      ∷ []
    else if cmd == b'L'
    then log (codes "LOGGING " ++ text rest) ∷ reply fd (literal (codes "ACK: logger\n") 12) ∷ []
    else if cmd == b'H'
    then report rest ∷ reply fd (literal (codes "ACK: health\n") 12) ∷ []
    else reply fd (literal (codes "ERR: unknown\n") 13) ∷ []

disconnect : ℕ → List Action
disconnect fd = unwatch fd ∷ close fd ∷ log (codes "Client disconnected\n") ∷ []

-- The branch for a client.
pub serve : ℕ → Received → List Action
unfolding disconnect dispatch
serve fd failed = disconnect fd
serve fd (bytes []) = disconnect fd
serve fd (bytes (cmd ∷ rest)) = dispatch fd cmd rest

-- The body of the `for` loop.
pub handle : (listenfd : ℕ) → Event → List Action
handle listenfd e =
    if e.fd == listenfd
    then watch e.connfd e.added ∷ log (codes "New client connected\n") ∷ []
    else serve e.fd e.received

pub run : (listenfd : ℕ) → List Event → List Action
run listenfd [] = []
run listenfd (e ∷ es) = handle listenfd e ++ run listenfd es

-- What reaches the payment process, and what reaches a client.
pub paid : List Action → List (List ℕ)
paid [] = []
paid (pay xs ∷ more) = xs ∷ paid more
paid (a ∷ more) = paid more

pub replies : ℕ → List Action → ℕ
replies fd [] = 0
replies fd (reply f xs ∷ more) = (if f == fd then 1 else 0) + replies fd more
replies fd (a ∷ more) = replies fd more

paid-append : (more bs : List Action) → paid (more ++ bs) ≡ paid more ++ paid bs
unfolding paid
paid-append [] bs = refl
paid-append (pay xs ∷ more) bs = ap (◌∷◌ xs) (paid-append more bs)
paid-append (a ∷ more) bs = paid-append more bs

replies-append :
    (fd : ℕ) (more bs : List Action) → replies fd (more ++ bs) ≡ replies fd more + replies fd bs
unfolding replies
replies-append fd [] bs = omega arith
replies-append fd (reply f xs ∷ more) bs = omega (arith, replies-append fd more bs)
replies-append fd (a ∷ more) bs = replies-append fd more bs

-- The payments that clients ask for: the messages that begin with P, without that byte.
abbrev payment_of : Received → List (List ℕ)
payment_of (bytes (cmd ∷ rest)) = if cmd == b'P' then rest ∷ [] else []
payment_of _ = []

abbrev pub payments : ℕ → List Event → List (List ℕ)
payments listenfd [] = []
payments listenfd (e ∷ es) =
    (if e.fd == listenfd then [] else payment_of e.received) ++ payments listenfd es

-- The messages of one client that hold at least one byte.
abbrev is_message : Received → ℕ
is_message (bytes (cmd ∷ rest)) = 1
is_message _ = 0

abbrev pub messages : ℕ → ℕ → List Event → ℕ
messages listenfd fd [] = 0
messages listenfd fd (e ∷ es) =
    (if e.fd == listenfd then 0 else if e.fd == fd then is_message e.received else 0)
    + messages listenfd fd es

serve-paid : (fd : ℕ) (r : Received) → paid (serve fd r) ≡ payment_of r
unfolding serve paid
serve-paid fd failed = refl
serve-paid fd (bytes []) = refl
serve-paid fd (bytes (cmd ∷ rest)) = ground arith

serve-replies :
    (fd f : ℕ) (r : Received) → replies fd (serve f r) ≡ (if f == fd then is_message r else 0)
unfolding serve replies
serve-replies fd f failed = ground arith
serve-replies fd f (bytes []) = ground arith
serve-replies fd f (bytes (cmd ∷ rest)) = ground arith

handle-paid :
    (listenfd : ℕ) (e : Event)
    → paid (handle listenfd e) ≡ (if e.fd == listenfd then [] else payment_of e.received)
unfolding handle
handle-paid listenfd e = elim (Bool-cases (e.fd == listenfd)) [
  | inl new ↦ rw new (unfold paid in refl)
  | inr old ↦ rw old (serve-paid e.fd e.received)
]

handle-replies :
    (listenfd fd : ℕ) (e : Event)
    → replies fd (handle listenfd e)
      ≡ (if e.fd == listenfd then 0 else if e.fd == fd then is_message e.received else 0)
unfolding handle
handle-replies listenfd fd e = elim (Bool-cases (e.fd == listenfd)) [
  | inl new ↦ rw new (unfold replies in refl)
  | inr old ↦ rw old (serve-replies fd e.fd e.received)
]

-- Over any sequence of events the payment process receives just the payments that clients asked
-- for, in order, and every client receives one reply for each of its messages with at least one
-- byte.
pub run-served :
    (listenfd : ℕ) (es : List Event)
    → (paid (run listenfd es) ≡ payments listenfd es)
      × ((fd : ℕ) → replies fd (run listenfd es) ≡ messages listenfd fd es)
unfolding run
run-served listenfd [] = unfold paid replies in (refl, λ fd. refl)
run-served listenfd (e ∷ es) =
    let ih = run-served listenfd es in
    (
      paid-append (handle listenfd e) (run listenfd es) ∙ ap₂ ◌++◌ (handle-paid listenfd e) ih.0,
      λ fd.
          replies-append fd (handle listenfd e) (run listenfd es)
          ∙ ap₂ ◌+◌ (handle-replies listenfd fd e) (ih.1 fd),
    )

-- The reply to a payment is its text and a NUL behind it; the reply to any other command is the
-- text for a log entry, for a health command or for an error, without a NUL.
pub dispatch-reply :
    (fd cmd : ℕ) (rest : List ℕ)
    → ((cmd ≡ b'P')
        × (dispatch fd cmd rest
            ≡ log (codes "PAYING " ++ text rest)
              ∷ pay rest
              ∷ reply fd (codes "ACK payment\n" ++ 0 ∷ [])
              ∷ []))
      ⊎ ((cmd ≢ b'P')
          × (before : List Action) × (answer : List ℕ) × (dispatch fd cmd rest
              ≡ before ++ reply fd answer ∷ [])
          × ((answer ≡ codes "ACK: logger\n")
              ⊎ (answer ≡ codes "ACK: health\n")
              ⊎ (answer ≡ codes "ERR: unknown\n")))
unfolding dispatch
dispatch-reply fd cmd rest = elim (Bool-cases (cmd == b'P')) [
  | inl p ↦ inl ((==_iff _ _).0 p, rw p)
  | inr other ↦ elim (Bool-cases (cmd == b'L')) [
    | inl l ↦ inr (
      λ e. cc ((==_iff cmd b'P').1 e),
      log (codes "LOGGING " ++ text rest) ∷ [],
      codes "ACK: logger\n",
      rw (other, l),
      inl refl,
    )
    | inr more ↦ elim (Bool-cases (cmd == b'H')) [
      | inl h ↦ inr (
        λ e. cc ((==_iff cmd b'P').1 e),
        report rest ∷ [],
        codes "ACK: health\n",
        rw (other, more, h),
        inr (inl refl),
      )
      | inr none_of ↦ inr (
        λ e. cc ((==_iff cmd b'P').1 e),
        [],
        codes "ERR: unknown\n",
        rw (other, more, none_of),
        inr (inr refl),
      )
    ]
  ]
]
