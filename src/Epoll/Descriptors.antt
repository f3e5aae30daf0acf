-- ===== src/Epoll/Descriptors.antt =====
-- C/epoll_server.c: the descriptors that the event loop has open and those that epoll watches.
mod Tests
use linux_riscv.Prelude.{
  ℕ, ◌≡◌, ◌≢◌, List, [], ◌∷◌, Bool, true, false, arith, ◌==◌, ==_iff, if◌then◌else◌, update, codes,
  Bool-cases, inl, inr, ◌||◌, ℤ, pos, negsuc,
}
use linux_riscv.Buffer.{Received, failed, bytes}
use linux_riscv.Epoll.{
  Event, Action, watch, unwatch, close, log, pay, report, reply, disconnect, dispatch, serve,
  handle,
}

pub record Descriptors : Type 0 where
  pub is_open : ℕ → Bool
  pub is_watched : ℕ → Bool

-- What a call does to the descriptors. EPOLL_CTL_ADD of -1 fails.
pub perform : Action → Descriptors → Descriptors
perform (watch (pos fd) true) s = record s { is_watched = update s.is_watched fd true }
perform (watch (pos fd) false) s = s
perform (watch (negsuc e) added) s = s
perform (unwatch fd) s = record s { is_watched = update s.is_watched fd false }
perform (close fd) s = record s { is_open = update s.is_open fd false }
perform (log xs) s = s
perform (pay xs) s = s
perform (report xs) s = s
perform (reply fd xs) s = s

pub perform_all : List Action → Descriptors → Descriptors
unfolding perform
perform_all [] s = s
perform_all (a ∷ more) s = perform_all more (perform a s)

-- The descriptor that `accept` has opened.
open_client : ℤ → Descriptors → Descriptors
open_client (pos fd) s = record s { is_open = update s.is_open fd true }
open_client (negsuc e) s = s

-- `accept`, where the event is one of the listening descriptor.
pub accepted : (listenfd : ℕ) → Event → Descriptors → Descriptors
unfolding open_client
accepted listenfd e s = if e.fd == listenfd then open_client e.connfd s else s

-- The body of the loop.
pub serve_event : (listenfd : ℕ) → Event → Descriptors → Descriptors
unfolding perform_all accepted
serve_event listenfd e s = perform_all (handle listenfd e) (accepted listenfd e s)

pub serve_events : (listenfd : ℕ) → List Event → Descriptors → Descriptors
unfolding serve_event
serve_events listenfd [] s = s
serve_events listenfd (e ∷ es) s = serve_events listenfd es (serve_event listenfd e s)

-- What the kernel promises of events: they are of descriptors that are watched when they are served,
-- and `accept` opens one that is not open.
abbrev pub IsNew : ℤ → Descriptors → Type 0
IsNew (pos fd) s = s.is_open fd ≡ false
IsNew (negsuc e) s = Unit {0}

abbrev pub Occur : (listenfd : ℕ) → List Event → Descriptors → Type 0
Occur listenfd [] s = Unit {0}
Occur listenfd (e ∷ es) s =
    (s.is_watched e.fd ≡ true) × IsNew e.connfd s × Occur listenfd es (serve_event listenfd e s)

-- The descriptors that are open without being watched, when `own` are before the event: a client
-- joins them that epoll does not take.
abbrev lost : ℤ → Bool → (ℕ → Bool) → ℕ → Bool
lost (pos fd) added own = if added then own else update own fd true
lost (negsuc e) added own = own

abbrev pub left_out_by : (listenfd : ℕ) → Event → (ℕ → Bool) → ℕ → Bool
left_out_by listenfd e own = if e.fd == listenfd then lost e.connfd e.added own else own

abbrev pub left_out : (listenfd : ℕ) → List Event → (ℕ → Bool) → ℕ → Bool
left_out listenfd [] own = own
left_out listenfd (e ∷ es) own = left_out listenfd es (left_out_by listenfd e own)

-- The listening descriptor is watched; what is open is watched or one of `own`, and never both.
pub record IsConsistent (listenfd : ℕ) (own : ℕ → Bool) (s : Descriptors) : Type 0 where
  pub listening : s.is_watched listenfd ≡ true
  pub same : (fd : ℕ) → s.is_open fd ≡ (s.is_watched fd || own fd)
  pub apart : (fd : ℕ) → own fd ≡ true → s.is_watched fd ≡ false

-- A message changes no descriptor.
dispatch-perform :
    (fd cmd : ℕ) (rest : List ℕ) (s : Descriptors) → perform_all (dispatch fd cmd rest) s ≡ s
unfolding dispatch perform_all perform
dispatch-perform fd cmd rest s = ground arith

-- A client that is gone is no longer watched nor open.
disconnect-IsConsistent :
    (listenfd fd : ℕ) (own : ℕ → Bool) (s : Descriptors)
    → fd ≢ listenfd
    → s.is_watched fd ≡ true
    → IsConsistent listenfd own s
    → IsConsistent listenfd own (perform_all (disconnect fd) s)
unfolding perform_all perform disconnect
disconnect-IsConsistent listenfd fd own s other w v = record {
  listening = let l = v.listening in ground arith;
  same = λ i. let e = v.same i in let a = v.apart i in ground arith;
  apart = λ i h. let a = v.apart i h in ground arith;
}

-- A new client is open, and watched if epoll takes it.
accept-IsConsistent :
    (listenfd : ℕ) (connfd : ℤ) (added : Bool) (own : ℕ → Bool) (s : Descriptors)
    → IsNew connfd s
    → IsConsistent listenfd own s
    → IsConsistent listenfd (lost connfd added own) (
        perform_all
          (watch connfd added ∷ log (codes "New client connected\n") ∷ [])
          (open_client connfd s))
unfolding perform_all perform open_client
accept-IsConsistent listenfd (pos fd) true own s new v = record {
  listening = let l = v.listening in ground arith;
  same = λ i. let e = v.same i in ground arith;
  apart = λ i h. let e = v.same i in let a = v.apart i h in ground arith;
}
accept-IsConsistent listenfd (pos fd) false own s new v = record {
  listening = v.listening;
  same = λ i. let e = v.same i in ground arith;
  apart = λ i h. let e = v.same i in let a = v.apart i in ground arith;
}
accept-IsConsistent listenfd (negsuc e) added own s new v = v

serve-IsConsistent :
    (listenfd fd : ℕ) (r : Received) (own : ℕ → Bool) (s : Descriptors)
    → fd ≢ listenfd
    → s.is_watched fd ≡ true
    → IsConsistent listenfd own s
    → IsConsistent listenfd own (perform_all (serve fd r) s)
unfolding serve
serve-IsConsistent listenfd fd failed own s other w v =
    disconnect-IsConsistent listenfd fd own s other w v
serve-IsConsistent listenfd fd (bytes []) own s other w v =
    disconnect-IsConsistent listenfd fd own s other w v
serve-IsConsistent listenfd fd (bytes (cmd ∷ rest)) own s other w v =
    rw (dispatch-perform fd cmd rest s) v

serve_event-IsConsistent :
    (listenfd : ℕ) (e : Event) (own : ℕ → Bool) (s : Descriptors)
    → s.is_watched e.fd ≡ true
    → IsNew e.connfd s
    → IsConsistent listenfd own s
    → IsConsistent listenfd (left_out_by listenfd e own) (serve_event listenfd e s)
unfolding serve_event handle accepted
serve_event-IsConsistent listenfd e own s w new v = elim (Bool-cases (e.fd == listenfd)) [
  | inl is_new ↦ rw is_new (accept-IsConsistent listenfd e.connfd e.added own s new v)
  | inr old ↦
      rw old (serve-IsConsistent listenfd e.fd e.received own s (λ q. cc ((==_iff _ _).1 q)) w v)
]

-- Over any sequence of events of watched descriptors, in which accept opens descriptors that are
-- not open or fails: the listening descriptor stays watched, and what is open is either watched or
-- one of the descriptors that the server holds for itself, or of a client that epoll did not take,
-- and never both.
pub serve_events-IsConsistent :
    (listenfd : ℕ) (own : ℕ → Bool) (es : List Event) (s : Descriptors)
    → Occur listenfd es s
    → IsConsistent listenfd own s
    → IsConsistent listenfd (left_out listenfd es own) (serve_events listenfd es s)
unfolding serve_events
serve_events-IsConsistent listenfd own [] s o v = v
serve_events-IsConsistent listenfd own (e ∷ es) s (w, new, o) v =
    serve_events-IsConsistent listenfd (left_out_by listenfd e own) es _ o
      (serve_event-IsConsistent listenfd e own s w new v)
