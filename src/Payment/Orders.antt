-- ===== src/Payment/Orders.antt =====
-- C/epoll_server.c and C/payment.c together: the payments that clients ask the server for are the
-- messages of the payment process, where each write of the server is brought by one read.
use linux_riscv.Prelude.{
  ℕ, zero, suc, ◌+◌, ◌-◌, ◌*◌, ◌<◌, ◌≡◌, refl, ap, ◌∙◌, List, [], ◌∷◌, ◌++◌, some, arith, length,
  get_elem?, get_elem?-append, length-append, subst,
}
use linux_riscv.Buffer.{Received, text}
use linux_riscv.Epoll.{Event, run, paid, payments, run-served}
use linux_riscv.Payment.{
  Job, processing, wait, finished, waits, work, service, AreMessages, Ends, all_bytes, all_work,
  service_lem,
}

length-waits : (i n : ℕ) → length (waits i n) ≡ n
unfolding waits
length-waits i zero = refl
length-waits i (suc n) = omega (arith, length-waits (i + 1) n)

waits-wait : (i n k : ℕ) → k < n → get_elem? (waits i n) k ≡ some (wait (i + k))
unfolding waits
waits-wait i (suc n) zero h =
    let same : i ≡ i + 0 = omega arith in ap (λ (j : ℕ). some (wait j)) same
waits-wait i (suc n) (suc k) h =
    let same : i + 1 + k ≡ i + suc k = omega arith in
    waits-wait (i + 1) n k (omega (arith, h)) ∙ ap (λ (j : ℕ). some (wait j)) same
waits-wait i zero k h = absurd (omega (arith, h))

-- The 22 jobs of one message stand at `at`.
pub record IsDone (message : List ℕ) (jobs : List Job) (at : ℕ) : Type 0 where
  pub printed : get_elem? jobs at ≡ some (processing message)
  pub busy : (k : ℕ) → k < 20 → get_elem? jobs (at + 1 + k) ≡ some (wait k)
  pub ended : get_elem? jobs (at + 21) ≡ some finished

length-work : (message : List ℕ) → length (work message) ≡ 22
unfolding work
length-work message = omega (arith, length-append (waits 0 20) (finished ∷ []), length-waits 0 20)

work-IsDone : (message : List ℕ) → IsDone message (work message) 0
unfolding work
work-IsDone message = record {
  printed = refl;
  busy = λ k h. ground (
    arith,
    get_elem?-append (waits 0 20) (finished ∷ []) k,
    length-waits 0 20,
    waits-wait 0 20 k h,
  );
  ended = refl;
}

in_front : (xs ys : List Job) (i : ℕ) → i < length xs → get_elem? (xs ++ ys) i ≡ get_elem? xs i
in_front xs ys i h = ground (arith, get_elem?-append xs ys i, h)

behind :
    (xs ys : List Job) (i n : ℕ) → length xs ≡ n → get_elem? (xs ++ ys) (n + i) ≡ get_elem? ys i
behind xs ys i n e =
    let same : n + i - length xs ≡ i = omega (arith, e) in
    ground (arith, get_elem?-append xs ys (n + i), e, ap (get_elem? ys) same)

IsDone-first : (message : List ℕ) (rest : List Job) → IsDone message (work message ++ rest) 0
IsDone-first message rest =
    let d = work-IsDone message in
    let size = length-work message in
    record {
      printed = in_front (work message) rest 0 (omega (arith, size)) ∙ d.printed;
      busy = λ k h. in_front (work message) rest (0 + 1 + k) (omega (arith, size, h)) ∙ d.busy k h;
      ended = in_front (work message) rest (0 + 21) (omega (arith, size)) ∙ d.ended;
    }

IsDone-later :
    (message : List ℕ) (xs ys : List Job) (at n : ℕ)
    → length xs ≡ n
    → IsDone message ys at
    → IsDone message (xs ++ ys) (n + at)
IsDone-later message xs ys at n e d = record {
  printed = behind xs ys at n e ∙ d.printed;
  busy = λ k h.
      let same : n + at + 1 + k ≡ n + (at + 1 + k) = omega arith in
      ap (get_elem? (xs ++ ys)) same ∙ behind xs ys (at + 1 + k) n e ∙ d.busy k h;
  ended =
      let same : n + at + 21 ≡ n + (at + 21) = omega arith in
      ap (get_elem? (xs ++ ys)) same ∙ behind xs ys (at + 21) n e ∙ d.ended;
}

all_work-IsDone :
    (ms : List (List ℕ)) (i : ℕ) (m : List ℕ)
    → get_elem? ms i ≡ some m
    → IsDone (text m) (all_work ms) (22 * i)
all_work-IsDone [] i m e = cc
all_work-IsDone (p ∷ ms) zero m e =
    subst (λ (x : List ℕ). IsDone (text x) (work (text p) ++ all_work ms) 0) (cc)
      (IsDone-first (text p) (all_work ms))
all_work-IsDone (p ∷ ms) (suc i) m e =
    let place : 22 + 22 * i ≡ 22 * suc i = omega arith in
    subst (IsDone (text m) (work (text p) ++ all_work ms)) place (
      IsDone-later (text m) (work (text p)) (all_work ms) (22 * i) 22 (length-work (text p))
        (all_work-IsDone ms i m e))

length-all_work : (ms : List (List ℕ)) → length (all_work ms) ≡ 22 * length ms
length-all_work [] = omega arith
length-all_work (m ∷ ms) =
    omega
      (arith, length-append (work (text m)) (all_work ms), length-work (text m), length-all_work ms)

-- Where each write of the server is brought by one read, and every payment is a text that leaves
-- room for its end: over any sequence of events of the epoll server, until a read fails or brings
-- nothing, the payment process does 22 jobs for each payment that a client asked for, in their
-- order, and no others: it prints the text, it waits twenty times, with the numbers 0 to 19, and it
-- prints the end; no store leaves its buffer.
pub service-run :
    (buf : List ℕ) (listenfd : ℕ) (es : List Event) (r : Received)
    → AreMessages (length buf) (payments listenfd es)
    → Ends r
    → (jobs : List Job) × (service buf (all_bytes (paid (run listenfd es)) ++ r ∷ []) ≡ some jobs)
      × (length jobs ≡ 22 * length (payments listenfd es))
      × ((i : ℕ) (m : List ℕ)
          → get_elem? (payments listenfd es) i ≡ some m
          → IsDone (text m) jobs (22 * i))
service-run buf listenfd es r short e =
    let orders = payments listenfd es in
    let (served, answered) = run-served listenfd es in
    (
      all_work orders,
      ap (λ (ms : List (List ℕ)). service buf (all_bytes ms ++ r ∷ [])) served
          ∙ service_lem buf orders r [] short e,
      length-all_work orders,
      all_work-IsDone orders,
    )
