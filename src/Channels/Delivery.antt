-- ===== src/Channels/Delivery.antt =====
-- C/pipe.c, C/named_pipe.c and C/mqueue.c: both processes come to their ends, and the message to the
-- receiver.
use linux_riscv.Prelude.{
  ℕ, ◌+◌, ◌≤◌, ◌<◌, ◌≡◌, refl, ◌⊎◌, inl, inr, List, Bool, true, false, arith, ap, ◌∙◌, sym, subst,
}
use linux_riscv.Channels.{
  Kind, pipe, fifo, queue, is_queue, Sender, opening, arrived, sending, closing, unlinking, done,
  Receiver, to_open, inside, receiving, printing, to_close, finished, message, State, forked,
  sender_came, receiver_came, after_send, after_close, after_print, Step, close_reading,
  close_writing, open_write, open_read, write_opened, read_opened, send, receive, end_of_file,
  print, sender_close, unlink, receiver_close, Reach, here, next,
}
use linux_riscv.Channels.Invariant.{
  has_sent, Received, Inv, at_receiver, message-nonempty, false-true, Reach-Inv,
}

-- A step can be made, or both are at their ends and the message was received.
abbrev CanGoOn : Kind → State → Type 0
CanGoOn k s = ((t : State) × Step k s t) ⊎ ((s.sender ≡ done) × (s.receiver ≡ finished (message k)))

-- The sender's turn, where it has not to wait for the receiver.
sender_moves :
    (k : Kind) (s : State) (q : Sender)
    → s.sender ≡ q
    → receiver_came s.receiver ≡ true
    → (is_queue k ≡ true → sender_came q ≡ true)
    → (q ≡ done) ⊎ ((t : State) × Step k s t)
sender_moves pipe s opening e h o = inr (_, close_reading refl e)
sender_moves fifo s opening e h o = inr (_, open_write refl e)
sender_moves queue s opening e h o = absurd (false-true (o refl))
sender_moves k s arrived e h o = inr (_, write_opened e h)
sender_moves k s sending e h o = inr (_, send e)
sender_moves k s closing e h o = inr (_, sender_close e)
sender_moves k s unlinking e h o = inr (_, unlink e)
sender_moves k s done e h o = inl refl

receiver_moves :
    (k : Kind) (s : State) (q : Receiver) (c : Bool)
    → s.receiver ≡ q
    → has_sent s.sender ≡ c
    → Inv k s
    → CanGoOn k s
receiver_moves pipe s to_open c e h v = inl (_, close_writing refl e)
receiver_moves fifo s to_open c e h v = inl (_, open_read refl e)
receiver_moves queue s to_open c e h v =
    absurd (false-true (sym (ap receiver_came e) ∙ v.receiver_open refl))
receiver_moves k s inside c e h v =
    elim (sender_moves k s s.sender refl (ap receiver_came e) v.sender_open) [
      | inl d ↦ inl (_, read_opened e (ap sender_came d))
      | inr step ↦ inl step
    ]
receiver_moves k s receiving true e h v =
    let there : Received k true receiving s.buffer =
      subst (λ c. Received k c receiving s.buffer) h (at_receiver e v) in
    let (b, bs, whole) = message-nonempty k in inl (_, receive b bs e (there ∙ whole))
receiver_moves k s receiving false e h v =
    elim (sender_moves k s s.sender refl (ap receiver_came e) v.sender_open) [
      | inl d ↦ absurd (false-true (sym h ∙ ap has_sent d))
      | inr step ↦ inl step
    ]
receiver_moves k s (printing t) c e h v = inl (_, print t e)
receiver_moves k s (to_close t) c e h v = inl (_, receiver_close t e)
receiver_moves k s (finished t) c e h v =
    elim (sender_moves k s s.sender refl (ap receiver_came e) v.sender_open) [
      | inl d ↦ let (whole, all) = at_receiver e v in inr (d, e ∙ ap finished whole)
      | inr step ↦ inl step
    ]

abbrev sender_left : Sender → ℕ
sender_left opening = 5
sender_left arrived = 4
sender_left sending = 3
sender_left closing = 2
sender_left unlinking = 1
sender_left done = 0

abbrev receiver_left : Receiver → ℕ
receiver_left to_open = 5
receiver_left inside = 4
receiver_left receiving = 3
receiver_left (printing t) = 2
receiver_left (to_close t) = 1
receiver_left (finished t) = 0

abbrev left : State → ℕ
left s = sender_left s.sender + receiver_left s.receiver

after-left :
    (k : Kind)
    → (sender_left (after_send k) < 3)
      × (sender_left (after_close k) < 2)
      × ((t : List ℕ) → receiver_left (after_print k t) < 2)
after-left pipe = (omega arith, omega arith, λ t. omega arith)
after-left fifo = (omega arith, omega arith, λ t. omega arith)
after-left queue = (omega arith, omega arith, λ t. omega arith)

Step-left : (k : Kind) {s t : State} → Step k s t → left t < left s
Step-left k (close_reading p e) = rw e (omega arith)
Step-left k (close_writing p e) = rw e (omega arith)
Step-left k (open_write p e) = rw e (omega arith)
Step-left k (open_read p e) = rw e (omega arith)
Step-left k (write_opened e c) = rw e (omega arith)
Step-left k (read_opened e c) = rw e (omega arith)
Step-left k (send e) = let (a, b, c) = after-left k in rw e (omega (arith, a))
Step-left k (receive b bs e x) = rw e (omega arith)
Step-left k (end_of_file w e x d) = rw e (omega arith)
Step-left k (print t e) = let (a, b, c) = after-left k in rw e (omega (arith, c t))
Step-left k (sender_close e) = let (a, b, c) = after-left k in rw e (omega (arith, b))
Step-left k (unlink e) = rw e (omega arith)
Step-left k (receiver_close t e) = rw e (omega arith)

abbrev pub steps : {k : Kind} {s : State} → Reach k s → ℕ
steps here = 0
steps (next r st) = steps r + 1

forked-left : (k : Kind) → left (forked k) ≤ 10
unfolding forked
forked-left pipe = omega arith
forked-left fifo = omega arith
forked-left queue = omega arith

Reach-left : (k : Kind) {s : State} (r : Reach k s) → steps r + left s ≤ 10
Reach-left k here = omega (arith, forked-left k)
Reach-left k (next r st) = omega (arith, Reach-left k r, Step-left k st)

-- Every history of the two processes of pipe.c, of named_pipe.c and of mqueue.c has at most ten
-- steps; where no step can be made, both are at their ends and the message was received as it was
-- sent.
pub Reach-delivered :
    (k : Kind) {s : State} (r : Reach k s)
    → (steps r ≤ 10)
      × (((t : State) × Step k s t) ⊎ ((s.sender ≡ done) × (s.receiver ≡ finished (message k))))
Reach-delivered k {s} r = (
  omega (arith, Reach-left k r),
  receiver_moves k s s.receiver (has_sent s.sender) refl refl (Reach-Inv k r),
)
