-- ===== src/Channels/Invariant.antt =====
-- C/pipe.c, C/named_pipe.c and C/mqueue.c: what is in the channel and with the receiver.
use linux_riscv.Prelude.{ℕ, ◌≡◌, ◌≢◌, refl, List, [], ◌∷◌, Bool, true, false, ap, ◌∙◌, sym, subst}
use linux_riscv.Channels.{
  Kind, pipe, fifo, queue, is_queue, Sender, opening, arrived, sending, Receiver, to_open, inside,
  receiving, printing, to_close, finished, message, State, forked, sender_came, receiver_came,
  after_send, after_close, after_print, Step, close_reading, close_writing, open_write, open_read,
  write_opened, read_opened, send, receive, end_of_file, print, sender_close, unlink,
  receiver_close, Reach, here, next,
}

abbrev pub has_sent : Sender → Bool
has_sent opening = false
has_sent arrived = false
has_sent sending = false
has_sent _ = true

-- What is in the channel while nothing is received.
abbrev pub in_channel : Kind → Bool → List ℕ
in_channel k true = message k
in_channel k false = []

abbrev pub Received : Kind → Bool → Receiver → List ℕ → Type 0
Received k b (printing t) buffer = (t ≡ message k) × (b ≡ true)
Received k b (to_close t) buffer = (t ≡ message k) × (b ≡ true)
Received k b (finished t) buffer = (t ≡ message k) × (b ≡ true)
Received k b _ buffer = buffer ≡ in_channel k b

pub record Inv (k : Kind) (s : State) : Type 0 where
  pub received : Received k (has_sent s.sender) s.receiver s.buffer
  pub sender_open : is_queue k ≡ true → sender_came s.sender ≡ true
  pub receiver_open : is_queue k ≡ true → receiver_came s.receiver ≡ true

pub at_receiver :
    {k : Kind} {s : State} {q : Receiver}
    → s.receiver ≡ q
    → Inv k s
    → Received k (has_sent s.sender) q s.buffer
at_receiver {k} {s} e v = subst (λ q. Received k (has_sent s.sender) q s.buffer) e v.received

-- The sender has nothing sent before `send`, and keeps it sent afterwards.
keeps_sent :
    {k : Kind} {s : State} (b : Bool)
    → has_sent s.sender ≡ b
    → Inv k s
    → Received k b s.receiver s.buffer
keeps_sent {k} {s} b e v = subst (λ c. Received k c s.receiver s.buffer) e v.received

sends :
    (k : Kind) (q : Receiver) (buffer : List ℕ)
    → Received k false q buffer
    → Received k true q (message k)
sends k to_open buffer x = refl
sends k inside buffer x = refl
sends k receiving buffer x = refl
sends k (printing t) buffer (a, b) = cc
sends k (to_close t) buffer (a, b) = cc
sends k (finished t) buffer (a, b) = cc

after_send-sent : (k : Kind) → has_sent (after_send k) ≡ true
after_send-sent pipe = refl
after_send-sent fifo = refl
after_send-sent queue = refl

after_send-came : (k : Kind) → sender_came (after_send k) ≡ true
after_send-came pipe = refl
after_send-came fifo = refl
after_send-came queue = refl

after_close-sent : (k : Kind) → has_sent (after_close k) ≡ true
after_close-sent pipe = refl
after_close-sent fifo = refl
after_close-sent queue = refl

after_close-came : (k : Kind) → sender_came (after_close k) ≡ true
after_close-came pipe = refl
after_close-came fifo = refl
after_close-came queue = refl

after_print-came : (k : Kind) (t : List ℕ) → receiver_came (after_print k t) ≡ true
after_print-came pipe t = refl
after_print-came fifo t = refl
after_print-came queue t = refl

pub false-true : false ≢ true
false-true e = cc

nonempty : {b : ℕ} {bs : List ℕ} → b ∷ bs ≢ []
nonempty e = cc

receives :
    (k : Kind) (c : Bool) (b : ℕ) (bs : List ℕ)
    → b ∷ bs ≡ in_channel k c
    → (b ∷ bs ≡ message k) × (c ≡ true)
receives k true b bs e = (e, refl)
receives k false b bs e = cc

pub message-nonempty : (k : Kind) → (b : ℕ) × (bs : List ℕ) × (message k ≡ b ∷ bs)
unfolding message
message-nonempty pipe = (_, _, refl)
message-nonempty fifo = (_, _, refl)
message-nonempty queue = (_, _, refl)

after_print-Received :
    (k : Kind) (c : Bool) (t buffer : List ℕ)
    → (t ≡ message k) × (c ≡ true)
    → Received k c (after_print k t) buffer
after_print-Received pipe c t buffer x = x
after_print-Received fifo c t buffer x = x
after_print-Received queue c t buffer x = x

Step-Inv : {k : Kind} {s t : State} → Step k s t → Inv k s → Inv k t
Step-Inv {k} {s} (close_reading p e) v = record {
  received = keeps_sent false (ap has_sent e) v;
  sender_open = λ q. refl;
  receiver_open = v.receiver_open;
}
Step-Inv {k} {s} (close_writing p e) v = record {
  received = at_receiver e v;
  sender_open = v.sender_open;
  receiver_open = λ q. refl;
}
Step-Inv {k} {s} (open_write p e) v = record {
  received = keeps_sent false (ap has_sent e) v;
  sender_open = λ q. refl;
  receiver_open = v.receiver_open;
}
Step-Inv {k} {s} (open_read p e) v = record {
  received = at_receiver e v;
  sender_open = v.sender_open;
  receiver_open = λ q. refl;
}
Step-Inv {k} {s} (write_opened e c) v = record {
  received = keeps_sent false (ap has_sent e) v;
  sender_open = λ q. refl;
  receiver_open = v.receiver_open;
}
Step-Inv {k} {s} (read_opened e c) v = record {
  received = at_receiver e v;
  sender_open = v.sender_open;
  receiver_open = λ q. refl;
}
Step-Inv {k} {s} (send e) v = record {
  received =
      subst (λ c. Received k c s.receiver (message k)) (sym (after_send-sent k))
        (sends k s.receiver s.buffer (keeps_sent false (ap has_sent e) v));
  sender_open = λ q. after_send-came k;
  receiver_open = v.receiver_open;
}
Step-Inv {k} {s} (receive b bs e x) v = record {
  received = receives k (has_sent s.sender) b bs (sym x ∙ at_receiver e v);
  sender_open = v.sender_open;
  receiver_open = λ q. refl;
}
Step-Inv {k} {s} (end_of_file w e x d) v =
    let sent_all : Received k true receiving s.buffer =
      subst (λ c. Received k c receiving s.buffer) (ap has_sent d) (at_receiver e v) in
    let (b, bs, there) = message-nonempty k in absurd (nonempty (sym there ∙ sym sent_all ∙ x))
Step-Inv {k} {s} (print t e) v = record {
  received = after_print-Received k (has_sent s.sender) t s.buffer (at_receiver e v);
  sender_open = v.sender_open;
  receiver_open = λ q. after_print-came k t;
}
Step-Inv {k} {s} (sender_close e) v = record {
  received =
      subst (λ c. Received k c s.receiver s.buffer) (sym (after_close-sent k))
        (keeps_sent true (ap has_sent e) v);
  sender_open = λ q. after_close-came k;
  receiver_open = v.receiver_open;
}
Step-Inv {k} {s} (unlink e) v = record {
  received = keeps_sent true (ap has_sent e) v;
  sender_open = λ q. refl;
  receiver_open = v.receiver_open;
}
Step-Inv {k} {s} (receiver_close t e) v = record {
  received = at_receiver e v;
  sender_open = v.sender_open;
  receiver_open = λ q. refl;
}

pub Reach-Inv : (k : Kind) {s : State} → Reach k s → Inv k s
unfolding forked
Reach-Inv pipe here = record { received = refl; sender_open = λ q. cc; receiver_open = λ q. cc }
Reach-Inv fifo here = record { received = refl; sender_open = λ q. cc; receiver_open = λ q. cc }
Reach-Inv queue here = record {
  received = refl;
  sender_open = λ q. refl;
  receiver_open = λ q. refl;
}
Reach-Inv k (next r st) = Step-Inv st (Reach-Inv k r)
