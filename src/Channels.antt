-- ===== src/Channels.antt =====
-- C/pipe.c, C/named_pipe.c and C/mqueue.c, each with its two processes after `fork`, interleaved call by
-- call: one sends a message, the other receives and prints it. The channel is taken to be created.
pub mod Invariant
pub mod Delivery
mod Tests
use linux_riscv.Prelude.{ℕ, ◌≡◌, List, [], ◌∷◌, Bool, true, false, codes}
use linux_riscv.Messages.{sent}

pub data Kind : Type 0 where
  pipe fifo queue : Kind

-- The child of pipe.c, the parents of the others: before `close(fd[0])` or `open`, inside of `open`,
-- before the send, before the close, before `mq_unlink`, at its end.
pub data Sender : Type 0 where
  opening arrived sending closing unlinking done : Sender

-- The other process: before `close(fd[1])` or `open`, inside of `open`, before the receive, before
-- the print, before the close, at its end; with what it received.
pub data Receiver : Type 0 where
  to_open inside receiving : Receiver
  printing to_close finished : List ℕ → Receiver

pub message : Kind → List ℕ
message pipe = sent (codes "Hello Pipe") 10
message fifo = sent (codes "Hello Named Pipe") 17
message queue = sent (codes "Hello Message Queue") 19

pub record State : Type 0 where
  pub sender : Sender
  pub receiver : Receiver
  pub buffer : List ℕ

pub forked : Kind → State
forked queue = record { sender = sending; receiver = receiving; buffer = [] }
forked _ = record { sender = opening; receiver = to_open; buffer = [] }

-- The `open` of a FIFO waits for the other side.
abbrev pub sender_came : Sender → Bool
sender_came opening = false
sender_came _ = true

abbrev pub receiver_came : Receiver → Bool
receiver_came to_open = false
receiver_came _ = true

-- pipe.c leaves the descriptors to the end of the processes.
abbrev pub after_send : Kind → Sender
after_send pipe = done
after_send _ = closing

abbrev pub after_close : Kind → Sender
after_close queue = unlinking
after_close _ = done

abbrev pub after_print : Kind → List ℕ → Receiver
after_print pipe t = finished t
after_print _ t = to_close t

-- `mq_receive` waits even if there is no sender left.
abbrev pub is_queue : Kind → Bool
is_queue queue = true
is_queue _ = false

pub data Step (k : Kind) (s : State) : State → Type 0 where
  close_reading : k ≡ pipe → s.sender ≡ opening → Step k s (record s { sender = sending })
  close_writing : k ≡ pipe → s.receiver ≡ to_open → Step k s (record s { receiver = receiving })
  open_write : k ≡ fifo → s.sender ≡ opening → Step k s (record s { sender = arrived })
  open_read : k ≡ fifo → s.receiver ≡ to_open → Step k s (record s { receiver = inside })
  write_opened :
      s.sender ≡ arrived
      → receiver_came s.receiver ≡ true
      → Step k s (record s { sender = sending })
  read_opened :
      s.receiver ≡ inside
      → sender_came s.sender ≡ true
      → Step k s (record s { receiver = receiving })
  send : s.sender ≡ sending → Step k s (record s { sender = after_send k; buffer = message k })
  receive :
      (b : ℕ) (bs : List ℕ)
      → s.receiver ≡ receiving
      → s.buffer ≡ b ∷ bs
      → Step k s (record s { receiver = printing (b ∷ bs); buffer = [] })
  end_of_file :
      is_queue k ≡ false
      → s.receiver ≡ receiving
      → s.buffer ≡ []
      → s.sender ≡ done
      → Step k s (record s { receiver = printing [] })
  print :
      (t : List ℕ) → s.receiver ≡ printing t → Step k s (record s { receiver = after_print k t })
  sender_close : s.sender ≡ closing → Step k s (record s { sender = after_close k })
  unlink : s.sender ≡ unlinking → Step k s (record s { sender = done })
  receiver_close :
      (t : List ℕ) → s.receiver ≡ to_close t → Step k s (record s { receiver = finished t })

pub data Reach (k : Kind) : State → Type 0 where
  here : Reach k (forked k)
  next : {s t : State} → Reach k s → Step k s t → Reach k t
