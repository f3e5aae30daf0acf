-- ===== src/Select.antt =====
-- C/select.c and C/select_urandom.c: a loop over `select` on the standard input and a second source,
-- the FIFO or /dev/urandom. What `select` and the reads answer in each round is the list of rounds;
-- what the program prints is the list of items, in order. An item holds the bytes that were read;
-- `printf` shows those of the input and the FIFO up to the first NUL.
use linux_riscv.Prelude.{
  ℕ, ◌≡◌, List, [], ◌∷◌, ◌++◌, ℤ, pos, is_neg, Bool, true, false, not, Option, some, none,
  if◌then◌else◌,
}
use linux_riscv.Calls.{
  Trace, Oracle, M, ask, pure, ◌>>=◌, ◌>>◌, choose, is_null, Effect, acquire, release, keep,
  if_granted, settle_only,
}
pub mod Simple
pub mod Text
pub mod Closing

-- An answer of `read`: -1 with EAGAIN, -1 with another error, or the bytes, none at the end.
pub data Answer : Type 0 where
  try_again broken : Answer
  bytes : List ℕ → Answer

-- An answer of `select`, with the reads of the descriptors that are ready.
pub data Round : Type 0 where
  interrupted failed : Round
  ready : Option Answer → Option Answer → Round

pub data Item : Type 0 where
  error end_of_input : Item
  typed arrived : List ℕ → Item

-- `break` is true.
pub read_stdin : Option Answer → Bool × List Item
read_stdin none = (false, [])
read_stdin (some try_again) = (true, error ∷ [])
read_stdin (some broken) = (true, error ∷ [])
read_stdin (some (bytes [])) = (true, end_of_input ∷ [])
read_stdin (some (bytes (c ∷ cs))) = (false, typed (c ∷ cs) ∷ [])

pub read_fifo : Option Answer → Bool × List Item
read_fifo none = (false, [])
read_fifo (some try_again) = (false, [])
read_fifo (some broken) = (true, error ∷ [])
read_fifo (some (bytes [])) = (false, [])
read_fifo (some (bytes (c ∷ cs))) = (false, arrived (c ∷ cs) ∷ [])

pub read_urandom : Option Answer → Bool × List Item
read_urandom none = (false, [])
read_urandom (some try_again) = (true, error ∷ [])
read_urandom (some broken) = (true, error ∷ [])
read_urandom (some (bytes [])) = (false, [])
read_urandom (some (bytes (c ∷ cs))) = (false, arrived (c ∷ cs) ∷ [])

-- The body of the loop; the second source is read only if the input has not ended it.
pub one_round : (second : Option Answer → Bool × List Item) → Round → Bool × List Item
one_round second interrupted = (false, [])
one_round second failed = (true, error ∷ [])
one_round second (ready input other) =
    let first = read_stdin input in
    let rest = second other in if first.0 then first else (rest.0, first.1 ++ rest.1)

pub run : (second : Option Answer → Bool × List Item) → List Round → List Item
run second [] = []
run second (r ∷ rs) =
    let done = one_round second r in
    let more = run second rs in if done.0 then done.1 else done.1 ++ more

-- The bytes of each source among the items.
pub typed_text : List Item → List ℕ
typed_text [] = []
typed_text (typed xs ∷ more) = xs ++ typed_text more
typed_text (i ∷ more) = typed_text more

pub arrived_text : List Item → List ℕ
arrived_text [] = []
arrived_text (arrived xs ∷ more) = xs ++ arrived_text more
arrived_text (i ∷ more) = arrived_text more

-- What the answers bring, and the rounds after which the loop goes on.
abbrev pub answer_text : Option Answer → List ℕ
answer_text (some (bytes xs)) = xs
answer_text _ = []

abbrev pub input_of : Round → List ℕ
input_of (ready input other) = answer_text input
input_of _ = []

abbrev pub other_of : Round → List ℕ
other_of (ready input other) = answer_text other
other_of _ = []

abbrev pub all_of : (Round → List ℕ) → List Round → List ℕ
all_of f [] = []
all_of f (r ∷ rs) = f r ++ all_of f rs

-- The answers of the standard input, of the FIFO and of /dev/urandom that do not end the loop.
abbrev pub input_goes_on : Option Answer → Bool
input_goes_on none = true
input_goes_on (some (bytes (c ∷ cs))) = true
input_goes_on _ = false

abbrev pub fifo_goes_on : Option Answer → Bool
fifo_goes_on (some broken) = false
fifo_goes_on _ = true

abbrev pub urandom_goes_on : Option Answer → Bool
urandom_goes_on (some broken) = false
urandom_goes_on (some try_again) = false
urandom_goes_on _ = true

abbrev pub GoesOn : (Option Answer → Bool) → List Round → Type 0
GoesOn ok [] = Unit {0}
GoesOn ok (interrupted ∷ rs) = GoesOn ok rs
GoesOn ok (failed ∷ rs) = ⊥
GoesOn ok (ready input other ∷ rs) = (input_goes_on input ≡ true) × (ok other ≡ true) × GoesOn ok rs

pub data Call : Type 0 where
  access mkfifo open_reader open_writer close_reader close_writer unlink : Call
  open_urandom close_urandom : Call

pub data Resource : Type 0 where
  reader writer urandom : Resource

abbrev pub same : Resource → Resource → Bool
same reader reader = true
same writer writer = true
same urandom urandom = true
same _ _ = false

abbrev pub effect : Call → ℤ → Effect Resource
effect access r = keep
effect mkfifo r = keep
effect open_reader r = if_granted r reader
effect open_writer r = if_granted r writer
effect close_reader r = release reader
effect close_writer r = release writer
effect unlink r = keep
effect open_urandom r = if_granted r urandom
effect close_urandom r = release urandom

-- The descriptors are closed in any order, so each is followed on its own.
abbrev pub held : Resource → Trace Call → Option (List Resource)
held = settle_only same effect

-- An exit status, with what was printed by the loop.
abbrev pub Exit : Type 0
Exit = ℤ × List Item

abbrev exit_failure : Exit
exit_failure = (pos 1, [])

module _ (os : Oracle Call) (rounds : List Round) where
  -- C/select.c from the FIFO that exists on.
  pub watch_fifo : M Call Exit
  watch_fifo = do
    fifo_rd ← ask os open_reader
    choose (is_neg fifo_rd) (pure exit_failure) do
      fifo_wr ← ask os open_writer
      choose (is_neg fifo_wr) (do ask os close_reader; pure exit_failure)
          do
            ask os close_reader
            ask os close_writer
            ask os unlink
            pure (pos 0, run read_fifo rounds)

  -- `main` of C/select.c, whose loop makes the rounds between the opening and the closing.
  pub main : M Call Exit
  unfolding watch_fifo
  main = do
    there ← ask os access
    choose (is_null there) watch_fifo
        do made ← ask os mkfifo; choose (is_neg made) (pure exit_failure) watch_fifo

  -- `main` of C/select_urandom.c.
  pub urandom_main : M Call Exit
  urandom_main = do
    urandom_fd ← ask os open_urandom
    choose (is_neg urandom_fd) (pure exit_failure)
        do ask os close_urandom; pure (pos 0, run read_urandom rounds)
