-- ===== src/Select/Simple.antt =====
-- C/select_simple.c: the loop over standard input and /dev/urandom. `stack` is what the array `buf`
-- holds in a round before the read.
use linux_riscv.Prelude.{
  ℕ, ◌-◌, ◌≤◌, ◌≡◌, ◌↔◌, refl, inl, List, [], ◌∷◌, ◌++◌, Option, none, some, arith, length,
}
use linux_riscv.Buffer.{
  Received, failed, bytes, Fits, read_text, read_text_iff, text, text-read_text,
}

abbrev pub buf_size : ℕ
buf_size = 128

-- A round: `select` fails, or standard input and the device have something, or one of them.
pub data Round : Type 0 where
  select_fails : Round
  ready : Option Received → Option (List ℕ) → Round

pub data Item : Type 0 where
  input random : List ℕ → Item

-- What standard input brings in a round; `none` is a store outside of `buf`.
shown : Option (List ℕ) → Option (List Item)
shown none = none
shown (some buf) = some (input (text buf) ∷ [])

pub read_input : (stack : List ℕ) → Option Received → Option (List Item)
unfolding shown
read_input stack none = some []
read_input stack (some r) = shown (read_text stack r)

pub read_random : Option (List ℕ) → List Item
read_random none = []
read_random (some xs) = random xs ∷ []

-- What is printed in a round and then in the rounds behind it.
join : Option (List Item) → Option (List Item) → Option (List Item)
join none rest = none
join (some now) none = none
join (some now) (some rest) = some (now ++ rest)

pub run : (stack : List ℕ) → List Round → Option (List Item)
unfolding join
run stack [] = some []
run stack (select_fails ∷ rounds) = some []
run stack (ready i o ∷ rounds) =
    join (join (read_input stack i) (some (read_random o))) (run stack rounds)

-- `read` is given one byte less than the array has.
abbrev pub AreRead : List Round → Type 0
AreRead [] = Unit {0}
AreRead (select_fails ∷ rounds) = AreRead rounds
AreRead (ready none o ∷ rounds) = AreRead rounds
AreRead (ready (some r) o ∷ rounds) = Fits (buf_size - 1) r × AreRead rounds

-- In front of a failure of `select`, some read of standard input fails.
pub data ReadFails : List Round → Type 0 where
  now : {o : Option (List ℕ)} {rounds : List Round} → ReadFails (ready (some failed) o ∷ rounds)
  later :
      {i : Option Received} {o : Option (List ℕ)} {rounds : List Round}
      → ReadFails rounds
      → ReadFails (ready i o ∷ rounds)

read_input-bytes :
    (stack xs : List ℕ)
    → length stack ≡ buf_size
    → length xs ≤ buf_size - 1
    → (items : List Item) × (read_input stack (some (bytes xs)) ≡ some items)
unfolding read_input shown
read_input-bytes stack xs size h =
    let (b, e, size', same) = text-read_text stack xs (omega (arith, size, h)) in
    (input (text b) ∷ [], rw e refl)

join-none : (first : Option (List Item)) → join first none ≡ none
unfolding join
join-none none = refl
join-none (some items) = refl

join-some :
    (items : List Item) (rest : Option (List Item)) → join (some items) rest ≡ none → rest ≡ none
unfolding join
join-some items none e = refl
join-some items (some rest) e = cc

fails :
    (stack : List ℕ) (rounds : List Round)
    → length stack ≡ buf_size
    → AreRead rounds
    → run stack rounds ≡ none
    → ReadFails rounds
unfolding run join read_input
fails stack [] size h e = cc
fails stack (select_fails ∷ rounds) size h e = cc
fails stack (ready none o ∷ rounds) size h e =
    later (fails stack rounds size h (join-some (read_random o) (run stack rounds) e))
fails stack (ready (some failed) o ∷ rounds) size h e = now
fails stack (ready (some (bytes xs)) o ∷ rounds) size (k, h) e =
    let (items, read) = read_input-bytes stack xs size k in
    later (
      fails stack rounds size h
        (join-some (items ++ read_random o) (run stack rounds) (rw read at e)))

outside : (stack : List ℕ) (rounds : List Round) → ReadFails rounds → run stack rounds ≡ none
unfolding run join read_input shown
outside stack [] q = elim q [ ]
outside stack (select_fails ∷ rounds) q = elim q [ ]
outside stack (ready (some failed) o ∷ rounds) now =
    rw ((read_text_iff stack failed tt).1 (inl refl)) refl
outside stack (ready i o ∷ rounds) (later more) = rw (outside stack rounds more) (join-none _)

-- With 127 bytes at most in each read, the loop stores outside of its array exactly when, before
-- select fails, some read of standard input fails.
pub run_iff :
    (stack : List ℕ) (rounds : List Round)
    → length stack ≡ buf_size
    → AreRead rounds
    → (run stack rounds ≡ none) ↔ ReadFails rounds
run_iff stack rounds size h = (fails stack rounds size h, outside stack rounds)
