-- ===== src/Messages.antt =====
-- The texts that C/pipe.c, C/named_pipe.c, C/mqueue.c, C/unix_socket.c with C/unix_socket_cl.c and
-- C/poll.c pass on and print. `stack` is what the array held before the read.
use linux_riscv.Prelude.{
  ℕ, zero, suc, ◌≡◌, ◌≢◌, ◌⊎◌, ◌↔◌, refl, inl, inr, ap, List, [], ◌∷◌, ◌++◌, ℤ, pos, negsuc, Option,
  none, some, arith, ◌==◌, if◌then◌else◌, codes, length, take, drop, get_elem?, Option-cases,
}
use linux_riscv.Buffer.{
  Received, failed, bytes, Fits, filled, returned, read_text, read_text_iff, read_text-ends,
}

-- `printf("%s", buf)`: the bytes before the first NUL; `none` if it would read behind the array.
pub begin_with : ℕ → Option (List ℕ) → Option (List ℕ)
begin_with c none = none
begin_with c (some text) = some (c ∷ text)

pub printed : List ℕ → Option (List ℕ)
unfolding begin_with
printed [] = none
printed (c ∷ rest) = let more = begin_with c (printed rest) in if c == 0 then some [] else more

-- A literal with the NUL behind it, as far as the size of the `write` goes.
abbrev pub sent : List ℕ → ℕ → List ℕ
sent s n = take n (s ++ 0 ∷ [])

-- The processes that receive: what they print.
pub pipe_parent : (stack : List ℕ) → Option (List ℕ)
pipe_parent stack = printed (filled stack (bytes (sent (codes "Hello Pipe") 10)))

pub named_pipe_child : (stack : List ℕ) → Option (List ℕ)
named_pipe_child stack = printed (filled stack (bytes (sent (codes "Hello Named Pipe") 17)))

pub mqueue_child : (stack : List ℕ) → Option (List ℕ)
mqueue_child stack = printed (filled stack (bytes (sent (codes "Hello Message Queue") 19)))

-- `read(c, buf, 99); buf[n] = '\0';` of unix_socket.c; `none` also for a store outside of the array.
print_text : Option (List ℕ) → Option (List ℕ)
print_text none = none
print_text (some buf) = printed buf

pub unix_socket : (stack : List ℕ) → Received → Option (List ℕ)
unfolding print_text
unix_socket stack r = print_text (read_text stack r)

-- `write(s, buf, strlen(buf))` of unix_socket_cl.c.
unfoldable pub client_message : List ℕ
client_message = codes "Sending from Client"

-- C/poll.c after `poll` answered `ret`: what it prints on input is `none` for a store or a read
-- outside of the array.
pub data Outcome : Type 0 where
  timed_out poll_failed : Outcome
  input : Option (List ℕ) → Outcome

pub poll_main : (ret : ℤ) → (stack : List ℕ) → Received → Outcome
unfolding print_text
poll_main (negsuc n) stack r = poll_failed
poll_main (pos zero) stack r = timed_out
poll_main (pos (suc n)) stack r = input (print_text (read_text stack r))

-- The bytes `xs`, then what follows.
pub behind : List ℕ → Option (List ℕ) → Option (List ℕ)
unfolding begin_with
behind [] o = o
behind (c ∷ cs) o = begin_with c (behind cs o)

-- The messages of pipe.c and mqueue.c have no NUL, so what stood behind them in the array is printed
-- too; that of named_pipe.c is printed as it was sent.
pub received-printed :
    (stack : List ℕ)
    → (pipe_parent stack ≡ behind (codes "Hello Pipe") (printed (drop 10 stack)))
      × (mqueue_child stack ≡ behind (codes "Hello Message Queue") (printed (drop 19 stack)))
      × (named_pipe_child stack ≡ some (codes "Hello Named Pipe"))
unfolding pipe_parent mqueue_child named_pipe_child printed behind filled begin_with
received-printed stack = (refl, refl, refl)

printed-nul : (b : List ℕ) (i : ℕ) → get_elem? b i ≡ some 0 → printed b ≢ none
unfolding printed begin_with
printed-nul [] i e = λ q. cc
printed-nul (c ∷ b) zero e = λ q. ground arith
printed-nul (c ∷ b) (suc i) e = let ih = printed-nul b i e in λ q. ground (arith, ih)

input_injective : {a b : Option (List ℕ)} → input a ≡ input b → a ≡ b
input_injective q = cc

-- The array cannot be printed exactly when the end of its text was stored outside of it.
print_text_iff :
    (stack : List ℕ) (r : Received)
    → (print_text (read_text stack r) ≡ none) ↔ (read_text stack r ≡ none)
unfolding print_text
print_text_iff stack r = elim (Option-cases (read_text stack r)) [
  | inl outside ↦ rw outside ((λ q. refl), λ q. refl)
  | inr (b, inside) ↦
      let (i, ends) = read_text-ends stack r b inside in
      let whole = printed-nul b i ends in rw inside ((λ q. absurd (whole q)), λ q. cc)
]

-- With its array of 128 bytes, poll.c goes outside of it on input exactly when the read fails or
-- brings 128 bytes.
pub poll_main_iff :
    (n : ℕ) (stack : List ℕ) (r : Received)
    → length stack ≡ 128
    → Fits 128 r
    → (poll_main (pos (suc n)) stack r ≡ input none) ↔ ((r ≡ failed) ⊎ (returned r ≡ pos 128))
unfolding poll_main
poll_main_iff n stack r e h =
    let outside : (read_text stack r ≡ none) ↔ ((r ≡ failed) ⊎ (returned r ≡ pos (length stack))) =
      read_text_iff stack r (rw e h) in
    let shown = print_text_iff stack r in
    (
      λ q. rw e at (outside.0 (shown.0 (input_injective q))),
      λ q. ap input (shown.1 (outside.1 (rw e q))),
    )
