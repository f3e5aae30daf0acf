-- ===== src/Select/Text.antt =====
-- What C/select.c and C/select_urandom.c print of the bytes that their two sources bring.
use linux_riscv.Prelude.{
  ℕ, ◌≡◌, refl, append_assoc, append-nil, sym, ap, ap₂, ◌∙◌, List, [], ◌∷◌, ◌++◌, Bool, true, false,
  Option, some, none,
}
use linux_riscv.Select.{
  Answer, try_again, broken, bytes, Round, interrupted, failed, ready, Item, typed, arrived,
  read_stdin, read_fifo, read_urandom, one_round, run, typed_text, arrived_text, answer_text,
  input_of, other_of, all_of, input_goes_on, fifo_goes_on, urandom_goes_on, GoesOn,
}

typed_text-append : (xs ys : List Item) → typed_text (xs ++ ys) ≡ typed_text xs ++ typed_text ys
unfolding typed_text
typed_text-append [] ys = refl
typed_text-append (typed cs ∷ xs) ys =
    ap (◌++◌ cs) (typed_text-append xs ys) ∙ sym (append_assoc cs (typed_text xs) (typed_text ys))
typed_text-append (i ∷ xs) ys = typed_text-append xs ys

arrived_text-append :
    (xs ys : List Item) → arrived_text (xs ++ ys) ≡ arrived_text xs ++ arrived_text ys
unfolding arrived_text
arrived_text-append [] ys = refl
arrived_text-append (arrived cs ∷ xs) ys =
    ap (◌++◌ cs) (arrived_text-append xs ys)
    ∙ sym (append_assoc cs (arrived_text xs) (arrived_text ys))
arrived_text-append (i ∷ xs) ys = arrived_text-append xs ys

-- What one read passes on: to go on or not, and the bytes of each source.
record Passes (part : Bool × List Item) (from_input from_other : List ℕ) : Type 0 where
  goes_on : part.0 ≡ false
  shows : typed_text part.1 ≡ from_input
  brings : arrived_text part.1 ≡ from_other

input-Passes :
    (a : Option Answer) → input_goes_on a ≡ true → Passes (read_stdin a) (answer_text a) []
unfolding read_stdin typed_text arrived_text
input-Passes none h = record { goes_on = refl; shows = refl; brings = refl }
input-Passes (some try_again) h = cc
input-Passes (some broken) h = cc
input-Passes (some (bytes [])) h = cc
input-Passes (some (bytes (c ∷ cs))) h = record {
  goes_on = refl;
  shows = append-nil (c ∷ cs);
  brings = refl;
}

fifo-Passes : (a : Option Answer) → fifo_goes_on a ≡ true → Passes (read_fifo a) [] (answer_text a)
unfolding read_fifo typed_text arrived_text
fifo-Passes none h = record { goes_on = refl; shows = refl; brings = refl }
fifo-Passes (some try_again) h = record { goes_on = refl; shows = refl; brings = refl }
fifo-Passes (some broken) h = cc
fifo-Passes (some (bytes [])) h = record { goes_on = refl; shows = refl; brings = refl }
fifo-Passes (some (bytes (c ∷ cs))) h = record {
  goes_on = refl;
  shows = refl;
  brings = append-nil (c ∷ cs);
}

urandom-Passes :
    (a : Option Answer) → urandom_goes_on a ≡ true → Passes (read_urandom a) [] (answer_text a)
unfolding read_urandom typed_text arrived_text
urandom-Passes none h = record { goes_on = refl; shows = refl; brings = refl }
urandom-Passes (some try_again) h = cc
urandom-Passes (some broken) h = cc
urandom-Passes (some (bytes [])) h = record { goes_on = refl; shows = refl; brings = refl }
urandom-Passes (some (bytes (c ∷ cs))) h = record {
  goes_on = refl;
  shows = refl;
  brings = append-nil (c ∷ cs);
}

-- An input that ends the loop shows no text.
input_ends :
    (a : Option Answer)
    → input_goes_on a ≡ false
    → ((read_stdin a).0 ≡ true)
      × (typed_text (read_stdin a).1 ≡ [])
      × (arrived_text (read_stdin a).1 ≡ [])
unfolding read_stdin typed_text arrived_text
input_ends none h = cc
input_ends (some try_again) h = (refl, refl, refl)
input_ends (some broken) h = (refl, refl, refl)
input_ends (some (bytes [])) h = (refl, refl, refl)
input_ends (some (bytes (c ∷ cs))) h = cc

module _ (second : Option Answer → Bool × List Item) (ok : Option Answer → Bool)
    (pass : (a : Option Answer) → ok a ≡ true → Passes (second a) [] (answer_text a)) where
  -- The text of a run whose last round is the one of `input`.
  run_text :
      (before after : List Round) (input other : Option Answer)
      → GoesOn ok before
      → input_goes_on input ≡ false
      → (typed_text (run second (before ++ ready input other ∷ after)) ≡ all_of input_of before)
        × (arrived_text (run second (before ++ ready input other ∷ after)) ≡ all_of other_of before)
  unfolding run one_round
  run_text [] after input other g e =
      let (stops, shows, brings) = input_ends input e in rw stops (shows, brings)
  run_text (interrupted ∷ before) after input other g e = run_text before after input other g e
  run_text (failed ∷ before) after input other g e = absurd g
  run_text (ready a b ∷ before) after input other (h, k, g) e =
      let first = input-Passes a h in
      let rest = pass b k in
      let ih = run_text before after input other g e in
      rw (first.goes_on, rest.goes_on)
        (
          typed_text-append ((read_stdin a).1 ++ (second b).1) _
              ∙ ap₂ ◌++◌ (typed_text-append (read_stdin a).1 (second b).1) ih.0
              ∙ rw (first.shows, rest.shows)
                  (ap (λ (xs : List ℕ). xs ++ all_of input_of before) (append-nil (answer_text a))),
          arrived_text-append ((read_stdin a).1 ++ (second b).1) _
              ∙ ap₂ ◌++◌ (arrived_text-append (read_stdin a).1 (second b).1) ih.1
              ∙ rw (first.brings, rest.brings) refl,
        )

-- If no round before goes wrong and the input ends the loop in the next one, both programs pass to
-- their prints just the bytes that each source brought in the rounds before, in order; what the
-- second source has ready in the last round is not read.
pub run-text :
    (before after : List Round) (input other : Option Answer)
    → input_goes_on input ≡ false
    → GoesOn fifo_goes_on before
    → GoesOn urandom_goes_on before
    → ((typed_text (run read_fifo (before ++ ready input other ∷ after)) ≡ all_of input_of before)
        × (arrived_text (run read_fifo (before ++ ready input other ∷ after))
            ≡ all_of other_of before))
      × ((typed_text (run read_urandom (before ++ ready input other ∷ after))
            ≡ all_of input_of before)
          × (arrived_text (run read_urandom (before ++ ready input other ∷ after))
              ≡ all_of other_of before))
run-text before after input other e g h = (
  run_text read_fifo fifo_goes_on fifo-Passes before after input other g e,
  run_text read_urandom urandom_goes_on urandom-Passes before after input other h e,
)
