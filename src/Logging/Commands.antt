-- ===== src/Logging/Commands.antt =====
-- The messages that C/health.c obeys: which bytes stop or start the checks.
use linux_riscv.Prelude.{
  ℕ, ◌≡◌, ◌↔◌, refl, List, [], ◌∷◌, ◌++◌, true, false, arith, ap, codes, Bool-cases, inl, inr,
}
use linux_riscv.Logging.{starts_with, contains, command, System, obey, stopped, started}

-- `word` stands somewhere in `s`.
abbrev pub Factor : List ℕ → List ℕ → Type 0
Factor word s = (before after : List ℕ) × (s ≡ before ++ (word ++ after))

starts_with-append : (word after : List ℕ) → starts_with word (word ++ after) ≡ true
unfolding starts_with
starts_with-append [] after = refl
starts_with-append (c ∷ word) after = ground (arith, starts_with-append word after)

starts_with_sound :
    (word s : List ℕ) → starts_with word s ≡ true → (after : List ℕ) × (s ≡ word ++ after)
unfolding starts_with
starts_with_sound [] s h = (s, refl)
starts_with_sound (c ∷ word) [] h = cc
starts_with_sound (c ∷ word) (d ∷ s) h =
    let (after, e) = starts_with_sound word s (ground arith) in (after, ground (arith, e))

contains-Factor : (word s : List ℕ) → contains word s ≡ true → Factor word s
unfolding contains
contains-Factor word [] h = let (after, e) = starts_with_sound word [] h in ([], after, e)
contains-Factor word (d ∷ s) h = elim (Bool-cases (starts_with word (d ∷ s))) [
  | inl here ↦ let (after, e) = starts_with_sound word (d ∷ s) here in ([], after, e)
  | inr not_here ↦
      let (before, after, e) = contains-Factor word s (rw not_here at h) in
      (d ∷ before, after, ap (◌∷◌ d) e)
]

Factor-contains : (word before after : List ℕ) → contains word (before ++ (word ++ after)) ≡ true
unfolding contains
Factor-contains word [] after = first word after (starts_with-append word after)
  where
    first :
        (word after : List ℕ)
        → starts_with word (word ++ after) ≡ true
        → contains word (word ++ after) ≡ true
    first [] [] h = h
    first [] (c ∷ after) h = rw h
    first (c ∷ word) after h = rw h
Factor-contains word (d ∷ before) after = ground (arith, Factor-contains word before after)

not_contains : (word s : List ℕ) → ¬ Factor word s → contains word s ≡ false
not_contains word s h = elim (Bool-cases (contains word s)) [
  | inl e ↦ absurd (h (contains-Factor word s e))
  | inr e ↦ e
]

-- `strstr` finds a word exactly where it stands in the text.
contains_iff : (word s : List ℕ) → (contains word s ≡ true) ↔ Factor word s
contains_iff word s = (contains-Factor word s, λ f. rw f.2 (Factor-contains word f.0 f.1))

-- A text with STOP anywhere in it stops the checks, one with START and no STOP starts them, and any
-- other changes nothing.
pub obey-command :
    (s : List ℕ) (st : System)
    → (Factor (codes "STOP") s
        → obey (command s) st ≡ record st { running = false; log = stopped ∷ st.log })
      × (¬ Factor (codes "STOP") s
          → Factor (codes "START") s
          → obey (command s) st ≡ record st { running = true; log = started ∷ st.log })
      × (¬ Factor (codes "STOP") s → ¬ Factor (codes "START") s → obey (command s) st ≡ st)
unfolding command obey
obey-command s st = (
  λ f. rw ((contains_iff (codes "STOP") s).1 f),
  λ n f. rw (not_contains (codes "STOP") s n, (contains_iff (codes "START") s).1 f),
  λ n m. rw (not_contains (codes "STOP") s n, not_contains (codes "START") s m),
)
