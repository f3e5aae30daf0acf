-- ===== src/AddressSpace/Fixed.antt =====
-- C/mmap_fixed.c: a page is filled with a text and mapped again at the same address.
use linux_riscv.Prelude.{
  ℕ, zero, suc, ◌+◌, ◌≤◌, ◌<◌, ◌≡◌, ◌≢◌, ◌⊎◌, refl, inl, inr, Option, none, some, List, [], ◌∷◌,
  Bool, true, arith, ◌∙◌, ◌&&◌, ◌==◌, pos, if◌then◌else◌, codes, update, ◌++◌, length,
}
use linux_riscv.AddressSpace.{Memory, map_zeros, is_some}
use linux_riscv.AddressSpace.Examples.{Outcome, killed, exits}

-- `sprintf` to `p`, with the NUL among the bytes; `none`: the process is killed.
written : (p : ℕ) → List ℕ → Memory → Memory
written p [] m = m
written p (c ∷ cs) m = written (p + 1) cs (update m p (some c))

has_bytes : (n p : ℕ) → Memory → Bool
has_bytes zero p m = true
has_bytes (suc n) p m = is_some (m p) && has_bytes n (p + 1) m

pub store_bytes : (p : ℕ) → List ℕ → Memory → Option Memory
unfolding written has_bytes
store_bytes p cs m = if has_bytes (length cs) p m then some (written p cs m) else none

-- `%s` of `p`, as far as the fuel goes; `none`: outside of what is mapped.
text_from : (c : Option ℕ) → Option (List ℕ) → Option (List ℕ)
text_from none more = none
text_from (some c) none = if c == 0 then some [] else none
text_from (some c) (some s) = if c == 0 then some [] else some (c ∷ s)

pub text_at : (fuel p : ℕ) → Memory → Option (List ℕ)
unfolding text_from
text_at zero p m = none
text_at (suc fuel) p m = text_from (m p) (text_at fuel (p + 1) m)

-- The lines: the text of the first mapping; the first byte and the text of the second.
pub data Line : Type 0 where
  prev : List ℕ → Line
  new : (byte : ℕ) → List ℕ → Line

pub previous_data : List ℕ
previous_data = codes "PREVIOUS MAP DATA\n"

-- Behind the second `mmap`, which answers `q`.
show_new : List ℕ → Option ℕ → Option (List ℕ) → Outcome (List Line)
show_new s (some b) (some t) = exits (pos 0) (prev s ∷ new b t ∷ [])
show_new s _ _ = killed

map_again : List ℕ → Option ℕ → Memory → Outcome (List Line)
unfolding show_new
map_again s none m = exits (pos 1) (prev s ∷ [])
map_again s (some q) m = let m' = map_zeros q 4096 m in show_new s (m' q) (text_at 4096 q m')

show_prev : (p : ℕ) → (newmap : Option ℕ) → Option Memory → Outcome (List Line)
unfolding map_again
show_prev p newmap none = killed
show_prev p newmap (some m) = elim (text_at 4096 p m) [
  | none ↦ killed
  | some s ↦ map_again s newmap m
]

pub mmap_fixed : (prevmap newmap : Option ℕ) → Memory → Outcome (List Line)
unfolding show_prev
mmap_fixed none newmap m = exits (pos 1) []
mmap_fixed (some p) newmap m =
    show_prev p newmap (store_bytes p (previous_data ++ 0 ∷ []) (map_zeros p 4096 m))

written-before : (p a : ℕ) (cs : List ℕ) (m : Memory) → a < p → written p cs m a ≡ m a
unfolding written
written-before p a [] m h = refl
written-before p a (c ∷ cs) m h =
    written-before (p + 1) a cs (update m p (some c)) (omega arith) ∙ ground arith

text_from-nul : (o : Option (List ℕ)) → text_from (some 0) o ≡ some []
unfolding text_from
text_from-nul none = refl
text_from-nul (some s) = refl

text_from-some : (c : ℕ) (s : List ℕ) → 0 < c → text_from (some c) (some s) ≡ some (c ∷ s)
unfolding text_from
text_from-some c s h = ground arith

abbrev HasNoNul : List ℕ → Type 0
HasNoNul [] = Unit {0}
HasNoNul (c ∷ cs) = (0 < c) × HasNoNul cs

-- A text that was stored is read back.
text_at-written :
    (fuel p : ℕ) (s : List ℕ) (m : Memory)
    → HasNoNul s
    → length s < fuel
    → text_at fuel p (written p (s ++ 0 ∷ []) m) ≡ some s
unfolding text_at written
text_at-written zero p s m h l = absurd (omega arith)
text_at-written (suc fuel) p [] m h l =
    let here : update m p (some 0) p ≡ some 0 = ground arith in rw here (text_from-nul _)
text_at-written (suc fuel) p (c ∷ s) m (big, h) l =
    let m₁ = update m p (some c) in
    let here : m₁ p ≡ some c = ground arith in
    let kept = written-before (p + 1) p (s ++ 0 ∷ []) m₁ (omega arith) ∙ here in
    rw (kept, text_at-written fuel (p + 1) s m₁ h (omega arith)) (text_from-some c s big)

has_bytes-map_zeros :
    (n k p : ℕ) (m : Memory) → k + n ≤ 4096 → has_bytes n (p + k) (map_zeros p 4096 m) ≡ true
unfolding has_bytes map_zeros
has_bytes-map_zeros zero k p m h = refl
has_bytes-map_zeros (suc n) k p m h =
    let assoc : p + k + 1 ≡ p + (k + 1) = omega arith in
    let rest : has_bytes n (p + k + 1) (map_zeros p 4096 m) ≡ true =
      rw assoc (has_bytes-map_zeros n (k + 1) p m (omega arith)) in
    ground (arith, rest)

map_zeros-first : (p : ℕ) (m : Memory) → map_zeros p 4096 m p ≡ some 0
unfolding map_zeros
map_zeros-first p m = ground arith

text_at-map_zeros : (fuel p : ℕ) (m : Memory) → text_at (suc fuel) p (map_zeros p 4096 m) ≡ some []
unfolding text_at
text_at-map_zeros fuel p m = rw (map_zeros-first p m) (text_from-nul _)

stored-previous :
    (p : ℕ) (m : Memory)
    → store_bytes p (previous_data ++ 0 ∷ []) (map_zeros p 4096 m)
      ≡ some (written p (previous_data ++ 0 ∷ []) (map_zeros p 4096 m))
unfolding store_bytes previous_data
stored-previous p m =
    let same : p + 0 ≡ p = omega arith in
    let room = has_bytes-map_zeros 19 0 p m (omega arith) in rw (rw same at room) refl

no_nul : HasNoNul previous_data
unfolding previous_data
no_nul = ground arith

map_again-text :
    (p : ℕ) (newmap : Option ℕ) (m : Memory)
    → mmap_fixed (some p) newmap m
      ≡ map_again previous_data newmap (written p (previous_data ++ 0 ∷ []) (map_zeros p 4096 m))
unfolding mmap_fixed show_prev previous_data
map_again-text p newmap m =
    rw (stored-previous p m, show_prev)
      (rw (text_at-written 4096 p previous_data (map_zeros p 4096 m) no_nul (omega arith)) refl)

map_again-new :
    (s : List ℕ) (q : ℕ) (m : Memory)
    → map_again s (some q) m ≡ exits (pos 0) (prev s ∷ new 0 [] ∷ [])
unfolding map_again show_new
map_again-new s q m = rw (map_again, map_zeros-first q m, text_at-map_zeros 4095 q m) refl

-- Either call of `mmap` may fail, with status 1; otherwise the text is printed, and then a NUL and an
-- empty text, since the second mapping reads as zeros.
pub mmap_fixed_lem :
    (prevmap newmap : Option ℕ) (m : Memory)
    → ((prevmap ≡ none) × (mmap_fixed prevmap newmap m ≡ exits (pos 1) []))
      ⊎ ((prevmap ≢ none)
          × (newmap ≡ none)
          × (mmap_fixed prevmap newmap m ≡ exits (pos 1) (prev previous_data ∷ [])))
      ⊎ ((prevmap ≢ none)
          × (newmap ≢ none)
          × (mmap_fixed prevmap newmap m ≡ exits (pos 0) (prev previous_data ∷ new 0 [] ∷ [])))
unfolding mmap_fixed
mmap_fixed_lem none newmap m = inl (refl, refl)
mmap_fixed_lem (some p) none m = inr (inl ((λ e. cc), refl, map_again-text p none m))
mmap_fixed_lem (some p) (some q) m =
    inr (inr ((λ e. cc), (λ e. cc), map_again-text p (some q) m ∙ map_again-new previous_data q _))
