-- ===== src/Buffer.antt =====
-- `buf[n] = '\0'` behind a read: the arrays that the programs under C/ read into, and the store of
-- the end of the text. A store outside of the array is `none`. `n` is what `read` returned: -1, or
-- a number of bytes up to the size that it was given.
use linux_riscv.Prelude.{
  ℕ, ◌+◌, ◌≤◌, ◌<◌, ◌≡◌, ◌⊎◌, ◌↔◌, refl, inl, inr, List, [], ◌∷◌, ℤ, pos, negsuc, true, Option,
  none, some, arith, ltb, get_elem?, get_elem?-splice, Bool-cases, if◌then◌else◌, length, splice,
  take, drop, ◌++◌, length-splice, take-append, take_all, lt→ltb, ap, ◌∙◌, ◌==◌,
}

-- An answer of `read(fd, buf, cap)`: an error, or the bytes that were stored, at most `cap`.
pub data Received : Type 0 where
  failed : Received
  bytes : List ℕ → Received

abbrev pub Fits : ℕ → Received → Type 0
Fits cap failed = Unit {0}
Fits cap (bytes xs) = length xs ≤ cap

-- The array after a read, and the value of `n`.
unfoldable pub filled : List ℕ → Received → List ℕ
filled buf failed = buf
filled buf (bytes xs) = splice buf 0 xs

pub returned : Received → ℤ
returned failed = negsuc 0
returned (bytes xs) = pos (length xs)

-- `buf[n] = c`.
pub store : List ℕ → ℤ → ℕ → Option (List ℕ)
store buf (negsuc n) c = none
store buf (pos n) c = if ltb n (length buf) then some (splice buf n (c ∷ [])) else none

-- `n = read(fd, buf, cap); buf[n] = '\0';` with no test between.
pub read_text : List ℕ → Received → Option (List ℕ)
unfolding filled returned store
read_text buf r = store (filled buf r) (returned r) 0

-- The text in an array: the bytes before the first NUL.
pub text : List ℕ → List ℕ
text [] = []
text (c ∷ rest) = if c == 0 then [] else c ∷ text rest

length-filled :
    (buf xs : List ℕ) → length xs ≤ length buf → length (filled buf (bytes xs)) ≡ length buf
unfolding filled
length-filled buf xs h = length-splice buf 0 xs (omega arith)

-- The store lies in the array exactly when the read succeeded and did not fill the array.
pub read_text_iff :
    (buf : List ℕ) (r : Received)
    → Fits (length buf) r
    → (read_text buf r ≡ none) ↔ ((r ≡ failed) ⊎ (returned r ≡ pos (length buf)))
unfolding read_text store returned
read_text_iff buf failed h = ((λ e. inl refl), λ e. refl)
read_text_iff buf (bytes xs) h = ground (arith, length-filled buf xs h)

text-append_nul : (xs rest : List ℕ) → text (xs ++ 0 ∷ rest) ≡ text xs
unfolding text
text-append_nul [] rest = refl
text-append_nul (c ∷ xs) rest = ground (arith, text-append_nul xs rest)

-- What stands in front of and behind the end of the text.
abbrev rest_of : List ℕ → List ℕ → List ℕ
rest_of buf xs = drop (length xs + 1) (filled buf (bytes xs))

kept : (buf xs : List ℕ) → take (length xs) (filled buf (bytes xs)) ≡ xs
unfolding filled
kept buf xs = take-append (length xs) xs _ (omega arith) ∙ take_all (length xs) xs (omega arith)

-- Bytes that leave room for the end of the text are read and closed inside of the array, and the
-- text in it is the bytes up to the first NUL among them.
pub text-read_text :
    (buf xs : List ℕ)
    → length xs < length buf
    → (b : List ℕ) × (read_text buf (bytes xs) ≡ some b)
      × (length b ≡ length buf)
      × (text b ≡ text xs)
unfolding read_text store returned
text-read_text buf xs h =
    let full = length-filled buf xs (omega arith) in
    let inside : ltb (length xs) (length (filled buf (bytes xs))) ≡ true =
      lt→ltb _ _ (omega (arith, full)) in
    (
      splice (filled buf (bytes xs)) (length xs) (0 ∷ []),
      rw inside,
      length-splice (filled buf (bytes xs)) (length xs) (0 ∷ []) (omega (arith, full)) ∙ full,
      ap (λ (ys : List ℕ). text (ys ++ 0 ∷ rest_of buf xs)) (kept buf xs) ∙ text-append_nul xs _,
    )

-- Where the store lies in the array, a NUL stands in it.
pub read_text-ends :
    (buf : List ℕ) (r : Received) (b : List ℕ)
    → read_text buf r ≡ some b
    → (i : ℕ) × (get_elem? b i ≡ some 0)
unfolding read_text store returned
read_text-ends buf failed b e = absurd (ground arith)
read_text-ends buf (bytes xs) b e =
    let array : List ℕ = filled buf (bytes xs) in
    let seen = get_elem?-splice array (0 ∷ []) (length xs) (length xs) in
    elim (Bool-cases (ltb (length xs) (length array))) [
      | inl inside ↦ (length xs, ground (arith, seen))
      | inr outside ↦ absurd (ground arith)
    ]
