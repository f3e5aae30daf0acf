-- ===== src/Mapping/Write.antt =====
-- C/mmap_write.c. `length` is SIZE * getpagesize(), 8192 with pages of 4096 bytes, so `int i` does not
-- wrap.
use linux_riscv.Prelude.{
  ℕ, zero, suc, ◌+◌, ◌%◌, ◌≤◌, ◌<◌, ◌≡◌, ◌≢◌, ◌⊎◌, refl, inl, inr, ap, ◌∙◌, List, [], ◌∷◌, ℤ, pos,
  is_neg, Option, none, some, arith, ◌==◌, if◌then◌else◌, length, get_elem?, Bool-cases, ==_iff,
}
use linux_riscv.Calls.{Oracle, M, ask, pure, ◌>>=◌, ◌>>◌, choose, settle_only}
use linux_riscv.Mapping.{
  Call, Resource, open_file, ftruncate, mmap, close, munmap, file, mapping, same, effect,
}

-- The byte that is stored at `i`, and the bytes from `i` on.
pub letter : ℕ → ℕ
letter i = if i % 27 == 0 then b'\n' else i % 26 + b'A'

pub fill : (i n : ℕ) → List ℕ
fill i zero = []
fill i (suc n) = letter i ∷ fill (i + 1) n

-- The calls around the loop, which leaves `filled`.
with_mapping : {A : Type 0} → Oracle Call → A → M Call (ℤ × Option A)
with_mapping os filled = do
  fd ← ask os open_file
  choose (is_neg fd) (pure (pos 1, none)) do
    r ← ask os ftruncate
    choose (is_neg r) (do ask os close; pure (pos 1, none))
        do
          p ← ask os mmap
          ask os close
          choose (is_neg p) (pure (pos 1, none)) do ask os munmap; pure (pos 0, some filled)

-- The status, and what the file holds after it was filled.
pub main : (os : Oracle Call) → (size : ℕ) → M Call (ℤ × Option (List ℕ))
unfolding with_mapping
main os size = with_mapping os (fill 0 size)

with_mapping-settles :
    {A : Type 0} (os : Oracle Call) (filled : A)
    → let r = with_mapping os filled [] in
      (settle_only same effect file r.1 ≡ some [])
      × (settle_only same effect mapping r.1 ≡ some [])
      × ((r.0 ≡ (pos 1, none)) ⊎ (r.0 ≡ (pos 0, some filled)))
unfolding with_mapping
with_mapping-settles os filled = ground arith

length-fill : (i n : ℕ) → length (fill i n) ≡ n
unfolding fill
length-fill i zero = refl
length-fill i (suc n) = omega (arith, length-fill (i + 1) n)

get_elem?-fill : (i n j : ℕ) → j < n → get_elem? (fill i n) j ≡ some (letter (i + j))
unfolding fill
get_elem?-fill i zero j h = absurd (omega arith)
get_elem?-fill i (suc n) zero h = ap (λ (k : ℕ). some (letter k)) (omega arith)
get_elem?-fill i (suc n) (suc j) h =
    let e : i + 1 + j ≡ i + suc j = omega arith in
    get_elem?-fill (i + 1) n j (omega arith) ∙ ap (λ (k : ℕ). some (letter k)) e

-- Every 27th byte ends a line; the others are capital letters.
letter_lem :
    (i : ℕ)
    → ((i % 27 ≡ 0) × (letter i ≡ b'\n')) ⊎ ((i % 27 ≢ 0) × (b'A' ≤ letter i) × (letter i ≤ b'Z'))
unfolding letter
letter_lem i = elim (Bool-cases (i % 27 == 0)) [
  | inl end ↦ inl ((==_iff _ _).0 end, rw end refl)
  | inr inside ↦ inr (λ e. cc ((==_iff _ _).1 e), rw inside (omega arith), rw inside (omega arith))
]

-- The text of `size` bytes.
pub record IsFilled (size : ℕ) (bytes : List ℕ) : Type 0 where
  pub whole : length bytes ≡ size
  pub lines : (i : ℕ) → i < size → i % 27 ≡ 0 → get_elem? bytes i ≡ some b'\n'
  pub letters :
      (i : ℕ)
      → i < size
      → i % 27 ≢ 0
      → (c : ℕ) × (get_elem? bytes i ≡ some c) × (b'A' ≤ c) × (c ≤ b'Z')

at_start : (i : ℕ) {c : ℕ} → letter i ≡ c → some (letter (0 + i)) ≡ some c
at_start i e =
    let same_place : 0 + i ≡ i = omega arith in
    ap (λ (k : ℕ). some (letter k)) same_place ∙ ap (λ (k : ℕ). some k) e

fill-IsFilled : (size : ℕ) → IsFilled size (fill 0 size)
fill-IsFilled size = record {
  whole = length-fill 0 size;
  lines = λ i h e. get_elem?-fill 0 size i h ∙ elim (letter_lem i) [
    | inl (z, end) ↦ at_start i end
    | inr (other, low, high) ↦ absurd (other e)
  ];
  letters = λ i h e. elim (letter_lem i) [
    | inl (z, end) ↦ absurd (e z)
    | inr (other, low, high) ↦ (letter i, get_elem?-fill 0 size i h ∙ at_start i refl, low, high)
  ];
}

pub held : Oracle Call → ℕ → Resource → Option (List Resource)
held os size x = settle_only same effect x (main os size []).1

-- mmap_write.c gives back the file and the mapping on every path; with status 0 the file has the
-- size, every 27th byte ends a line, and the others are capital letters.
pub main-IsFilled :
    (os : Oracle Call) (size : ℕ)
    → (held os size file ≡ some [])
      × (held os size mapping ≡ some [])
      × (((main os size []).0 ≡ (pos 1, none))
          ⊎ ((bytes : List ℕ) × ((main os size []).0 ≡ (pos 0, some bytes)) × IsFilled size bytes))
unfolding main held
main-IsFilled os size =
    let (closed, unmapped, result) = with_mapping-settles os (fill 0 size) in
    (
      closed,
      unmapped,
      elim result [ inl failed ↦ inl failed | inr done ↦ inr (_, done, fill-IsFilled size) ],
    )
