-- ===== src/Mapping/Zero.antt =====
-- C/zero_mmap.c. `bytes` is what the mapping of /dev/zero shows.
use linux_riscv.Prelude.{
  ℕ, zero, suc, ◌+◌, ◌<◌, ◌≡◌, ◌≢◌, ◌⊎◌, refl, inl, inr, List, [], ◌∷◌, ℤ, pos, is_neg, not, Option,
  none, some, arith, ◌==◌, if◌then◌else◌, get_elem?, Bool-cases, ==_iff,
}
use linux_riscv.Calls.{Trace, Oracle, M, ask, pure, ◌>>=◌, ◌>>◌, choose, settle_only}
use linux_riscv.Mapping.{
  Call, Resource, open_file, mmap, close, munmap, file, mapping, same, effect,
}

-- The position of the first byte from `i` on that is not zero, with the byte.
pub find_nonzero : (i : ℕ) → List ℕ → Option (ℕ × ℕ)
find_nonzero i [] = none
find_nonzero i (c ∷ cs) =
    let rest = find_nonzero (i + 1) cs in if not (c == 0) then some (i, c) else rest

-- After the loop: the status and the report on a byte.
finish : Oracle Call → Option (ℕ × ℕ) → M Call (ℤ × Option (ℕ × ℕ))
finish os (some report) = pure (pos 1, some report)
finish os none = do ask os munmap; pure (pos 0, none)

with_zeros : Oracle Call → Option (ℕ × ℕ) → M Call (ℤ × Option (ℕ × ℕ))
unfolding finish
with_zeros os found = do
  fd ← ask os open_file
  choose (is_neg fd) (pure (pos 1, none))
      do p ← ask os mmap; ask os close; choose (is_neg p) (pure (pos 1, none)) (finish os found)

pub main : (os : Oracle Call) → (bytes : List ℕ) → M Call (ℤ × Option (ℕ × ℕ))
unfolding with_zeros
main os bytes = with_zeros os (find_nonzero 0 bytes)

abbrev Settled : Resource → Trace Call → Type 0
Settled x tr = settle_only same effect x tr ≡ some []

-- The exits by what the search finds: the file is closed on each.
with_zeros-none :
    (os : Oracle Call)
    → let r = with_zeros os none [] in
      Settled file r.1 × Settled mapping r.1 × ((r.0 ≡ (pos 0, none)) ⊎ (r.0 ≡ (pos 1, none)))
unfolding with_zeros finish
with_zeros-none os = ground arith

with_zeros-some :
    (os : Oracle Call) (report : ℕ × ℕ)
    → let r = with_zeros os (some report) [] in
      Settled file r.1
      × ((r.0 ≡ (pos 1, some report)) ⊎ ((r.0 ≡ (pos 1, none)) × Settled mapping r.1))
unfolding with_zeros finish
with_zeros-some os report = ground arith

abbrev pub AllZero : List ℕ → Type 0
AllZero bytes = (j c : ℕ) → get_elem? bytes j ≡ some c → c ≡ 0

-- `c` stands at `i`, and is the first byte that is not zero.
pub record IsFirst (i c : ℕ) (bytes : List ℕ) : Type 0 where
  pub at : get_elem? bytes i ≡ some c
  pub nonzero : c ≢ 0
  pub before : (j b : ℕ) → j < i → get_elem? bytes j ≡ some b → b ≡ 0

AllZero-cons : {b : ℕ} (bs : List ℕ) → b ≡ 0 → AllZero bs → AllZero (b ∷ bs)
AllZero-cons bs h all zero c e = ground arith
AllZero-cons bs h all (suc j) c e = all j c e

IsFirst-cons : {b i c : ℕ} {bs : List ℕ} → b ≡ 0 → IsFirst i c bs → IsFirst (suc i) c (b ∷ bs)
IsFirst-cons {b} {i} {c} {bs} h first = record {
  at = first.at;
  nonzero = first.nonzero;
  before = before_cons;
}
  where
    before_cons : (j d : ℕ) → j < suc i → get_elem? (b ∷ bs) j ≡ some d → d ≡ 0
    before_cons zero d l e = ground arith
    before_cons (suc j) d l e = first.before j d (omega arith) e

find_nonzero-cases :
    (i : ℕ) (bytes : List ℕ)
    → ((find_nonzero i bytes ≡ none) × AllZero bytes)
      ⊎ ((j c : ℕ) × (find_nonzero i bytes ≡ some (i + j, c)) × IsFirst j c bytes)
unfolding find_nonzero
find_nonzero-cases i [] = inl (refl, λ j c e. cc)
find_nonzero-cases i (b ∷ bs) = elim (Bool-cases (b == 0)) [
  | inl zero_here ↦
      let here : b ≡ 0 = (==_iff b 0).0 zero_here in
      elim (find_nonzero-cases (i + 1) bs) [
        | inl (nothing, all) ↦ inl (rw zero_here nothing, AllZero-cons bs here all)
        | inr (j, c, found, first) ↦
            let e : i + 1 + j ≡ i + suc j = omega arith in
            inr (suc j, c, rw (zero_here, found, e) refl, IsFirst-cons here first)
      ]
  | inr nonzero_here ↦
      let e : i + 0 ≡ i = omega arith in
      inr (
        0,
        b,
        rw (nonzero_here, e) refl,
        record {
          at = refl;
          nonzero = λ z. cc ((==_iff b 0).1 z);
          before = λ j c h. absurd (omega arith);
        },
      )
]

-- zero_mmap.c closes the file on every path; it ends with status 0 and the mapping removed where
-- all bytes are zero, with status 1 and the position and value of the first byte that is not, or
-- with status 1 and nothing mapped.
pub main-AllZero :
    (os : Oracle Call) (bytes : List ℕ)
    → let r = main os bytes [] in
      (settle_only same effect file r.1 ≡ some [])
      × (((r.0 ≡ (pos 0, none)) × (settle_only same effect mapping r.1 ≡ some []) × AllZero bytes)
          ⊎ ((i c : ℕ) × (r.0 ≡ (pos 1, some (i, c))) × IsFirst i c bytes)
          ⊎ ((r.0 ≡ (pos 1, none)) × (settle_only same effect mapping r.1 ≡ some [])))
unfolding main
main-AllZero os bytes = elim (find_nonzero-cases 0 bytes) [
  | inl (nothing, all) ↦
      let (closed, unmapped, result) = with_zeros-none os in
      rw nothing (
        closed,
        elim result [
          | inl done ↦ inl (done, unmapped, all)
          | inr failed ↦ inr (inr (failed, unmapped))
        ],
      )
  | inr (j, c, found, first) ↦
      let e : 0 + j ≡ j = omega arith in
      let (closed, result) = with_zeros-some os (j, c) in
      rw (found, e)
        (
          closed,
          elim result [ inl done ↦ inr (inl (j, c, done, first)) | inr failed ↦ inr (inr failed) ],
        )
]
