-- ===== src/AddressSpace/Pages.antt =====
-- C/zeroacc.c and C/testlow.c: loops that ask for one low page after the other, each at the address
-- `i` as a hint, and use what `mmap` answers without a test.
use linux_riscv.Prelude.{
  ℕ, zero, suc, ◌*◌, ◌^◌, ◌<◌, ◌≡◌, ◌≢◌, refl, inl, inr, Option, none, some, List, [], ◌∷◌, Bool,
  true, false, arith, Option-cases, ap, sym, ◌∙◌, ◌==◌, ==_iff, Bool-cases, ◌↔◌,
}
use linux_riscv.AddressSpace.{
  Memory, mapped, map_zeros, munmap, store_int, load_int, load_int-store, map_zeros-has_int,
  load_int-map_zeros,
}

pub data Line : Type 0 where
  check : Option ℕ → Line
  value : ℕ → Line
  word : (p : Option ℕ) → ℕ → Line

-- What is printed, and whether the loop came to its end; otherwise the process was killed.
pub record Run : Type 0 where
  pub lines : List Line
  pub ended : Bool

pub printing : List Line → Run → Run
printing [] r = r
printing (l ∷ ls) r = let more = printing ls r in record more { lines = l ∷ more.lines }

killed : List Line → Run
killed ls = record { lines = ls; ended = false }

-- One pass of zeroacc.c up to the value that it prints; `none`: the process was killed.
read_back : Option ℕ → Option Memory → Option (ℕ × Memory)
read_back p none = none
read_back p (some m) = elim (load_int p m) [ none ↦ none | some v ↦ some (v, m) ]

store_pass : (p : Option ℕ) (i : ℕ) → Memory → Option (ℕ × Memory)
unfolding read_back
store_pass p i m = read_back p (store_int p i (mapped p 4096 m))

-- One pass of testlow.c.
load_pass : (p : Option ℕ) (i : ℕ) → Memory → Option (ℕ × Memory)
unfolding read_back
load_pass p i m = read_back p (some (mapped p 4096 (munmap i 4096 m)))

-- What is printed before a process is killed, or after a pass, and the passes that follow.
pass_on : List Line → (ℕ → List Line) → (Memory → Run) → Option (ℕ × Memory) → Run
unfolding printing killed
pass_on last lines more none = killed last
pass_on last lines more (some (v, m)) = printing (lines v) (more m)

store_pass-granted :
    (p i : ℕ) (m : Memory) → i < 2 ^ 32 → (m' : Memory) × (store_pass (some p) i m ≡ some (i, m'))
unfolding store_pass read_back mapped
store_pass-granted p i m h =
    let (m', stored, loaded) =
      load_int-store p i (map_zeros p 4096 m) (map_zeros-has_int p 4096 m (omega arith)) h in
    (m', rw (store_pass, stored, read_back, loaded) refl)

load_pass-granted : (p i : ℕ) (m : Memory) → (m' : Memory) × (load_pass (some p) i m ≡ some (0, m'))
unfolding load_pass read_back mapped
load_pass-granted p i m = (
  map_zeros p 4096 (munmap i 4096 m),
  rw (load_pass, read_back, load_int-map_zeros p 4096 (munmap i 4096 m) (omega arith)) refl,
)

-- The values that are printed.
pub values : List Line → List ℕ
values [] = []
values (check p ∷ ls) = values ls
values (value v ∷ ls) = v ∷ values ls
values (word p v ∷ ls) = v ∷ values ls

-- `f` of the addresses, from `n * 0x1000` down to 0x1000.
pub each : (f : ℕ → ℕ) → ℕ → List ℕ
each f zero = []
each f (suc n) = f (suc n * 4096) ∷ each f n

none-some : {p : ℕ} → none ≢ some p
none-some e = cc

≢-of-== : (k n : ℕ) → (k == n) ≡ false → k ≢ n
≢-of-== k n h e = ground arith

module _ (mmap : (hint : ℕ) → Option ℕ) where
  -- From `i = n * 0x1000` on.
  pub zeroacc : (n : ℕ) → Memory → Run
  unfolding pass_on store_pass
  zeroacc zero m = record { lines = []; ended = true }
  zeroacc (suc n) m =
      let p = mmap (suc n * 4096) in
      pass_on (check p ∷ []) (λ v. check p ∷ value v ∷ []) (zeroacc n)
        (store_pass p (suc n * 4096) m)

  pub testlow : (n : ℕ) → Memory → Run
  unfolding pass_on load_pass
  testlow zero m = record { lines = []; ended = true }
  testlow (suc n) m =
      let p = mmap (suc n * 4096) in
      pass_on [] (λ v. word p v ∷ []) (testlow n) (load_pass p (suc n * 4096) m)

  -- A loop told without a memory: the first page that is refused ends the process.
  told : (last : List Line) → (lines : (p i : ℕ) → List Line) → ℕ → Run
  unfolding printing killed
  told last lines zero = record { lines = []; ended = true }
  told last lines (suc n) = elim (mmap (suc n * 4096)) [
    | none ↦ killed last
    | some p ↦ printing (lines p (suc n * 4096)) (told last lines n)
  ]

  stored_lines : (p i : ℕ) → List Line
  stored_lines p i = check (some p) ∷ value i ∷ []

  zero_lines : (p i : ℕ) → List Line
  zero_lines p i = word (some p) 0 ∷ []

  zeroacc_lem :
      (n : ℕ) (m : Memory) → n < 2 ^ 20 → zeroacc n m ≡ told (check none ∷ []) stored_lines n
  unfolding zeroacc told stored_lines store_pass read_back mapped store_int pass_on
  zeroacc_lem zero m h = refl
  zeroacc_lem (suc n) m h = elim (Option-cases (mmap (suc n * 4096))) [
    | inl refused ↦ rw (zeroacc, told, refused) refl
    | inr (p, granted) ↦
        let (m', e) = store_pass-granted p (suc n * 4096) m (omega arith) in
        rw (zeroacc, told, granted, e)
          (ap (printing (stored_lines p (suc n * 4096))) (zeroacc_lem n m' (omega arith)))
  ]

  testlow_lem : (n : ℕ) (m : Memory) → testlow n m ≡ told [] zero_lines n
  unfolding testlow told zero_lines load_pass read_back mapped load_int pass_on
  testlow_lem zero m = refl
  testlow_lem (suc n) m = elim (Option-cases (mmap (suc n * 4096))) [
    | inl refused ↦ rw (testlow, told, refused) refl
    | inr (p, granted) ↦
        let (m', e) = load_pass-granted p (suc n * 4096) m in
        rw (testlow, told, granted, e)
          (ap (printing (zero_lines p (suc n * 4096))) (testlow_lem n m'))
  ]

  -- The pages at `0x1000` up to `n * 0x1000` are granted.
  abbrev pub AllGranted : ℕ → Type 0
  AllGranted n = (k : ℕ) → k < n → mmap (suc k * 4096) ≢ none

  -- All pages are granted when the last one is and all before it.
  AllGranted-suc : (n p : ℕ) → mmap (suc n * 4096) ≡ some p → AllGranted n → AllGranted (suc n)
  AllGranted-suc n p e h k l = elim (Bool-cases (k == n)) [
    | inl same ↦
        let at_n : k ≡ n = (==_iff k n).0 same in
        λ q. absurd (none-some (sym q ∙ ap (λ (j : ℕ). mmap (suc j * 4096)) at_n ∙ e))
    | inr other ↦ h k (omega (arith, ≢-of-== k n other))
  ]

  told_lem :
      (last : List Line) (lines : (p i : ℕ) → List Line) (f : ℕ → ℕ)
      → ((p i : ℕ) (r : Run) → values (printing (lines p i) r).lines ≡ f i ∷ values r.lines)
      → ((p i : ℕ) (r : Run) → (printing (lines p i) r).ended ≡ r.ended)
      → (n : ℕ)
      → ((told last lines n).ended ≡ true ↔ AllGranted n)
        × ((told last lines n).ended ≡ true → values (told last lines n).lines ≡ each f n)
  unfolding told each killed values
  told_lem last lines f shown kept zero = (((λ e k l. absurd (omega arith)), λ h. refl), λ e. refl)
  told_lem last lines f shown kept (suc n) = elim (Option-cases (mmap (suc n * 4096))) [
    | inl refused ↦
        rw (told, refused) (((λ e. cc), λ h. absurd (h n (omega arith) refused)), λ e. cc)
    | inr (p, granted) ↦
        let (iff, whole) = told_lem last lines f shown kept n in
        let same = kept p (suc n * 4096) (told last lines n) in
        rw (told, granted)
          (
            (
              (λ e. AllGranted-suc n p granted (iff.0 (sym same ∙ e))),
              λ h. same ∙ iff.1 (λ k l. h k (omega arith)),
            ),
            λ e.
                shown p (suc n * 4096) (told last lines n)
                ∙ ap (◌∷◌ (f (suc n * 4096))) (whole (sym same ∙ e)),
          )
  ]

-- Whatever the memory holds, zeroacc.c and testlow.c come to their ends exactly when every page
-- that they ask for is granted, and are killed otherwise; at its end zeroacc.c has printed the
-- address it asked for as the value of each page, from 0x100000 down, and testlow.c fifteen zeros.
pub pages-AllGranted :
    (mmap : ℕ → Option ℕ) (m : Memory)
    → let high = zeroacc mmap 256 m in
      let low = testlow mmap 15 m in
      ((high.ended ≡ true) ↔ AllGranted mmap 256)
      × (high.ended ≡ true → values high.lines ≡ each (λ i. i) 256)
      × ((low.ended ≡ true) ↔ AllGranted mmap 15)
      × (low.ended ≡ true → values low.lines ≡ each (λ i. 0) 15)
unfolding stored_lines zero_lines printing values
pages-AllGranted mmap m =
    let (high, stored) =
      told_lem mmap (check none ∷ []) (stored_lines mmap) (λ i. i) (λ p i r. refl) (λ p i r. refl)
        256 in
    let (low, zeros) =
      told_lem mmap [] (zero_lines mmap) (λ i. 0) (λ p i r. refl) (λ p i r. refl) 15 in
    rw (zeroacc_lem mmap 256 m (omega arith), testlow_lem mmap 15 m) (high, stored, low, zeros)
