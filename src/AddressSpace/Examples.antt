-- ===== src/AddressSpace/Examples.antt =====
-- C/user_read.c, C/user_mmap.c, C/mmap_zero.c and C/sbrk.c: single
-- mappings, at a fixed address or below the end of the heap, and accesses to them.
use linux_riscv.Prelude.{
  ℕ, ◌+◌, ◌*◌, ◌^◌, ◌<◌, ◌≡◌, ◌≢◌, ◌⊎◌, refl, inl, inr, Option, none, some, List, [], ◌∷◌, Bool,
  true, false, arith, ap, ◌∙◌, ◌==◌, ==_iff, Bool-cases, ℤ, pos, if◌then◌else◌, negsuc,
}
use linux_riscv.AddressSpace.{
  Memory, mapped, map_zeros, has_int, store_int, load_int, load_int-store, map_zeros-has_int,
}

-- How a program ends, with what it prints of the memory.
pub data Outcome (A : Type 0) : Type 0 where
  killed : Outcome A
  exits : (status : ℤ) → A → Outcome A

-- `0x10000000`
abbrev pub fixed_address : ℕ
fixed_address = 268435456

-- `*p = v;` and `*p` as an argument of `printf`.
show_int : Option ℕ → Option Memory → Outcome (List ℕ)
show_int p none = killed
show_int p (some m) = elim (load_int p m) [ none ↦ killed | some v ↦ exits (pos 0) (v ∷ []) ]

pub user_read : Memory → Outcome (List ℕ)
unfolding show_int
user_read m = show_int (some fixed_address) (some m)

-- `mm` is what `mmap` answers; the store goes to `p`.
pub user_mmap : (mm : Option ℕ) → Memory → Outcome (List ℕ)
unfolding show_int
user_mmap mm m =
    show_int (some fixed_address) (store_int (some fixed_address) 10 (mapped mm 4096 m))

-- `if((long)p&0xFFF)`: the address is not that of a page.
pub mmap_zero : (p : Option ℕ) → Memory → Outcome (List ℕ)
unfolding show_int
mmap_zero none m = exits (negsuc 0) []
mmap_zero (some p) m = show_int (some p) (store_int (some p) 1 (mapped (some p) 4096 m))

-- `end1` is the end of the heap, `granted` says whether `sbrk(0x2000)` moves it.
pub sbrk : (end1 : ℕ) → (granted : Bool) → Memory → Outcome (List ℕ)
unfolding show_int
sbrk end1 granted m =
    let grown = if granted then map_zeros end1 8192 m else m in
    show_int (some (end1 + 4096)) (store_int (some (end1 + 4096)) 1 grown)

show_int-stored :
    (p v : ℕ) (m : Memory)
    → has_int p m ≡ true
    → v < 2 ^ 32
    → show_int (some p) (store_int (some p) v m) ≡ exits (pos 0) (v ∷ [])
unfolding show_int
show_int-stored p v m h small =
    let (m', stored, loaded) = load_int-store p v m h small in rw (stored, show_int, loaded) refl

show_int-refused :
    (p v : ℕ) (m : Memory) → m p ≡ none → show_int (some p) (store_int (some p) v m) ≡ killed
unfolding show_int store_int
show_int-refused p v m h = rw (store_int, h) refl

user_read-refused : (m : Memory) → m fixed_address ≡ none → user_read m ≡ killed
unfolding user_read show_int load_int
user_read-refused m h = rw (show_int, load_int, h) refl

-- A page that does not begin at an address has nothing there, if it begins before or behind it.
map_zeros-other :
    (p a : ℕ) (m : Memory)
    → (k : ℕ) × (p ≡ k * 4096)
    → (k : ℕ) × (a ≡ k * 4096)
    → p ≢ a
    → map_zeros p 4096 m a ≡ m a
unfolding map_zeros
map_zeros-other p a m (k, e) (j, q) h = ground arith

user_mmap_lem :
    (mm : Option ℕ) (m : Memory)
    → m fixed_address ≡ none
    → ((p : ℕ) → mm ≡ some p → (k : ℕ) × (p ≡ k * 4096))
    → ((mm ≡ some fixed_address) × (user_mmap mm m ≡ exits (pos 0) (10 ∷ [])))
      ⊎ ((mm ≢ some fixed_address) × (user_mmap mm m ≡ killed))
unfolding user_mmap mapped
user_mmap_lem none m empty pages = inr ((λ e. cc), show_int-refused fixed_address 10 m empty)
user_mmap_lem (some p) m empty pages = elim (Bool-cases (p == fixed_address)) [
  | inl same ↦
      let at : p ≡ fixed_address = (==_iff p fixed_address).0 same in
      inl (
        ap (λ (n : ℕ). some n) at,
        rw at (
            show_int-stored fixed_address 10 (map_zeros fixed_address 4096 m)
              (map_zeros-has_int fixed_address 4096 m (omega arith)) (omega arith)),
      )
  | inr other ↦
      let away : p ≢ fixed_address = λ e. ground (arith, e) in
      inr (
        (λ e. away cc),
        show_int-refused fixed_address 10 (map_zeros p 4096 m)
            (map_zeros-other p fixed_address m (pages p refl) (65536, omega arith) away ∙ empty),
      )
]

mmap_zero_lem :
    (p : Option ℕ) (m : Memory)
    → ((p ≡ none) × (mmap_zero p m ≡ exits (negsuc 0) []))
      ⊎ ((p ≢ none) × (mmap_zero p m ≡ exits (pos 0) (1 ∷ [])))
unfolding mmap_zero mapped
mmap_zero_lem none m = inl (refl, refl)
mmap_zero_lem (some p) m = inr (
  (λ e. cc),
  show_int-stored p 1 (map_zeros p 4096 m) (map_zeros-has_int p 4096 m (omega arith)) (omega arith),
)

-- The word in the middle of the memory by which the heap grows.
grown-has_int : (end1 : ℕ) (m : Memory) → has_int (end1 + 4096) (map_zeros end1 8192 m) ≡ true
unfolding map_zeros
grown-has_int end1 m = ground arith

sbrk_lem :
    (end1 : ℕ) (granted : Bool) (m : Memory)
    → m (end1 + 4096) ≡ none
    → ((granted ≡ true) × (sbrk end1 granted m ≡ exits (pos 0) (1 ∷ [])))
      ⊎ ((granted ≡ false) × (sbrk end1 granted m ≡ killed))
unfolding sbrk
sbrk_lem end1 true m h = inl (
  refl,
  show_int-stored (end1 + 4096) 1 (map_zeros end1 8192 m) (grown-has_int end1 m) (omega arith),
)
sbrk_lem end1 false m h = inr (refl, show_int-refused (end1 + 4096) 1 m h)

-- Where nothing is mapped at the address of the first two and behind the end of the heap: user_read.c
-- is killed; user_mmap.c prints 10 exactly when it is granted the page that it asked for, and is
-- killed otherwise; mmap_zero.c ends with -1 or prints 1; and sbrk.c prints 1 exactly when the heap
-- grows, and is killed otherwise.
pub accesses_lem :
    (mm p : Option ℕ) (end1 : ℕ) (granted : Bool) (m : Memory)
    → m fixed_address ≡ none
    → m (end1 + 4096) ≡ none
    → ((q : ℕ) → mm ≡ some q → (k : ℕ) × (q ≡ k * 4096))
    → (user_read m ≡ killed)
      × (((mm ≡ some fixed_address) × (user_mmap mm m ≡ exits (pos 0) (10 ∷ [])))
          ⊎ ((mm ≢ some fixed_address) × (user_mmap mm m ≡ killed)))
      × (((p ≡ none) × (mmap_zero p m ≡ exits (negsuc 0) []))
          ⊎ ((p ≢ none) × (mmap_zero p m ≡ exits (pos 0) (1 ∷ []))))
      × (((granted ≡ true) × (sbrk end1 granted m ≡ exits (pos 0) (1 ∷ [])))
          ⊎ ((granted ≡ false) × (sbrk end1 granted m ≡ killed)))
accesses_lem mm p end1 granted m empty above pages = (
  user_read-refused m empty,
  user_mmap_lem mm m empty pages,
  mmap_zero_lem p m,
  sbrk_lem end1 granted m above,
)
