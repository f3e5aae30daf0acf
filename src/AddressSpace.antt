-- ===== src/AddressSpace.antt =====
-- The memory of a process of RV32 as the mapping examples use it: a byte for each address that is
-- mapped. What `mmap` answers is a parameter of the programs; a mapping that is granted reads as zeros.
pub mod Pages
pub mod Examples
pub mod Fixed
mod Tests
use linux_riscv.Prelude.{
  ℕ, ◌+◌, ◌-◌, ◌*◌, ◌/◌, ◌%◌, ◌^◌, ◌≤◌, ◌<◌, ◌≡◌, refl, Option, none, some, Bool, true, false, ◌&&◌,
  arith, leb, ltb, if◌then◌else◌, update, ap,
}

abbrev pub Memory : Type 0
Memory = ℕ → Option ℕ

abbrev pub inside : (p len a : ℕ) → Bool
inside p len a = leb p a && ltb a (p + len)

-- `mmap` with MAP_ANONYMOUS that answers `p`, and `munmap`.
pub map_zeros : (p len : ℕ) → Memory → Memory
map_zeros p len m a = if inside p len a then some 0 else m a

pub munmap : (p len : ℕ) → Memory → Memory
munmap p len m a = if inside p len a then none else m a

-- The answer of `mmap`; `none` is MAP_FAILED.
pub mapped : Option ℕ → (len : ℕ) → Memory → Memory
mapped none len m = m
mapped (some p) len m = map_zeros p len m

abbrev pub is_some : Option ℕ → Bool
is_some none = false
is_some (some b) = true

-- The four bytes at an address are there.
abbrev pub has_int : ℕ → Memory → Bool
has_int p m = is_some (m p) && is_some (m (p + 1)) && is_some (m (p + 2)) && is_some (m (p + 3))

put_int : (p v : ℕ) → Memory → Memory
put_int p v m =
    update
      (update (update (update m p (some (v % 256))) (p + 1) (some (v / 256 % 256))) (p + 2)
        (some (v / 65536 % 256)))
      (p + 3) (some (v / 16777216 % 256))

-- `*p = v` and `*p` for `int *p`; `none`: the process is killed. Nothing is mapped at MAP_FAILED.
pub store_int : Option ℕ → (v : ℕ) → Memory → Option Memory
unfolding put_int
store_int none v m = none
store_int (some p) v m = if has_int p m then some (put_int p v m) else none

int_of : (b0 b1 b2 b3 : Option ℕ) → Option ℕ
int_of (some b0) (some b1) (some b2) (some b3) = some (b0 + b1 * 256 + b2 * 65536 + b3 * 16777216)
int_of _ _ _ _ = none

pub load_int : Option ℕ → Memory → Option ℕ
unfolding int_of
load_int none m = none
load_int (some p) m = int_of (m p) (m (p + 1)) (m (p + 2)) (m (p + 3))

-- The bytes of a word make it up again.
int_of-bytes :
    (v : ℕ)
    → v < 2 ^ 32
    → v % 256 + v / 256 % 256 * 256 + v / 65536 % 256 * 65536 + v / 16777216 % 256 * 16777216 ≡ v
int_of-bytes v small = omega arith

put_int-bytes :
    (p v : ℕ) (m : Memory)
    → (put_int p v m p ≡ some (v % 256))
      × (put_int p v m (p + 1) ≡ some (v / 256 % 256))
      × (put_int p v m (p + 2) ≡ some (v / 65536 % 256))
      × (put_int p v m (p + 3) ≡ some (v / 16777216 % 256))
unfolding put_int
put_int-bytes p v m = (ground arith, ground arith, ground arith, ground arith)

-- In memory that is there a store succeeds, what was stored is read back, and other bytes stay.
pub load_int-store :
    (p v : ℕ) (m : Memory)
    → has_int p m ≡ true
    → v < 2 ^ 32
    → (m' : Memory) × (store_int (some p) v m ≡ some m') × (load_int (some p) m' ≡ some v)
unfolding store_int load_int int_of
load_int-store p v m h small =
    let (e0, e1, e2, e3) = put_int-bytes p v m in
    (put_int p v m, rw h refl, rw (e0, e1, e2, e3) (ap (λ (n : ℕ). some n) (int_of-bytes v small)))

pub map_zeros-has_int : (p len : ℕ) (m : Memory) → 4 ≤ len → has_int p (map_zeros p len m) ≡ true
unfolding map_zeros
map_zeros-has_int p len m h = ground arith

pub load_int-map_zeros :
    (p len : ℕ) (m : Memory) → 4 ≤ len → load_int (some p) (map_zeros p len m) ≡ some 0
unfolding load_int map_zeros int_of
load_int-map_zeros p len m h = ground arith
