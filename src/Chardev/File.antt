-- ===== src/Chardev/File.antt =====
-- The abstract view of modules/chardev.c: a bounded file with many open positions, and its steps.
use linux_riscv.Prelude.{
  ℕ, ◌+◌, ◌-◌, ◌≤◌, ◌<◌, ◌≡◌, ◌⊎◌, List, [], ◌∷◌, ℤ, pos, arith, length, length-take, update,
  get_elem?, ltb, if◌then◌else◌, min, take, drop,
}
use linux_riscv.Kernel.{FixedSizeLlseek, enospc}
use linux_riscv.Chardev.{Device, buffer_size, seek_pos}
use linux_riscv.Chardev.Invariant.{IsValid, System}
use linux_riscv.Chardev.Content.{content}

-- The abstract state: the bytes of the file, and where each open file stands.
pub record File : Type 0 where
  pub bytes : List ℕ
  pub positions : ℕ → ℕ

-- `old` after a write at `p` that took the first `k` bytes of `user`, and may have spoilt what lies
-- up to `p + n`. Behind the old end a gap in front of `p` holds any bytes.
pub record Overwrites (old user : List ℕ) (p k n : ℕ) (new : List ℕ) : Type 0 where
  pub bounds : (k ≤ n) × (p + n ≤ buffer_size)
  pub size : length new ≡ (if ltb (length old) (p + k) then p + k else length old)
  pub taken : (i : ℕ) → i < k → get_elem? new (p + i) ≡ get_elem? user i
  pub kept : (i : ℕ) → i < length old → (i < p) ⊎ (p + n ≤ i) → get_elem? new i ≡ get_elem? old i

-- A call, with what the caller gave and what it got.
pub data Call : Type 0 where
  reads : (i count : ℕ) (delivered : List ℕ) (ret : ℤ) → Call
  writes : (i : ℕ) (user : List ℕ) (count : ℕ) (ret : ℤ) → Call
  writes_at : (p : ℕ) (user : List ℕ) (count : ℕ) (ret : ℤ) → Call
  seeks : (i : ℕ) (offset : ℤ) (whence : ℕ) (ret : ℤ) → Call
  stores : (at : ℕ) (block : List ℕ) → Call

-- A read of at most `count` bytes at `p`: what is delivered stands there, and `n` is its number. It
-- delivers as much as there is, or less where the copy faults.
pub record IsRead (file : List ℕ) (p count : ℕ) (delivered : List ℕ) (ret : ℤ) (n : ℕ)
    : Type 0 where
  pub returned : ret ≡ pos n
  pub bytes : delivered ≡ take n (drop p file)
  pub bound : n ≤ min count (length file - p)

-- A write of `count` bytes at `p` takes the first `k` of them, as far as the page goes; without room
-- or bytes it is refused and changes nothing.
pub data IsWrite (old user : List ℕ) (p count : ℕ) (ret : ℤ) (k : ℕ) (new : List ℕ) : Type 0 where
  refused :
      min count (buffer_size - p) ≡ 0
      → ret ≡ enospc
      → k ≡ 0
      → new ≡ old
      → IsWrite old user p count ret k new
  taken :
      0 < min count (buffer_size - p)
      → ret ≡ pos k
      → Overwrites old user p k (min count (buffer_size - p)) new
      → IsWrite old user p count ret k new

-- What the abstract file allows a call to answer and to do; seeks are those of the kernel, within
-- the length of the file.
abbrev pub Allows : FixedSizeLlseek → Call → File → File → Type 0
Allows seek (reads i count delivered ret) f g =
    (n : ℕ) × IsRead f.bytes (f.positions i) count delivered ret n
    × (g.bytes ≡ f.bytes)
    × (g.positions ≡ update f.positions i (f.positions i + n))
Allows seek (writes i user count ret) f g =
    (k : ℕ) × IsWrite f.bytes user (f.positions i) count ret k g.bytes
    × (g.positions ≡ update f.positions i (f.positions i + k))
Allows seek (writes_at p user count ret) f g =
    (k : ℕ) × IsWrite f.bytes user p count ret k g.bytes × (g.positions ≡ f.positions)
Allows seek (seeks i offset whence ret) f g =
    (ret ≡ seek (f.positions i) offset whence (length f.bytes))
    × (g.bytes ≡ f.bytes)
    × (g.positions ≡ update f.positions i (seek_pos ret (f.positions i)))
Allows seek (stores at block) f g =
    (length g.bytes ≡ length f.bytes)
    × ((i : ℕ)
        → i < length f.bytes
        → get_elem? g.bytes i ≡ (
            if ltb i at
            then get_elem? f.bytes i
            else if ltb i (at + length block)
            then get_elem? block (i - at)
            else get_elem? f.bytes i))
    × (g.positions ≡ f.positions)

-- The files that calls, the last of which stands first, lead to from the empty file.
pub data FileReach (seek : FixedSizeLlseek) : List Call → File → Type 0 where
  empty : {f : File} → f.bytes ≡ [] → f.positions ≡ (λ i. 0) → FileReach seek [] f
  step :
      {f g : File} {c : Call} {cs : List Call}
      → FileReach seek cs f
      → Allows seek c f g
      → FileReach seek (c ∷ cs) g

-- What the file shows of a state of the driver.
abbrev pub view : System → File
view s = record { bytes = content s.device; positions = s.positions }

pub length-content : (d : Device) → IsValid d → length (content d) ≡ d.data_len
length-content d v = omega (arith, v.page, v.within, length-take d.data_len d.kernel_buffer)
