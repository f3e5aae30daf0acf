-- ===== src/Kernel.antt =====
-- The kernel services that the modules under modules/ call and that are not in the repository:
-- copies between kernel and user memory, the generic seek, and the error codes. They are
-- parameters; the records ending in `Laws` state what the kernel's documentation promises of them.
pub mod Memory
use linux_riscv.Prelude.{
  ℕ, ◌-◌, ◌≤◌, ◌≡◌, sym, ◌∙◌, arith, List, ℤ, pos, negsuc, length, take, take_all,
}

-- PAGE_SIZE of the RV32 kernel, and the error codes as C returns them.
abbrev pub page_size : ℕ
page_size = 4096

abbrev pub enospc : ℤ
enospc = negsuc 27

abbrev pub einval : ℤ
einval = negsuc 21

abbrev pub eagain : ℤ
eagain = negsuc 10

abbrev pub enomem : ℤ
enomem = negsuc 11

abbrev pub efault : ℤ
efault = negsuc 13

-- `copy_to_user` takes the kernel's bytes and gives those that arrived, with the number that did
-- not. `copy_from_user` takes the user's memory from the address on and the size, and gives what
-- the destination holds afterwards, with the number of bytes that were not copied.
pub record UserCopy : Type 0 where
  pub copy_to_user : List ℕ → List ℕ × ℕ
  pub copy_from_user : List ℕ → ℕ → List ℕ × ℕ

pub record UserCopyLaws (u : UserCopy) : Type 0 where
  pub to_left : (src : List ℕ) → (u.copy_to_user src).1 ≤ length src
  pub to_bytes :
      (src : List ℕ) → (u.copy_to_user src).0 ≡ take (length src - (u.copy_to_user src).1) src
  pub from_left : (user : List ℕ) (n : ℕ) → (u.copy_from_user user n).1 ≤ n
  pub from_length : (user : List ℕ) (n : ℕ) → length (u.copy_from_user user n).0 ≡ n
  pub from_bytes :
      (user : List ℕ) (n : ℕ)
      → take (n - (u.copy_from_user user n).1) (u.copy_from_user user n).0
        ≡ take (n - (u.copy_from_user user n).1) user

-- No byte is lost on the way between the two memories, where the user's memory is long enough.
pub record NoFault (u : UserCopy) : Type 0 where
  pub to_all : (src : List ℕ) → (u.copy_to_user src).1 ≡ 0
  pub from_all : (user : List ℕ) (n : ℕ) → n ≤ length user → (u.copy_from_user user n).1 ≡ 0

module _ {u : UserCopy} (laws : UserCopyLaws u) where
  -- The bytes that a copy brings from the user if it leaves none out.
  pub from_user_full :
      (user : List ℕ) (n : ℕ)
      → (u.copy_from_user user n).1 ≡ 0
      → (u.copy_from_user user n).0 ≡ take n user
  from_user_full user n z =
      sym (take_all n (u.copy_from_user user n).0 (omega (arith, laws.from_length user n)))
      ∙ (let e : n - (u.copy_from_user user n).1 ≡ n = omega (arith, z) in
          rw e at (laws.from_bytes user n))

  pub to_user_full : (src : List ℕ) → (u.copy_to_user src).1 ≡ 0 → (u.copy_to_user src).0 ≡ src
  to_user_full src z =
      laws.to_bytes src ∙ take_all (length src - (u.copy_to_user src).1) src (omega (arith, z))

-- `fixed_size_llseek(file, offset, whence, size)`: from the position, the offset, the origin and
-- the size to the new position or an error.
abbrev pub FixedSizeLlseek : Type 0
FixedSizeLlseek = ℕ → ℤ → ℕ → ℕ → ℤ

abbrev pub seek_set : ℕ
seek_set = 0

-- From a position within the size, a position that is granted lies within it; from the start every such one is granted.
pub record LlseekLaws (seek : FixedSizeLlseek) : Type 0 where
  pub within : (p : ℕ) (o : ℤ) (w size n : ℕ) → p ≤ size → seek p o w size ≡ pos n → n ≤ size
  pub from_start : (p n size : ℕ) → n ≤ size → seek p (pos n) seek_set size ≡ pos n
