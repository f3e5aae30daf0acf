-- ===== src/Kernel/Memory.antt =====
-- A kernel whose copies arrive as far as the user's memory goes, and whose seeks move from the start
-- only: an instance of the parameters in `Kernel`, for the tests.
use linux_riscv.Prelude.{
  ℕ, ◌-◌, ◌≤◌, ◌≡◌, refl, List, ℤ, pos, negsuc, arith, length, take, leb, if◌then◌else◌, replicate,
  length-take, length-replicate, take_all, Bool-cases, inl, inr, ◌==◌, sym,
}
use linux_riscv.Kernel.{
  UserCopy, UserCopyLaws, NoFault, FixedSizeLlseek, LlseekLaws, einval, seek_set,
}

abbrev received : List ℕ → ℕ → List ℕ × ℕ
received user n = if leb n (length user) then (take n user, 0) else (replicate n 0, n)

abbrev pub memory : UserCopy
memory = record { copy_to_user = λ src. (src, 0); copy_from_user = received }

received_left : (user : List ℕ) (n : ℕ) → (received user n).1 ≤ n
received_left user n = ground arith

received_length : (user : List ℕ) (n : ℕ) → length (received user n).0 ≡ n
received_length user n = ground (arith, length-take n user, length-replicate {A = ℕ} n 0)

received_bytes :
    (user : List ℕ) (n : ℕ)
    → take (n - (received user n).1) (received user n).0 ≡ take (n - (received user n).1) user
received_bytes user n = elim (Bool-cases (leb n (length user))) [
  | inl long ↦
      let all : n - 0 ≡ n = omega arith in
      rw (long, all) (take_all n (take n user) (omega (arith, length-take n user)))
  | inr short ↦ let none_left : n - n ≡ 0 = omega arith in rw (short, none_left) refl
]

pub memory-laws : UserCopyLaws memory
memory-laws = record {
  to_left = λ src. omega arith;
  to_bytes = λ src. sym (take_all (length src - 0) src (omega arith));
  from_left = received_left;
  from_length = received_length;
  from_bytes = received_bytes;
}

pub memory-sure : NoFault memory
memory-sure = record { to_all = λ src. refl; from_all = λ user n h. ground arith }

abbrev pub seek_from_start : FixedSizeLlseek
seek_from_start p (pos n) whence size =
    if whence == seek_set then if leb n size then pos n else einval else einval
seek_from_start p _ whence size = einval

within_lem :
    (p : ℕ) (o : ℤ) (w size n : ℕ) → p ≤ size → seek_from_start p o w size ≡ pos n → n ≤ size
within_lem p (pos k) w size n h e = ground arith
within_lem p (negsuc k) w size n h e = cc

pub seek_from_start-laws : LlseekLaws seek_from_start
seek_from_start-laws = record { within = within_lem; from_start = λ p n size h. ground arith }
