-- ===== src/SystemCalls.antt =====
-- C/urandom.c, C/sys_readwrite.c and C/exectest.c: small programs around system calls.
use linux_riscv.Prelude.{
  ℕ, zero, suc, ◌+◌, ◌*◌, ◌≡◌, ◌⊎◌, refl, List, [], ◌∷◌, ℤ, pos, negsuc, is_neg, Bool, true, false,
  Option, some, none, arith, if◌then◌else◌, ◌==◌, length, take, take_all,
}
use linux_riscv.Calls.{
  Trace, Oracle, M, ask, pure, ◌>>=◌, ◌>>◌, choose, Effect, release, keep, if_granted, settle,
}

pub data Call : Type 0 where
  open_file read close fork wait execv write : Call

-- The file is the only resource.
pub data Resource : Type 0 where
  file : Resource

abbrev same : Resource → Resource → Bool
same file file = true

abbrev effect : Call → ℤ → Effect Resource
effect open_file r = if_granted r file
effect close r = release file
effect _ r = keep

abbrev pub held : Trace Call → Option (List Resource)
held tr = settle same effect tr

-- `unsigned int data[N]` over its bytes, little-endian.
pub words : List ℕ → List ℕ
words (b0 ∷ b1 ∷ b2 ∷ b3 ∷ rest) = (b0 + b1 * 256 + b2 * 65536 + b3 * 16777216) ∷ words rest
words _ = []

abbrev is_size : ℤ → Bool
is_size (pos n) = n == 40
is_size (negsuc n) = false

-- `main` of urandom.c, with the bytes that are in `data` behind the read: its status, and what it
-- prints.
pub urandom : Oracle Call → (raw : List ℕ) → M Call (ℤ × Option (List ℕ))
urandom os raw = do
  fd ← ask os open_file
  choose (is_neg fd) (pure (pos 1, none)) do
    n ← ask os read
    choose (is_size n) (do ask os close; pure (pos 0, some (words raw)))
        (do ask os close; pure (pos 1, none))

-- `main` of sys_readwrite.c: the input that is there, or none if the read fails; what is written.
pub sys_readwrite : Option (List ℕ) → List ℕ
sys_readwrite none = []
sys_readwrite (some input) =
    let buf = take 10 input in if length buf == 0 then [] else take (length buf) buf

-- `main` of exectest.c: how each of its processes ends; `none` is the program that replaces it.
pub data Process : Type 0 where
  parent child : Process

pub exectest : Oracle Call → Process → M Call (Option ℤ)
exectest os p = do
  pid ← ask os fork
  choose (is_neg pid) (pure (some (pos 1))) (elim p [
    | parent ↦ do ask os wait; pure (some (pos 0))
    | child ↦ do r ← ask os execv; choose (is_neg r) (pure (some (pos 0))) (pure none)
  ])

-- The file is given back on every path of urandom.c; it ends with status 0, and prints the numbers,
-- exactly when the file is opened and the read brings all bytes.
pub urandom-held :
    (os : Oracle Call) (raw : List ℕ)
    → let r = urandom os raw [] in
      (held r.1 ≡ some [])
      × (((r.0 ≡ (pos 1, none))
            × ((is_neg (os [] open_file) ≡ true)
                ⊎ (is_size (os ((open_file, os [] open_file) ∷ []) read) ≡ false)))
          ⊎ ((r.0 ≡ (pos 0, some (words raw)))
              × (is_neg (os [] open_file) ≡ false)
              × (is_size (os ((open_file, os [] open_file) ∷ []) read) ≡ true)))
unfolding urandom
urandom-held os raw = ground arith

-- Each four bytes make up one number.
length-words : (n : ℕ) (raw : List ℕ) → length raw ≡ n * 4 → length (words raw) ≡ n
unfolding words
length-words zero [] e = refl
length-words zero (a ∷ raw) e = absurd (omega (arith, e))
length-words (suc n) [] e = absurd (omega (arith, e))
length-words (suc n) (a ∷ []) e = absurd (omega (arith, e))
length-words (suc n) (a ∷ b ∷ []) e = absurd (omega (arith, e))
length-words (suc n) (a ∷ b ∷ c ∷ []) e = absurd (omega (arith, e))
length-words (suc n) (a ∷ b ∷ c ∷ d ∷ raw) e = omega (arith, length-words n raw (omega (arith, e)))

-- sys_readwrite.c writes the first ten bytes of its input, or all where there are fewer.
pub sys_readwrite-take : (input : List ℕ) → sys_readwrite (some input) ≡ take 10 input
unfolding sys_readwrite
sys_readwrite-take [] = refl
sys_readwrite-take (c ∷ input) =
    let some_read : (length (take 10 (c ∷ input)) == 0) ≡ false = ground arith in
    rw some_read (take_all (length (take 10 (c ∷ input))) (take 10 (c ∷ input)) (omega arith))
