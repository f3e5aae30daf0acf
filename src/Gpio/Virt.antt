-- ===== src/Gpio/Virt.antt =====
-- modules/virt-int.c. The static variables `ledlevel` and `count`, with the levels that were put on
-- the LED line (the newest first), are the record `State`; `has_led` says whether `gpio_led` is set.
pub mod Lifecycle
pub mod Count
mod Tests
use linux_riscv.Prelude.{
  ℕ, zero, suc, ◌+◌, ◌-◌, ◌%◌, ◌≤◌, ◌<◌, ◌≡◌, refl, List, [], ◌∷◌, ℤ, pos, Bool, false, not, Option,
  some, none, arith, ◌==◌, ltb, if◌then◌else◌, splice, length, take, length-splice, Bool-cases,
  ==_iff, inl, inr,
}
use linux_riscv.Prelude.Int.{◌-ℤ◌}
use linux_riscv.Kernel.{UserCopy, UserCopyLaws, from_user_full, einval, efault}
use linux_riscv.Calls.{◌>>=◌, ◌>>◌, acquire, release, keep}

pub record State : Type 0 where
  pub ledlevel : ℤ
  pub count : ℕ
  pub led_line : List ℤ

pub initial : State
initial = record { ledlevel = pos 1; count = 0; led_line = [] }

-- `ledlevel = 1 - ledlevel`
pub toggle : ℤ → ℤ
toggle level = pos 1 -ℤ level

pub irq_sw : (has_led : Bool) → State → State
irq_sw has_led s =
    let level = toggle s.ledlevel in
    record {
      ledlevel = level;
      count = s.count + 1;
      led_line = if has_led then level ∷ s.led_line else s.led_line;
    }

pub interrupts : Bool → ℕ → State → State
interrupts has_led zero s = s
interrupts has_led (suc n) s = irq_sw has_led (interrupts has_led n s)

abbrev pub buf_size : ℕ
buf_size = 8

-- The byte '1' at the start of the buffer.
starts_with_one : List ℕ → Bool
starts_with_one [] = false
starts_with_one (c ∷ rest) = c == b'1'

-- `trigger_write`; `stack` is what the array `buf` holds before the copy. A store outside of the
-- array would be `none`.
store_nul : List ℕ → ℕ → Option (List ℕ)
store_nul buf i = if ltb i (length buf) then some (splice buf i (0 ∷ [])) else none

handle_command : Bool → State → ℕ → Option (List ℕ) → Option (ℤ × State)
unfolding starts_with_one
handle_command has_led s len none = none
handle_command has_led s len (some buf) =
    some (pos len, (if starts_with_one buf then irq_sw has_led s else s))

pub trigger_write :
    UserCopy → (has_led : Bool) → (stack user : List ℕ) → ℕ → State → Option (ℤ × State)
unfolding store_nul handle_command
trigger_write u has_led stack user len s =
    if ltb (buf_size - 1) len
    then some (einval, s)
    else let (bytes, left) = u.copy_from_user user len in
      if not (left == 0)
      then some (efault, s)
      else handle_command has_led s len (store_nul (splice stack 0 bytes) len)

-- After n interrupts from the start the count is n, and the level of the LED is 1 for an even n and
-- 0 for an odd n.
pub interrupts_lem :
    (has_led : Bool) (n : ℕ)
    → ((interrupts has_led n initial).count ≡ n)
      × ((interrupts has_led n initial).ledlevel ≡ pos ((n + 1) % 2))
unfolding interrupts initial irq_sw toggle
interrupts_lem has_led zero = (refl, refl)
interrupts_lem has_led (suc n) =
    let ih = interrupts_lem has_led n in (omega (arith, ih.0), rw (ih.1) (ground arith))

-- The command that a write of `len` bytes stands for.
abbrev pub is_trigger : List ℕ → ℕ → Bool
is_trigger user zero = false
is_trigger [] (suc n) = false
is_trigger (c ∷ rest) (suc n) = c == b'1'

store_nul_inside :
    (buf : List ℕ) (i : ℕ) → i < length buf → store_nul buf i ≡ some (splice buf i (0 ∷ []))
unfolding store_nul
store_nul_inside buf i h = ground arith

length-splice_start :
    (stack bytes : List ℕ)
    → length bytes ≤ length stack
    → length (splice stack 0 bytes) ≡ length stack
length-splice_start stack bytes h = length-splice stack 0 bytes (omega arith)

-- The command that stands in the buffer after a full copy of `len` bytes.
handle_full :
    (has_led : Bool) (stack user : List ℕ) (len : ℕ) (s : State)
    → length stack ≡ buf_size
    → len < buf_size
    → length (take len user) ≡ len
    → handle_command has_led s len (store_nul (splice stack 0 (take len user)) len)
      ≡ some (pos len, (if is_trigger user len then irq_sw has_led s else s))
unfolding handle_command
handle_full has_led stack user zero s h k e =
    rw
      (store_nul_inside (splice stack 0 []) 0
        (omega (arith, length-splice_start stack [] (omega arith))))
      refl
handle_full has_led stack [] (suc n) s h k e = absurd (omega arith)
handle_full has_led stack (c ∷ user) (suc n) s h k e =
    rw
      (store_nul_inside (splice stack 0 (c ∷ take n user)) (suc n)
        (omega (arith, length-splice_start stack (c ∷ take n user) (omega arith))))
      refl

module _ {u : UserCopy} (laws : UserCopyLaws u) where
  -- With its buffer of eight bytes, trigger_write never stores outside of it; it refuses more than
  -- seven bytes and a copy that fails, and otherwise returns the length and runs the interrupt
  -- handler once if the text begins with 1.
  pub trigger_write_lem :
      (has_led : Bool) (stack user : List ℕ) (len : ℕ) (s : State)
      → length stack ≡ buf_size
      → trigger_write u has_led stack user len s
        ≡ some (
            if ltb 7 len
            then (einval, s)
            else if not ((u.copy_from_user user len).1 == 0)
            then (efault, s)
            else (pos len, (if is_trigger user len then irq_sw has_led s else s)))
  unfolding trigger_write
  trigger_write_lem has_led stack user len s h =
      let copied = u.copy_from_user user len in
      elim (Bool-cases (ltb 7 len)) [
        | inl long ↦ rw long
        | inr short ↦ elim (Bool-cases (copied.1 == 0)) [
          | inr fault ↦ rw (short, fault)
          | inl done ↦
              let full = from_user_full laws user len ((==_iff copied.1 0).0 done) in
              rw (short, done, full)
                (handle_full has_led stack user len s h (ground arith)
                  (rw full at (laws.from_length user len)))
        ]
      ]
