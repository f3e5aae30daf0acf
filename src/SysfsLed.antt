-- ===== src/SysfsLed.antt =====
-- C/sysfs_led.c: a program that blinks a LED through its file in /sys until it is interrupted. The
-- number of rounds after which the signal clears the flag `running` is a parameter; the calls and
-- their answers are the trace.
mod Tests
use linux_riscv.Prelude.{
  ℕ, zero, suc, ◌-◌, ◌≡◌, refl, List, [], ◌∷◌, ℤ, pos, negsuc, is_neg, Bool, true, false, not,
  Option, none, some, arith, if◌then◌else◌, Bool-cases, inl, inr,
}
use linux_riscv.Calls.{
  Trace, Oracle, M, ask, pure, ◌>>=◌, ◌>>◌, choose, is_null, Effect, acquire, release, keep,
  if_granted, settle,
}

pub data Call : Type 0 where
  access open_led close sleep : Call
  write : ℕ → Call

pub data Resource : Type 0 where
  led_file : Resource

abbrev pub same : Resource → Resource → Bool
same led_file led_file = true

abbrev pub effect : Call → ℤ → Effect Resource
effect access r = keep
effect open_led r = if_granted r led_file
effect close r = release led_file
effect sleep r = keep
effect (write v) r = keep

abbrev pub held : Trace Call → Option (List Resource)
held = settle same effect

-- The value of the latest write.
abbrev pub last_write : Trace Call → Option ℕ
last_write [] = none
last_write ((write v, r) ∷ tr) = some v
last_write ((access, r) ∷ tr) = last_write tr
last_write ((open_led, r) ∷ tr) = last_write tr
last_write ((close, r) ∷ tr) = last_write tr
last_write ((sleep, r) ∷ tr) = last_write tr

abbrev minus_one : ℤ
minus_one = negsuc 0

module _ (os : Oracle Call) where
  pub set_led_brightness : ℕ → M Call ℤ
  set_led_brightness value = do
    fd ← ask os open_led
    choose (is_neg fd) (pure minus_one) do
      written ← ask os (write value)
      choose (is_neg written) (do ask os close; pure minus_one) (do ask os close; pure (pos 0))

  -- The loop, which finds the flag cleared after `rounds` more rounds, or ends by a failure before.
  pub blink : (rounds state : ℕ) → M Call (Unit {0})
  blink zero state tr = (tt, tr)
  blink (suc rounds) state tr =
      let r = set_led_brightness (1 - state) tr in
      let slept = ask os sleep r.1 in
      let again = blink rounds (1 - state) slept.1 in if is_neg r.0 then (tt, r.1) else again

  -- 0 is EXIT_SUCCESS, and 1 is EXIT_FAILURE.
  pub main : (rounds : ℕ) → M Call ℤ
  main rounds = do
    ok ← ask os access
    choose (not (is_null ok)) (pure (pos 1)) do
      off ← set_led_brightness 0
      choose (is_neg off) (pure (pos 1)) do blink rounds 0; set_led_brightness 0; pure (pos 0)

  set_led_brightness-held :
      (value : ℕ) (tr : Trace Call)
      → held tr ≡ some []
      → held (set_led_brightness value tr).1 ≡ some []
  unfolding set_led_brightness
  set_led_brightness-held value tr h = ground arith

  blink-held :
      (rounds state : ℕ) (tr : Trace Call)
      → held tr ≡ some []
      → held (blink rounds state tr).1 ≡ some []
  unfolding blink
  blink-held zero state tr h = h
  blink-held (suc rounds) state tr h =
      elim (Bool-cases (is_neg (set_led_brightness (1 - state) tr).0)) [
        | inl bad ↦ rw bad (set_led_brightness-held (1 - state) tr h)
        | inr good ↦
            rw good
              (blink-held rounds (1 - state) _ (rw (set_led_brightness-held (1 - state) tr h)))
      ]

  -- The LED program leaves no file open, however long it blinks and whatever fails.
  pub main-held : (rounds : ℕ) → held (main rounds []).1 ≡ some []
  unfolding main
  main-held rounds =
      let t₀ = (ask os access []).1 in
      let t₁ = (set_led_brightness 0 t₀).1 in
      let t₂ = (blink rounds 0 t₁).1 in
      let h₁ : held t₁ ≡ some [] = set_led_brightness-held 0 t₀ refl in
      let h₂ : held t₂ ≡ some [] = blink-held rounds 0 t₁ h₁ in
      ground (arith, h₁, h₂, set_led_brightness-held 0 t₂ h₂)

  set_led_brightness-last :
      (value : ℕ) (tr : Trace Call)
      → is_neg (os tr open_led) ≡ false
      → last_write (set_led_brightness value tr).1 ≡ some value
  unfolding set_led_brightness
  set_led_brightness-last value tr h = ground arith

  -- Where the file of the LED can always be opened, a run that ends with success wrote the value 0
  -- last.
  pub main-off :
      (rounds : ℕ)
      → ((tr : Trace Call) → is_neg (os tr open_led) ≡ false)
      → (main rounds []).0 ≡ pos 0
      → last_write (main rounds []).1 ≡ some 0
  unfolding main
  main-off rounds h e =
      let t₀ = (ask os access []).1 in
      let t₁ = (set_led_brightness 0 t₀).1 in
      let t₂ = (blink rounds 0 t₁).1 in ground (arith, set_led_brightness-last 0 t₂ (h t₂))
