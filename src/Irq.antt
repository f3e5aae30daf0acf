-- ===== src/Irq.antt =====
-- The modules that register a threaded interrupt handler: modules/sysfs.c, modules/irqnet.c and
-- modules/vint_net.c. Handlers are functions from the interrupt to the kernel's `irqreturn_t`;
-- what the two halves log is the list `Log`, and the counter of irqnet.c is a number.
mod Tests
use linux_riscv.Prelude.{
  ℕ, zero, suc, ◌++◌, ◌∙◌, ◌+◌, ◌≡◌, ◌≢◌, ◌⊎◌, refl, List, [], ◌∷◌, ℤ, pos, is_neg, Bool, true,
  false, not, Option, some, arith, length, replicate, ap,
}
use linux_riscv.Calls.{
  Trace, Oracle, M, ask, pure, ◌>>=◌, ◌>>◌, choose, is_null, Effect, acquire, release, keep,
  if_granted, if_zero, settle,
}

pub data IrqReturn : Type 0 where
  irq_none irq_handled irq_wake_thread : IrqReturn

pub data Half : Type 0 where
  top bottom : Half

-- modules/sysfs.c

pub my_hardirq_handler : List Half → IrqReturn × List Half
my_hardirq_handler log = (irq_wake_thread, top ∷ log)

pub my_thread_handler : List Half → IrqReturn × List Half
my_thread_handler log = (irq_handled, bottom ∷ log)

-- A write of `count` bytes to the attribute calls the top half and drops what it returns.
pub trigger_store : ℕ → List Half → ℤ × List Half
unfolding my_hardirq_handler
trigger_store count log = (pos count, (my_hardirq_handler log).1)

pub triggers : List ℕ → List Half → List Half
triggers [] log = log
triggers (count ∷ counts) log = triggers counts (trigger_store count log).1

replicate-cons {ℓ} :
    {A : Type ℓ} (n : ℕ) (a : A) (xs : List A) → replicate n a ++ a ∷ xs ≡ a ∷ (replicate n a ++ xs)
replicate-cons zero a xs = refl
replicate-cons (suc n) a xs = ap (◌∷◌ a) (replicate-cons n a xs)

-- Any sequence of writes to the attribute of sysfs.c runs the top half once for each write, and
-- never the bottom half.
pub triggers-top :
    (counts : List ℕ) (log : List Half) → triggers counts log ≡ replicate (length counts) top ++ log
unfolding triggers trigger_store
triggers-top [] log = refl
triggers-top (count ∷ counts) log =
    triggers-top counts (top ∷ log) ∙ replicate-cons (length counts) top log

pub data Call : Type 0 where
  request_threaded_irq free_irq : Call
  root_device_register root_device_unregister : Call
  device_create_file device_remove_file : Call

pub data Resource : Type 0 where
  irq root_device file : Resource

abbrev pub same : Resource → Resource → Bool
same irq irq = true
same root_device root_device = true
same file file = true
same _ _ = false

abbrev pub effect : Call → ℤ → Effect Resource
effect request_threaded_irq r = if_zero r irq
effect free_irq r = release irq
effect root_device_register r = if_granted r root_device
effect root_device_unregister r = release root_device
effect device_create_file r = if_zero r file
effect device_remove_file r = release file

abbrev pub held : Trace Call → Option (List Resource)
held = settle same effect

module _ (os : Oracle Call) where
  pub my_init : M Call ℤ
  my_init = do
    ret ← ask os request_threaded_irq
    choose (not (is_null ret)) (pure ret) do
      trigger_dev ← ask os root_device_register
      choose (is_neg trigger_dev) (do ask os free_irq; pure trigger_dev)
          do
            ret ← ask os device_create_file
            choose (not (is_null ret)) (do ask os root_device_unregister; ask os free_irq; pure ret)
                (pure (pos 0))

  pub my_exit : M Call (Unit {0})
  my_exit = do ask os device_remove_file; ask os root_device_unregister; ask os free_irq; pure tt

  -- my_init of sysfs.c either returns 0, holds the interrupt, the root device and its attribute,
  -- and my_exit gives all back; or it returns another value and holds nothing.
  pub my_init-held :
      (((my_init []).0 ≡ pos 0)
        × (held (my_init []).1 ≡ some (file ∷ root_device ∷ irq ∷ []))
        × (held (my_exit (my_init []).1).1 ≡ some []))
      ⊎ (((my_init []).0 ≢ pos 0) × (held (my_init []).1 ≡ some []))
  unfolding my_init my_exit
  my_init-held = ground arith

  -- `my_init` and `my_exit` of modules/irqnet.c.
  pub monitor_init : M Call ℤ
  monitor_init = do
    ret ← ask os request_threaded_irq
    choose (not (is_null ret)) (pure ret) (pure (pos 0))

  pub monitor_exit : M Call (Unit {0})
  monitor_exit = do ask os free_irq; pure tt

  pub monitor_init-held :
      (((monitor_init []).0 ≡ pos 0) × (held (monitor_exit (monitor_init []).1).1 ≡ some []))
      ⊎ (((monitor_init []).0 ≢ pos 0) × (held (monitor_init []).1 ≡ some []))
  unfolding monitor_init monitor_exit
  monitor_init-held = ground arith

-- The top half of modules/irqnet.c counts and wakes the thread, which reports the count.
pub my_shared_irq_handler : ℕ → IrqReturn × ℕ
my_shared_irq_handler int_count = (irq_wake_thread, int_count + 1)

pub monitor_thread_handler : ℕ → IrqReturn × ℕ
monitor_thread_handler int_count = (irq_none, int_count)

-- modules/vint_net.c, which has no exit and whose thread claims the interrupt.
pub vint_hardirq_handler : List Half → IrqReturn × List Half
vint_hardirq_handler log = (irq_wake_thread, top ∷ log)

pub vint_thread_handler : List Half → IrqReturn × List Half
vint_thread_handler log = (irq_handled, bottom ∷ log)

-- What the kernel does for an interrupt with a threaded handler: the thread runs if the top half
-- asks for it.
abbrev woken : (List Half → IrqReturn × List Half) → IrqReturn × List Half → IrqReturn × List Half
woken thread (irq_wake_thread, log) = thread log
woken thread (r, log) = (r, log)

abbrev pub vint_interrupts : ℕ → List Half → List Half
vint_interrupts zero log = log
vint_interrupts (suc n) log =
    (woken vint_thread_handler (vint_hardirq_handler (vint_interrupts n log))).1

abbrev pub halves : ℕ → List Half
halves zero = []
halves (suc n) = bottom ∷ top ∷ halves n

-- Every interrupt runs both halves, the top first.
pub vint_interrupts-halves : (n : ℕ) (log : List Half) → vint_interrupts n log ≡ halves n ++ log
unfolding vint_hardirq_handler vint_thread_handler
vint_interrupts-halves zero log = refl
vint_interrupts-halves (suc n) log =
    ap (λ (l : List Half). bottom ∷ top ∷ l) (vint_interrupts-halves n log)

pub vint_init : Oracle Call → M Call ℤ
vint_init os = do
  ret ← ask os request_threaded_irq
  choose (not (is_null ret)) (pure ret) (pure (pos 0))

-- Registering holds the interrupt exactly if it returns 0.
pub vint_init-held :
    (os : Oracle Call)
    → (((vint_init os []).0 ≡ pos 0) × (held (vint_init os []).1 ≡ some (irq ∷ [])))
      ⊎ (((vint_init os []).0 ≢ pos 0) × (held (vint_init os []).1 ≡ some []))
unfolding vint_init
vint_init-held os = ground arith
