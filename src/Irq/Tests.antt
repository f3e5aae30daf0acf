-- ===== src/Irq/Tests.antt =====
-- The interrupt modules in kernels that refuse the root device, or the interrupt.
use linux_riscv.Prelude.{ℕ, ◌≡◌, refl, [], ◌∷◌, ◌+◌}
use linux_riscv.Irq.{
  irq_none, irq_handled, irq_wake_thread, my_thread_handler, bottom, my_shared_irq_handler,
  monitor_thread_handler,
}

my_thread_handler_test : my_thread_handler [] ≡ (irq_handled, bottom ∷ [])
unfolding my_thread_handler
my_thread_handler_test = refl

-- The thread of irqnet.c reports the count that its top half left.
monitor_handlers_test :
    (n : ℕ)
    → ((my_shared_irq_handler n).0 ≡ irq_wake_thread)
      × (monitor_thread_handler (my_shared_irq_handler n).1 ≡ (irq_none, n + 1))
unfolding my_shared_irq_handler monitor_thread_handler
monitor_handlers_test n = (refl, refl)
