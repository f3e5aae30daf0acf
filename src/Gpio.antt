-- ===== src/Gpio.antt =====
-- The GPIO drivers: modules/virt-int.c (interrupts that can be triggered through debugfs) in
-- `Virt`, modules/gpio-sim-int.c and modules/gpio-sim-demo.c (over simulated lines) in `Sim`.
pub mod Virt
pub mod Sim
