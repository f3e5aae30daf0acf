-- ===== src/AddressSpace/Tests.antt =====
-- C/zeroacc.c and C/testlow.c where every page is granted at the address that is asked for.
use linux_riscv.Prelude.{ℕ, ◌≡◌, ◌↔◌, Option, some, none, true}
use linux_riscv.AddressSpace.{Memory}
use linux_riscv.AddressSpace.Pages.{zeroacc, testlow, AllGranted, values, each, pages-AllGranted}

abbrev no_memory : Memory
no_memory a = none

abbrev as_asked : ℕ → Option ℕ
as_asked hint = some hint

pages-AllGranted_example :
    let high = zeroacc as_asked 256 no_memory in
    let low = testlow as_asked 15 no_memory in
    ((high.ended ≡ true) ↔ AllGranted as_asked 256)
    × (high.ended ≡ true → values high.lines ≡ each (λ i. i) 256)
    × ((low.ended ≡ true) ↔ AllGranted as_asked 15)
    × (low.ended ≡ true → values low.lines ≡ each (λ i. 0) 15)
pages-AllGranted_example = pages-AllGranted as_asked no_memory
