-- ===== src/Mapping.antt =====
-- C/mmap_write.c and C/zero_mmap.c: a file is mapped and filled with text; /dev/zero is mapped and
-- searched for a byte that is not zero. What both ask of the system.
pub mod Write
pub mod Zero
use linux_riscv.Prelude.{ℤ, Bool, true, false}
use linux_riscv.Calls.{Effect, acquire, release, keep, if_granted}

pub data Call : Type 0 where
  open_file ftruncate mmap close munmap : Call

pub data Resource : Type 0 where
  file mapping : Resource

abbrev pub same : Resource → Resource → Bool
same file file = true
same mapping mapping = true
same _ _ = false

abbrev pub effect : Call → ℤ → Effect Resource
effect open_file r = if_granted r file
effect ftruncate r = keep
effect mmap r = if_granted r mapping
effect close r = release file
effect munmap r = release mapping
