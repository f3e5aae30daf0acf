-- ===== src/Chardev.antt =====
-- modules/chardev.c: a character device over one page of kernel memory. The static variables
-- `kernel_buffer` and `data_len` are the record `Device`; the position `*pos` belongs to the open
-- file and is passed on its own. Each operation runs between `mutex_lock` and `mutex_unlock`, so it
-- is one step. Bytes are numbers; log messages are left out. The sizes in `int` variables are at
-- most one page and do not wrap.
use linux_riscv.Prelude.{
  ℕ, ◌+◌, ◌-◌, ◌*◌, min, List, [], ℤ, pos, negsuc, Bool, take, drop, splice, ltb, leb, ◌==◌, not,
  if◌then◌else◌, replicate,
}
use linux_riscv.Kernel.{UserCopy, FixedSizeLlseek, page_size, enospc, einval, eagain}
pub mod Invariant
pub mod Content
pub mod RoundTrip
pub mod File
pub mod Bytes
pub mod Refinement
pub mod UserTest
pub mod Lifecycle
pub mod Timing
pub mod Main
mod Tests

abbrev pub buffer_size : ℕ
buffer_size = page_size

pub record Device : Type 0 where
  pub kernel_buffer : List ℕ
  pub data_len : ℕ

-- What `mychar_init` leaves: a cleared page, and `data_len = 0`.
pub fresh_device : Device
fresh_device = record { kernel_buffer = replicate page_size 0; data_len = 0 }

-- The value that a call returns, the bytes that reached the user, and `*pos` afterwards.
pub record ReadResult : Type 0 where
  pub ret : ℤ
  pub delivered : List ℕ
  pub f_pos : ℕ

pub record WriteResult : Type 0 where
  pub ret : ℤ
  pub device : Device
  pub f_pos : ℕ

pub record SeekResult : Type 0 where
  pub ret : ℤ
  pub f_pos : ℕ

pub dev_open : Device → ℤ × Device
dev_open d = (pos 0, d)

pub dev_release : Device → ℤ × Device
dev_release d = (pos 0, d)

-- `fixed_size_llseek` moves the file to the position that it returns.
abbrev pub seek_pos : ℤ → ℕ → ℕ
seek_pos (pos n) p = n
seek_pos (negsuc e) p = p

pub dev_llseek : FixedSizeLlseek → Device → ℕ → ℤ → ℕ → SeekResult
dev_llseek seek d p offset whence =
    let new_pos = seek p offset whence d.data_len in
    record { ret = new_pos; f_pos = seek_pos new_pos p }

-- The bytes that a read of `count` at `p` offers to `copy_to_user`.
abbrev pub read_chunk : Device → ℕ → ℕ → List ℕ
read_chunk d count p = take (min count (d.data_len - p)) (drop p d.kernel_buffer)

pub dev_read : UserCopy → Device → ℕ → ℕ → ReadResult
dev_read u d count p =
    if leb d.data_len p
    then record { ret = pos 0; delivered = []; f_pos = p }
    else let bytes_to_read = min count (d.data_len - p) in
      let (out, left) = u.copy_to_user (read_chunk d count p) in
      let bytes_read = bytes_to_read - left in
      record { ret = pos bytes_read; delivered = out; f_pos = p + bytes_read }

-- The device after a copy of `n` bytes at `p` that left `left` of them out.
abbrev pub stored : Device → ℕ → ℕ → List ℕ × ℕ → Device
stored d n p (bytes, left) = record {
  kernel_buffer = splice d.kernel_buffer p bytes;
  data_len =
      if ltb d.data_len (p + (n - left)) then min (p + (n - left)) buffer_size else d.data_len;
}

pub dev_write : UserCopy → Device → List ℕ → ℕ → ℕ → WriteResult
dev_write u d user count p =
    if leb buffer_size p
    then record { ret = enospc; device = d; f_pos = p }
    else let bytes_to_write = min count (buffer_size - p) in
      let copied = u.copy_from_user user bytes_to_write in
      if bytes_to_write == 0 then record { ret = enospc; device = d; f_pos = p } else record {
        ret = pos (bytes_to_write - copied.1);
        device = stored d bytes_to_write p copied;
        f_pos = p + (bytes_to_write - copied.1);
      }

-- `remap_mm`, with the answer of `remap_pfn_range` as `remap_ok`. A mapping covers `size` bytes of
-- the page from its start.
pub remap_mm : (vm_start vm_end vm_pgoff : ℕ) → (remap_ok : Bool) → ℤ
remap_mm vm_start vm_end vm_pgoff remap_ok =
    if ltb page_size (vm_end - vm_start)
    then einval
    else if not (vm_pgoff == 0)
    then einval
    else if remap_ok
    then pos 0
    else eagain

-- A store of `bytes` through a mapping, at offset `at` of the page.
pub mmap_store : Device → ℕ → List ℕ → Device
mmap_store d at bytes = record d { kernel_buffer = splice d.kernel_buffer at bytes }

-- A load of `n` bytes through a mapping.
pub mmap_load : Device → ℕ → ℕ → List ℕ
mmap_load d at n = take n (drop at d.kernel_buffer)
