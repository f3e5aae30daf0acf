-- ===== src/Chardev/Refinement.antt =====
-- modules/chardev.c as an implementation of the abstract file: every call of the driver does, and
-- answers, what the file allows.
use linux_riscv.Prelude.{◌≡◌, refl, ap, List, [], ◌∷◌, update}
use linux_riscv.Kernel.{UserCopy, UserCopyLaws, FixedSizeLlseek, LlseekLaws}
use linux_riscv.Chardev.{fresh_device, dev_read, dev_write, dev_llseek}
use linux_riscv.Chardev.Invariant.{
  System, Step, read, write, pwrite, llseek, store, Reach, here, next, IsSafe, Reach-IsSafe,
}
use linux_riscv.Chardev.Content.{content}
use linux_riscv.Chardev.Bytes.{dev_write-IsWrite, dev_read-IsRead, mmap_store-keeps}
use linux_riscv.Chardev.File.{
  Call, reads, writes, writes_at, seeks, stores, Allows, FileReach, empty, step, view,
  length-content,
}

fresh-content : content fresh_device ≡ []
unfolding fresh_device
fresh-content = refl

module _ {u : UserCopy} {seek : FixedSizeLlseek} where
  -- The call of a step: its arguments, and what the driver gave the caller.
  abbrev pub called : {s t : System} → Step u seek s t → Call
  called (read {s} i count) =
      let r = dev_read u s.device count (s.positions i) in reads i count r.delivered r.ret
  called (write {s} i count user) =
      writes i user count (dev_write u s.device user count (s.positions i)).ret
  called (pwrite {s} p count user) = writes_at p user count (dev_write u s.device user count p).ret
  called (llseek {s} i offset whence) =
      seeks i offset whence (dev_llseek seek s.device (s.positions i) offset whence).ret
  called (store at bytes h) = stores at bytes

  -- The calls of a history, the last one first.
  abbrev pub calls : {s : System} → Reach u seek s → List Call
  calls here = []
  calls (next r st) = called st ∷ calls r

  Step-Allows :
      {s t : System}
      → UserCopyLaws u
      → IsSafe s
      → (st : Step u seek s t) → Allows seek (called st) (view s) (view t)
  unfolding dev_llseek
  Step-Allows laws v (read {s} i count) =
      let (n, r, moved) = dev_read-IsRead laws s.device count (s.positions i) v.valid in
      (n, r, refl, ap (update s.positions i) moved)
  Step-Allows laws v (write {s} i count user) =
      let (k, w, moved) = dev_write-IsWrite laws s.device user count (s.positions i) v.valid in
      (k, w, ap (update s.positions i) moved)
  Step-Allows laws v (pwrite {s} p count user) =
      let (k, w, moved) = dev_write-IsWrite laws s.device user count p v.valid in (k, w, refl)
  Step-Allows laws v (llseek {s} i offset whence) =
      let same = length-content s.device v.valid in (rw same refl, refl, refl)
  Step-Allows laws v (store {s} at block h) =
      let (size, bytes) = mmap_store-keeps s.device at block v.valid h in (size, bytes, refl)

-- Every history of reads, writes, positioned writes, seeks and stores through a mapping, with any
-- faults, is one of the abstract file: what each call of the driver returned and delivered, and
-- what it left of the bytes up to data_len and of the positions, is what the file allows for its
-- arguments.
pub Reach-FileReach :
    {u : UserCopy} {seek : FixedSizeLlseek}
    → UserCopyLaws u
    → LlseekLaws seek
    → {s : System} (r : Reach u seek s) → FileReach seek (calls r) (view s)
Reach-FileReach laws bounded here = empty fresh-content refl
Reach-FileReach laws bounded (next r st) =
    step (Reach-FileReach laws bounded r) (Step-Allows laws (Reach-IsSafe laws bounded r) st)
