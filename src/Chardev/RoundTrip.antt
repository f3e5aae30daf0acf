-- ===== src/Chardev/RoundTrip.antt =====
-- modules/chardev.c: what a write does to the file, and that it is read back.
use linux_riscv.Prelude.{
  ℕ, ◌+◌, ◌-◌, ◌≤◌, ◌<◌, ◌≡◌, ◌⊎◌, refl, ap, ◌∙◌, min, List, ◌++◌, pos, arith, length, take, drop,
  splice, length-take, take_all, drop-splice, take-append,
}
use linux_riscv.Kernel.{UserCopy, UserCopyLaws, NoFault, enospc}
use linux_riscv.Chardev.{Device, WriteResult, buffer_size, dev_read, dev_write, stored}
use linux_riscv.Chardev.Invariant.{IsValid, dev_write-IsValid}
use linux_riscv.Chardev.Content.{content, stored-content, dev_read-content}

-- A write at the end of the page, or of no byte, is refused and changes nothing.
pub dev_write_refused :
    (u : UserCopy) (d : Device) (user : List ℕ) (count p : ℕ)
    → (buffer_size ≤ p) ⊎ (count ≡ 0)
    → dev_write u d user count p ≡ record { ret = enospc; device = d; f_pos = p }
unfolding dev_write
dev_write_refused u d user count p h = ground arith

-- What a write that was granted `n` bytes did.
pub record Wrote (d : Device) (bytes : List ℕ) (p n : ℕ) (r : WriteResult) : Type 0 where
  pub returned : r.ret ≡ pos n
  pub file : content r.device ≡ splice (content d) p bytes
  pub moved : r.f_pos ≡ p + n
  pub reaches : p + n ≤ r.device.data_len

pub file_long : (d : Device) (p : ℕ) → IsValid d → p ≤ d.data_len → p ≤ length (content d)
file_long d p v h = omega (arith, v.page, v.within, length-take d.data_len d.kernel_buffer)

module _ {u : UserCopy} (laws : UserCopyLaws u) (sure : NoFault u) where
  dev_write_granted :
      (d : Device) (user : List ℕ) (count p : ℕ)
      → p < buffer_size
      → 0 < count
      → count ≤ length user
      → dev_write u d user count p ≡ record {
        ret = pos (min count (buffer_size - p));
        device =
            stored d
              (min count (buffer_size - p))
              p
              (u.copy_from_user user (min count (buffer_size - p)));
        f_pos = p + min count (buffer_size - p);
      }
  unfolding dev_write
  dev_write_granted d user count p h k l =
      ground (arith, sure.from_all user (min count (buffer_size - p)) (omega arith))

  stored-reaches :
      (d : Device) (user : List ℕ) (n p : ℕ)
      → IsValid d
      → p + n ≤ buffer_size
      → n ≤ length user
      → p + n ≤ (stored d n p (u.copy_from_user user n)).data_len
  stored-reaches d user n p v h l = ground (arith, sure.from_all user n l)

  -- Where no copy faults, a write of at least one byte inside the file and the page returns the
  -- number of bytes that fit, replaces the bytes of the file from the position on and keeps the
  -- others, and moves the position behind them.
  pub dev_write-content :
      (d : Device) (user : List ℕ) (count p : ℕ)
      → IsValid d
      → p ≤ d.data_len
      → p < buffer_size
      → 0 < count
      → count ≤ length user
      → Wrote d
          (take (min count (buffer_size - p)) user)
          p
          (min count (buffer_size - p))
          (dev_write u d user count p)
  dev_write-content d user count p v h k l m =
      let n : ℕ = min count (buffer_size - p) in
      rw (dev_write_granted d user count p k l m) (record {
        returned = refl;
        file =
            stored-content laws d user n p v h (omega arith) (sure.from_all user n (omega arith));
        moved = refl;
        reaches = stored-reaches d user n p v (omega arith) (omega arith);
      })

  -- Bytes that lie in the file are delivered by a read that asks for just them.
  pub read_exact :
      (d : Device) (bytes rest : List ℕ) (p n : ℕ)
      → IsValid d
      → drop p (content d) ≡ bytes ++ rest
      → n ≡ length bytes
      → p + n ≤ d.data_len
      → ((dev_read u d n p).delivered ≡ bytes) × ((dev_read u d n p).ret ≡ pos n)
  read_exact d bytes rest p n v e l h =
      let (m, reads, bound, full) = dev_read-content laws d n p v in
      let all : m ≡ n = omega (arith, full (sure.to_all _)) in
      (
        reads.bytes
            ∙ ap (λ (k : ℕ). take k (drop p (content d))) all
            ∙ ap (take n) e
            ∙ take-append n bytes rest (omega arith)
            ∙ take_all n bytes (omega arith),
        reads.returned ∙ ap pos all,
      )

  -- Where no copy faults, the bytes that dev_write takes at a position inside the file are
  -- delivered by dev_read from that position, and both calls return their number, which is what was
  -- asked for as far as it fits the page.
  pub read-write :
      (d : Device) (user : List ℕ) (count p : ℕ)
      → IsValid d
      → p ≤ d.data_len
      → p < buffer_size
      → 0 < count
      → count ≤ length user
      → let n = min count (buffer_size - p) in
        ((dev_write u d user count p).ret ≡ pos n)
        × ((dev_read u (dev_write u d user count p).device n p).delivered ≡ take n user)
        × ((dev_read u (dev_write u d user count p).device n p).ret ≡ pos n)
  read-write d user count p v h k l m =
      let n : ℕ = min count (buffer_size - p) in
      let w = dev_write-content d user count p v h k l m in
      let (bytes, ret) =
        read_exact (dev_write u d user count p).device (take n user) _ p n
          (dev_write-IsValid laws d user count p v)
          (ap (drop p) w.file ∙ drop-splice (content d) p (take n user) (file_long d p v h))
          (omega (arith, length-take n user)) w.reaches in
      (w.returned, bytes, ret)
