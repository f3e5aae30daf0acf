-- ===== src/Chardev/Content.antt =====
-- modules/chardev.c against its abstract view: a bounded file, which is the list of the bytes that
-- lie in front of `data_len`.
use linux_riscv.Prelude.{
  ℕ, ◌+◌, ◌-◌, ◌≤◌, ◌<◌, ◌≡◌, refl, sym, ap, ◌∙◌, inl, inr, min, List, pos, arith, length, take,
  drop, splice, length-take, length-drop, take-take, drop-take, take-splice, le→leb, lt→leb-false,
  leb→le, leb-false, leb, Bool-cases,
}
use linux_riscv.Kernel.{UserCopy, UserCopyLaws, from_user_full}
use linux_riscv.Chardev.{Device, ReadResult, buffer_size, dev_read, stored, read_chunk}
use linux_riscv.Chardev.Invariant.{IsValid}

abbrev pub content : Device → List ℕ
content d = take d.data_len d.kernel_buffer

-- What a read of `count` bytes at `p` gives the caller of an abstract file.
pub record Reads (file : List ℕ) (p m : ℕ) (r : ReadResult) : Type 0 where
  pub returned : r.ret ≡ pos m
  pub bytes : r.delivered ≡ take m (drop p file)
  pub moved : r.f_pos ≡ p + m

module _ {u : UserCopy} (laws : UserCopyLaws u) where
  chunk-content :
      (d : Device) (count p m : ℕ)
      → m ≤ min count (d.data_len - p)
      → take m (read_chunk d count p) ≡ take m (drop p (content d))
  chunk-content d count p m h =
      take-take m (min count (d.data_len - p)) (drop p d.kernel_buffer) h
      ∙ sym (
          ap (take m) (drop-take p d.data_len d.kernel_buffer)
          ∙ take-take m (d.data_len - p) (drop p d.kernel_buffer) (omega arith))

  length-chunk :
      (d : Device) (count p : ℕ)
      → IsValid d
      → length (read_chunk d count p) ≡ min count (d.data_len - p)
  length-chunk d count p v = omega (
    arith,
    v.page,
    v.within,
    length-take (min count (d.data_len - p)) (drop p d.kernel_buffer),
    length-drop p d.kernel_buffer,
  )

  -- What the user memory holds after the copy of a chunk.
  delivered-content :
      (d : Device) (count p : ℕ)
      → IsValid d
      → (u.copy_to_user (read_chunk d count p)).0
        ≡ take
            (min count (d.data_len - p) - (u.copy_to_user (read_chunk d count p)).1)
            (drop p (content d))
  delivered-content d count p v =
      laws.to_bytes (read_chunk d count p)
      ∙ ap (λ (n : ℕ). take (n - (u.copy_to_user (read_chunk d count p)).1) (read_chunk d count p))
          (length-chunk d count p v)
      ∙ chunk-content d count p _ (omega arith)

  dev_read_at_end :
      (d : Device) (count p : ℕ) → d.data_len ≤ p → Reads (content d) p 0 (dev_read u d count p)
  unfolding dev_read
  dev_read_at_end d count p h =
      rw (le→leb d.data_len p h) (record { returned = refl; bytes = refl; moved = omega arith })

  dev_read_inside :
      (d : Device) (count p : ℕ)
      → IsValid d
      → p < d.data_len
      → Reads
          (content d)
          p
          (min count (d.data_len - p) - (u.copy_to_user (read_chunk d count p)).1)
          (dev_read u d count p)
  unfolding dev_read
  dev_read_inside d count p v h =
      rw (lt→leb-false d.data_len p h)
        (record { returned = refl; bytes = delivered-content d count p v; moved = refl })

  -- On a valid device dev_read delivers a piece of the file at the position, returns its length and
  -- moves the position by it; the piece is at most what was asked for and is there, and is all of
  -- that if the copy leaves no byte out.
  pub dev_read-content :
      (d : Device) (count p : ℕ)
      → IsValid d
      → (m : ℕ) × Reads (content d) p m (dev_read u d count p)
        × (m ≤ min count (d.data_len - p))
        × ((u.copy_to_user (read_chunk d count p)).1 ≡ 0 → m ≡ min count (d.data_len - p))
  dev_read-content d count p v = elim (Bool-cases (leb d.data_len p)) [
    | inl e ↦
        let h = leb→le d.data_len p e in
        (0, dev_read_at_end d count p h, omega arith, λ _. omega (arith, h))
    | inr e ↦
        let h = leb-false d.data_len p e in
        (_, dev_read_inside d count p v h, omega arith, λ z. omega (arith, z))
  ]

  -- The file after a write that copies all its bytes.
  pub stored-content :
      (d : Device) (user : List ℕ) (n p : ℕ)
      → IsValid d
      → p ≤ d.data_len
      → p + n ≤ buffer_size
      → (u.copy_from_user user n).1 ≡ 0
      → content (stored d n p (u.copy_from_user user n)) ≡ splice (content d) p (take n user)
  stored-content d user n p v h k z =
      take-splice d.kernel_buffer p d.data_len (stored d n p (u.copy_from_user user n)).data_len
        (u.copy_from_user user n).0 h (omega (arith, v.page, v.within)) (ground (arith, v.within))
        (ground (arith, laws.from_length user n))
        (ground (arith, v.within, laws.from_length user n))
      ∙ ap (splice (content d) p) (from_user_full laws user n z)
