-- ===== src/Chardev/Bytes.antt =====
-- modules/chardev.c, byte by byte: what a write, a read and a store through a mapping leave in the
-- file.
use linux_riscv.Prelude.{
  ℕ, ◌+◌, ◌-◌, ◌≤◌, ◌<◌, ◌≡◌, refl, sym, ap, ◌∙◌, inl, inr, min, List, true, arith, Bool-cases,
  leb-false, leb→le, ==_iff, length, Option, none, splice, length-take, length-splice, get_elem?,
  get_elem?-take, get_elem?-splice, ltb, leb, ◌==◌, if◌then◌else◌,
}
use linux_riscv.Kernel.{UserCopy, UserCopyLaws}
use linux_riscv.Chardev.{Device, buffer_size, dev_read, dev_write, mmap_store, stored}
use linux_riscv.Chardev.Invariant.{IsValid}
use linux_riscv.Chardev.Content.{content, dev_read-content}
use linux_riscv.Chardev.File.{Overwrites, IsRead, IsWrite, refused, taken, length-content}

module _ {u : UserCopy} (laws : UserCopyLaws u) where
  -- The copied bytes that the kernel vouches for are the user's.
  copied_bytes :
      (user : List ℕ) (n i : ℕ)
      → i < n - (u.copy_from_user user n).1
      → get_elem? (u.copy_from_user user n).0 i ≡ get_elem? user i
  copied_bytes user n i h =
      let k : ℕ = n - (u.copy_from_user user n).1 in
      let left = get_elem?-take k (u.copy_from_user user n).0 i in
      let right = get_elem?-take k user i in
      let same = ap (λ (xs : List ℕ). get_elem? xs i) (laws.from_bytes user n) in
      let within : ltb i k ≡ true = ground arith in
      sym (rw within at left) ∙ same ∙ (rw within at right)

  -- One byte of the file after the write.
  stored_byte :
      (d : Device) (user : List ℕ) (n p j : ℕ)
      → IsValid d
      → p + n ≤ buffer_size
      → let d' = stored d n p (u.copy_from_user user n) in
        get_elem? (content d') j ≡ (
          if ltb j d'.data_len
          then if ltb j p
            then get_elem? d.kernel_buffer j
            else if ltb j (p + n)
            then get_elem? (u.copy_from_user user n).0 (j - p)
            else get_elem? d.kernel_buffer j
          else none)
  stored_byte d user n p j v h =
      let d' = stored d n p (u.copy_from_user user n) in
      get_elem?-take d'.data_len d'.kernel_buffer j
      ∙ ap (λ (o : Option ℕ). if ltb j d'.data_len then o else none)
          (get_elem?-splice d.kernel_buffer (u.copy_from_user user n).0 p j (omega (arith, v.page))
            ∙ ap
                (λ (m : ℕ).
                  if ltb j p
                  then get_elem? d.kernel_buffer j
                  else if ltb j (p + m)
                  then get_elem? (u.copy_from_user user n).0 (j - p)
                  else get_elem? d.kernel_buffer j)
                (laws.from_length user n))

  stored-Overwrites :
      (d : Device) (user : List ℕ) (n p : ℕ)
      → IsValid d
      → p + n ≤ buffer_size
      → Overwrites
          (content d)
          user
          p
          (n - (u.copy_from_user user n).1)
          n
          (content (stored d n p (u.copy_from_user user n)))
  stored-Overwrites d user n p v h = record {
    bounds = (omega arith, h);
    size = ground (
      arith,
      length-content d v,
      length-take (stored d n p (u.copy_from_user user n)).data_len
          (stored d n p (u.copy_from_user user n)).kernel_buffer,
      length-splice d.kernel_buffer p (u.copy_from_user user n).0
          (omega (arith, v.page, laws.from_length user n)),
      v.page,
      v.within,
    );
    taken = λ i q.
        let same : p + i - p ≡ i = omega arith in
        ground (
          arith,
          stored_byte d user n p (p + i) v h,
          ap (get_elem? (u.copy_from_user user n).0) same,
          copied_bytes user n i q,
        );
    kept = λ i q o. ground (
      arith,
      stored_byte d user n p i v h,
      get_elem?-take d.data_len d.kernel_buffer i,
      length-content d v,
    );
  }

  -- The bytes that a write takes.
  abbrev pub taken_bytes : List ℕ → ℕ → ℕ → ℕ
  taken_bytes user count p = let n = min count (buffer_size - p) in n - (u.copy_from_user user n).1

  pub dev_write-IsWrite :
      (d : Device) (user : List ℕ) (count p : ℕ)
      → IsValid d
      → let w = dev_write u d user count p in
        (k : ℕ) × IsWrite (content d) user p count w.ret k (content w.device) × (w.f_pos ≡ p + k)
  unfolding dev_write
  dev_write-IsWrite d user count p v = elim (Bool-cases (leb buffer_size p)) [
    | inl full ↦
        let past = leb→le buffer_size p full in
        (0, rw full (refused (omega (arith, past)) refl refl refl), rw full (omega arith))
    | inr room ↦
        let n : ℕ = min count (buffer_size - p) in
        let inside = leb-false buffer_size p room in
        elim (Bool-cases (n == 0)) [
          | inl nothing ↦ (
            0,
            rw (room, nothing) (refused ((==_iff _ _).0 nothing) refl refl refl),
            rw (room, nothing) (omega arith),
          )
          | inr some_bytes ↦ (
            taken_bytes user count p,
            rw (room, some_bytes)
                (taken (ground arith) refl
                  (stored-Overwrites d user n p v (omega (arith, inside)))),
            rw (room, some_bytes) refl,
          )
        ]
  ]

  pub dev_read-IsRead :
      (d : Device) (count p : ℕ)
      → IsValid d
      → let r = dev_read u d count p in
        (n : ℕ) × IsRead (content d) p count r.delivered r.ret n × (r.f_pos ≡ p + n)
  dev_read-IsRead d count p v =
      let (m, r, bound, all) = dev_read-content laws d count p v in
      (
        m,
        record {
          returned = r.returned;
          bytes = r.bytes;
          bound = omega (arith, bound, length-content d v);
        },
        r.moved,
      )

pub mmap_store-keeps :
    (d : Device) (at : ℕ) (block : List ℕ)
    → IsValid d
    → at + length block ≤ buffer_size
    → (length (content (mmap_store d at block)) ≡ length (content d))
      × ((i : ℕ)
          → i < length (content d)
          → get_elem? (content (mmap_store d at block)) i ≡ (
              if ltb i at
              then get_elem? (content d) i
              else if ltb i (at + length block)
              then get_elem? block (i - at)
              else get_elem? (content d) i))
unfolding mmap_store
mmap_store-keeps d at block v h = (
  ground (
    arith,
    length-take d.data_len (splice d.kernel_buffer at block),
    length-take d.data_len d.kernel_buffer,
    length-splice d.kernel_buffer at block (omega (arith, v.page)),
  ),
  λ i q. ground (
    arith,
    get_elem?-take d.data_len (splice d.kernel_buffer at block) i,
    get_elem?-take d.data_len d.kernel_buffer i,
    get_elem?-splice d.kernel_buffer block at i (omega (arith, v.page)),
    length-content d v,
  ),
)
