-- ===== src/Chardev/Invariant.antt =====
-- What every history of modules/chardev.c keeps: one page of buffer, and no position beyond the
-- data. The positions of the open files are a family over file numbers.
use linux_riscv.Prelude.{
  ℕ, ◌+◌, ◌-◌, ◌≤◌, ◌≡◌, refl, min, List, ℤ, pos, negsuc, arith, length, length-splice,
  length-replicate, update,
}
use linux_riscv.Kernel.{UserCopy, UserCopyLaws, FixedSizeLlseek, LlseekLaws, page_size}
use linux_riscv.Chardev.{
  Device, buffer_size, fresh_device, dev_llseek, dev_read, dev_write, mmap_store, stored, seek_pos,
}

pub record IsValid (d : Device) : Type 0 where
  pub page : length d.kernel_buffer ≡ buffer_size
  pub within : d.data_len ≤ buffer_size

pub fresh_device-IsValid : IsValid fresh_device
unfolding fresh_device
fresh_device-IsValid = record { page = length-replicate {A = ℕ} page_size 0; within = omega arith }

pub mmap_store-IsValid :
    (d : Device) (at : ℕ) (bytes : List ℕ)
    → at + length bytes ≤ buffer_size
    → IsValid d
    → IsValid (mmap_store d at bytes)
unfolding mmap_store
mmap_store-IsValid d at bytes h v = record {
  page = omega (arith, length-splice d.kernel_buffer at bytes (omega (arith, v.page)), v.page);
  within = v.within;
}

pub mmap_store-data_len :
    (d : Device) (at : ℕ) (bytes : List ℕ) → (mmap_store d at bytes).data_len ≡ d.data_len
unfolding mmap_store
mmap_store-data_len d at bytes = refl

module _ {u : UserCopy} (laws : UserCopyLaws u) where
  dev_write-page :
      (d : Device) (user : List ℕ) (n p : ℕ)
      → p + n ≤ buffer_size
      → IsValid d
      → length (stored d n p (u.copy_from_user user n)).kernel_buffer ≡ buffer_size
  dev_write-page d user n p h v = omega (
    arith,
    v.page,
    laws.from_length user n,
    length-splice d.kernel_buffer p (u.copy_from_user user n).0,
  )

  pub dev_write-IsValid :
      (d : Device) (user : List ℕ) (count p : ℕ)
      → IsValid d
      → IsValid (dev_write u d user count p).device
  unfolding dev_write
  dev_write-IsValid d user count p v =
      ground (arith, dev_write-page d user (min count (buffer_size - p)) p)

  -- The position after a write is inside the data, whatever it was before.
  dev_write-f_pos :
      (d : Device) (user : List ℕ) (count p : ℕ)
      → IsValid d
      → p ≤ d.data_len
      → (dev_write u d user count p).f_pos ≤ (dev_write u d user count p).device.data_len
  unfolding dev_write
  dev_write-f_pos d user count p v h =
      ground (arith, laws.from_left user (min count (buffer_size - p)))

  dev_write-grows :
      (d : Device) (user : List ℕ) (count p : ℕ)
      → IsValid d
      → d.data_len ≤ (dev_write u d user count p).device.data_len
  unfolding dev_write
  dev_write-grows d user count p v =
      ground (arith, laws.from_left user (min count (buffer_size - p)))

  dev_read-f_pos :
      (d : Device) (count p : ℕ) → p ≤ d.data_len → (dev_read u d count p).f_pos ≤ d.data_len
  unfolding dev_read
  dev_read-f_pos d count p h = ground arith

pub dev_llseek-f_pos :
    (seek : FixedSizeLlseek)
    → LlseekLaws seek
    → (d : Device) (p : ℕ) (o : ℤ) (w : ℕ) → p ≤ d.data_len
    → (dev_llseek seek d p o w).f_pos ≤ d.data_len
unfolding dev_llseek
dev_llseek-f_pos seek laws d p o w h = go (seek p o w d.data_len) refl
  where
    go : (r : ℤ) → seek p o w d.data_len ≡ r → seek_pos r p ≤ d.data_len
    go (pos n) e = laws.within p o w d.data_len n h e
    go (negsuc n) e = h

-- The device together with the positions of its open files.
pub record System : Type 0 where
  pub device : Device
  pub positions : ℕ → ℕ

-- One call by file `i`, or a store through a mapping. `pwrite` brings its own position.
pub data Step (u : UserCopy) (seek : FixedSizeLlseek) : System → System → Type 0 where
  read :
      {s : System} (i count : ℕ)
      → Step u seek s (record s {
        positions = update s.positions i (dev_read u s.device count (s.positions i)).f_pos;
      })
  write :
      {s : System} (i count : ℕ) (user : List ℕ)
      → Step u seek s (record {
        device = (dev_write u s.device user count (s.positions i)).device;
        positions = update s.positions i (dev_write u s.device user count (s.positions i)).f_pos;
      })
  pwrite :
      {s : System} (p count : ℕ) (user : List ℕ)
      → Step u seek s (record s { device = (dev_write u s.device user count p).device })
  llseek :
      {s : System} (i : ℕ) (offset : ℤ) (whence : ℕ)
      → Step u seek s (record s {
        positions =
            update s.positions i (dev_llseek seek s.device (s.positions i) offset whence).f_pos;
      })
  store :
      {s : System} (at : ℕ) (bytes : List ℕ)
      → at + length bytes ≤ buffer_size
      → Step u seek s (record s { device = mmap_store s.device at bytes })

abbrev pub start : System
start = record { device = fresh_device; positions = λ i. 0 }

pub data Reach (u : UserCopy) (seek : FixedSizeLlseek) : System → Type 0 where
  here : Reach u seek start
  next : {s t : System} → Reach u seek s → Step u seek s t → Reach u seek t

pub record IsSafe (s : System) : Type 0 where
  pub valid : IsValid s.device
  pub inside : (i : ℕ) → s.positions i ≤ s.device.data_len

module _ {u : UserCopy} {seek : FixedSizeLlseek} (laws : UserCopyLaws u)
    (seeks : LlseekLaws seek) where
  update-inside :
      (f : ℕ → ℕ) (i p n m : ℕ) → ((j : ℕ) → f j ≤ n) → n ≤ m → p ≤ m → (j : ℕ) → update f i p j ≤ m
  update-inside f i p n m h k l j = ground (arith, h j)

  Step-IsSafe : {s t : System} → Step u seek s t → IsSafe s → IsSafe t
  Step-IsSafe (read {s} i count) v = record {
    valid = v.valid;
    inside =
        update-inside s.positions i _ _ _ v.inside (omega arith)
          (dev_read-f_pos laws s.device count (s.positions i) (v.inside i));
  }
  Step-IsSafe (write {s} i count user) v = record {
    valid = dev_write-IsValid laws s.device user count (s.positions i) v.valid;
    inside =
        update-inside s.positions i _ _ _ v.inside
          (dev_write-grows laws s.device user count (s.positions i) v.valid)
          (dev_write-f_pos laws s.device user count (s.positions i) v.valid (v.inside i));
  }
  Step-IsSafe (pwrite {s} p count user) v = record {
    valid = dev_write-IsValid laws s.device user count p v.valid;
    inside = λ j. omega (arith, v.inside j, dev_write-grows laws s.device user count p v.valid);
  }
  Step-IsSafe (llseek {s} i offset whence) v = record {
    valid = v.valid;
    inside =
        update-inside s.positions i _ _ _ v.inside (omega arith)
          (dev_llseek-f_pos seek seeks s.device (s.positions i) offset whence (v.inside i));
  }
  Step-IsSafe (store {s} at bytes h) v = record {
    valid = mmap_store-IsValid s.device at bytes h v.valid;
    inside = λ j. rw (mmap_store-data_len s.device at bytes) (v.inside j);
  }

  -- In every history of reads, writes, positioned writes, seeks and stores through a mapping, the
  -- buffer is one page long, data_len is at most a page, and no file stands behind data_len.
  pub Reach-IsSafe : {s : System} → Reach u seek s → IsSafe s
  Reach-IsSafe here = record { valid = fresh_device-IsValid; inside = λ i. omega arith }
  Reach-IsSafe (next r st) = Step-IsSafe st (Reach-IsSafe r)
