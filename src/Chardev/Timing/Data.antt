-- ===== src/Chardev/Timing/Data.antt =====
-- modules/chardev_user.c, `run_timing_test`: what the timed accesses do to the data.
use linux_riscv.Prelude.{
  ℕ, zero, suc, ◌+◌, ◌≤◌, ◌≡◌, refl, sym, ap, ◌∙◌, List, [], ◌∷◌, ◌++◌, arith, length, take, drop,
  splice, take_all, take-append,
}
use linux_riscv.Kernel.{UserCopy, UserCopyLaws, NoFault, FixedSizeLlseek, LlseekLaws}
use linux_riscv.Chardev.Invariant.{
  IsValid, dev_write-IsValid, mmap_store-IsValid, mmap_store-data_len,
}
use linux_riscv.Chardev.Content.{content}
use linux_riscv.Chardev.RoundTrip.{dev_write-content, read_exact}
use linux_riscv.Chardev.UserTest.{test_size, mmap_load-content, mmap_store-content, llseek_start}
use linux_riscv.Chardev.Timing.{
  State, repeat, lseek_start, write_data, read_data, mmap_write_data, mmap_read_data, timed, reset,
  warm_up, run_timing_test,
}

-- `temp_data` is still `t`, and once it was written, it is what the file begins with.
pub record Kept (t : List ℕ) (s : State) : Type 0 where
  pub valid : IsValid s.device
  pub temp : s.temp_data ≡ t

pub record Synced (t : List ℕ) (s : State) : Type 0 where
  pub valid : IsValid s.device
  pub temp : s.temp_data ≡ t
  pub reaches : test_size ≤ s.device.data_len
  pub begins : take test_size (content s.device) ≡ t

Synced-Kept : {t : List ℕ} {s : State} → Synced t s → Kept t s
Synced-Kept v = record { valid = v.valid; temp = v.temp }

repeat_keeps :
    (P : State → Type 0) (body : State → State)
    → ((s : State) → P s → P (body s))
    → (n : ℕ) (s : State) → P s
    → P (repeat n body s)
repeat_keeps P body step zero s p = p
repeat_keeps P body step (suc n) s p = repeat_keeps P body step n (body s) (step s p)

take-drop {ℓ} : {A : Type ℓ} (n : ℕ) (xs : List A) → take n xs ++ drop n xs ≡ xs
take-drop zero xs = refl
take-drop (suc n) [] = refl
take-drop (suc n) (x ∷ xs) = ap (◌∷◌ x) (take-drop n xs)

splice_self : (t : List ℕ) → splice t 0 t ≡ t
splice_self t =
    let whole : take (length t) t ≡ t = take_all (length t) t (omega arith) in
    let size : 0 + length t ≡ length t = omega arith in
    ap (λ (n : ℕ). t ++ drop n t) size
    ∙ ap (λ (xs : List ℕ). xs ++ drop (length t) t) (sym whole)
    ∙ take-drop (length t) t

begins_splice : (t buf : List ℕ) → length t ≡ test_size → take test_size (splice buf 0 t) ≡ t
begins_splice t buf e =
    take-append test_size t _ (omega (arith, e)) ∙ take_all test_size t (omega (arith, e))

module _ {u : UserCopy} (laws : UserCopyLaws u) (sure : NoFault u) {seek : FixedSizeLlseek}
    (seeks : LlseekLaws seek) (now : ℕ → ℕ) (t : List ℕ) (size : length t ≡ test_size) where
  write_data-Synced :
      (s : State) → Kept t s → Synced t (write_data u seek now (lseek_start u seek now s))
  write_data-Synced s v =
      let start = llseek_start u seek seeks s.device s.f_pos in
      let all : take test_size t ≡ t = take_all test_size t (omega (arith, size)) in
      let w =
        dev_write-content laws sure s.device t test_size 0 v.valid (omega arith) (omega arith)
          (omega arith) (omega (arith, size)) in
      rw (start, v.temp)
        (record {
          valid = dev_write-IsValid laws s.device t test_size 0 v.valid;
          temp = refl;
          reaches = omega (arith, w.reaches);
          begins =
              ap (take test_size) w.file
              ∙ ap (λ (xs : List ℕ). take test_size (splice (content s.device) 0 xs)) all
              ∙ begins_splice t (content s.device) size;
        })

  mmap_write_data-Synced : (s : State) → Synced t s → Synced t (mmap_write_data u seek now s)
  mmap_write_data-Synced s v =
      let room : length t ≤ s.device.data_len = omega (arith, size, v.reaches) in
      rw (v.temp) (record {
        valid = mmap_store-IsValid s.device 0 t (omega (arith, size)) v.valid;
        temp = refl;
        reaches = omega (arith, v.reaches, mmap_store-data_len s.device 0 t);
        begins =
            ap (take test_size) (mmap_store-content s.device t v.valid room)
            ∙ begins_splice t (content s.device) size;
      })

  read_data-Synced :
      (s : State) → Synced t s → Synced t (read_data u seek now (lseek_start u seek now s))
  read_data-Synced s v =
      let start = llseek_start u seek seeks s.device s.f_pos in
      let whole : drop 0 (content s.device) ≡ t ++ drop test_size (content s.device) =
        sym (take-drop test_size (content s.device))
        ∙ ap (λ (xs : List ℕ). xs ++ drop test_size (content s.device)) v.begins in
      let got =
        read_exact laws sure s.device t (drop test_size (content s.device)) 0 test_size v.valid
          whole (sym size) v.reaches in
      record {
        valid = v.valid;
        temp = rw (start, v.temp, got.0) (splice_self t);
        reaches = v.reaches;
        begins = v.begins;
      }

  mmap_read_data-Synced : (s : State) → Synced t s → Synced t (mmap_read_data u seek now s)
  mmap_read_data-Synced s v = record {
    valid = v.valid;
    temp = mmap_load-content s.device test_size v.reaches ∙ v.begins;
    reaches = v.reaches;
    begins = v.begins;
  }

  -- Neither the readings nor the totals touch the data.
  timed-Synced :
      (access : State → State) (s : State)
      → Synced t (access s)
      → Synced t (timed u seek now access s)
  timed-Synced access s v = record {
    valid = v.valid;
    temp = v.temp;
    reaches = v.reaches;
    begins = v.begins;
  }

  reset-Synced : (s : State) → Synced t s → Synced t (reset u seek now s)
  reset-Synced s v = record {
    valid = v.valid;
    temp = v.temp;
    reaches = v.reaches;
    begins = v.begins;
  }

  warm_up-Synced : (s : State) → Kept t s → Synced t (warm_up u seek now s)
  warm_up-Synced s v =
      repeat_keeps (Synced t)
        (λ s. mmap_write_data u seek now (write_data u seek now (lseek_start u seek now s)))
        (λ s v. mmap_write_data-Synced _ (write_data-Synced s (Synced-Kept v))) 9 _
        (mmap_write_data-Synced _ (write_data-Synced s v))

  -- Where no copy faults, from a valid device and 1024 bytes of data, the timing test leaves, after
  -- any number of iterations, a valid device whose file begins with these bytes, and the data of
  -- the program as they were.
  pub run_timing_test-Synced :
      (iterations : ℕ) (s : State)
      → IsValid s.device
      → s.temp_data ≡ t
      → Synced t (run_timing_test u seek now iterations s).final
  unfolding run_timing_test
  run_timing_test-Synced n s v e =
      let s₀ = warm_up-Synced s (record { valid = v; temp = e }) in
      let s₁ =
        repeat_keeps (Synced t)
          (λ s. timed u seek now (write_data u seek now) (lseek_start u seek now s))
          (λ s v.
            timed-Synced (write_data u seek now) (lseek_start u seek now s)
              (write_data-Synced s (Synced-Kept v)))
          n _ (reset-Synced _ s₀) in
      let s₂ =
        repeat_keeps (Synced t) (timed u seek now (mmap_write_data u seek now))
          (λ s v. timed-Synced (mmap_write_data u seek now) s (mmap_write_data-Synced s v)) n _
          (reset-Synced _ s₁) in
      let s₃ =
        repeat_keeps (Synced t)
          (λ s. timed u seek now (read_data u seek now) (lseek_start u seek now s))
          (λ s v.
            timed-Synced (read_data u seek now) (lseek_start u seek now s) (read_data-Synced s v))
          n _ (reset-Synced _ s₂) in
      repeat_keeps (Synced t) (timed u seek now (mmap_read_data u seek now))
        (λ s v. timed-Synced (mmap_read_data u seek now) s (mmap_read_data-Synced s v)) n _
        (reset-Synced _ s₃)
