-- ===== src/Chardev/UserTest.antt =====
-- modules/chardev_user.c, `run_data_flow_test`: the program that tests the driver writes by one
-- way and reads by the other, over the model of modules/chardev.c.
use linux_riscv.Prelude.{
  ℕ, ◌-◌, ◌≤◌, ◌<◌, ◌≡◌, refl, sym, ap, ◌∙◌, min, Bool, true, List, pos, arith, length, take,
  splice, take_all, take-take, take-splice, take-append, replicate, codes, strncmp_eq,
  strncmp_eq-append,
}
use linux_riscv.Kernel.{UserCopy, UserCopyLaws, NoFault, FixedSizeLlseek, LlseekLaws, seek_set}
use linux_riscv.Chardev.{
  Device, buffer_size, dev_llseek, dev_read, dev_write, mmap_store, mmap_load,
}
use linux_riscv.Chardev.Invariant.{
  IsValid, dev_write-IsValid, mmap_store-IsValid, mmap_store-data_len,
}
use linux_riscv.Chardev.Content.{content}
use linux_riscv.Chardev.RoundTrip.{dev_write-content, read_exact}

abbrev pub test_size : ℕ
test_size = 1024

abbrev pub test_data : List ℕ
test_data = codes "Hello, mmap and read/write test!"

abbrev pub new_data : List ℕ
new_data = codes "This data is written via mmap!"

-- The two verdicts that the program prints, and the device and the file's position afterwards.
pub record Verdict : Type 0 where
  pub write_to_mmap : Bool
  pub mmap_to_read : Bool
  pub device : Device
  pub f_pos : ℕ

module _ (u : UserCopy) (seek : FixedSizeLlseek) where
  -- The test with its two texts; `f_pos` is the position of the file when it is called.
  pub data_flow : (first second : List ℕ) → Device → ℕ → Verdict
  data_flow first second d f_pos =
      let sought = dev_llseek seek d f_pos (pos 0) seek_set in
      let written = dev_write u d first (length first) sought.f_pos in
      let read_buffer =
        splice (replicate test_size 0) 0 (mmap_load written.device 0 (length first)) in
      let changed = mmap_store written.device 0 second in
      let back = dev_llseek seek changed written.f_pos (pos 0) seek_set in
      let got = dev_read u changed (length second) back.f_pos in
      let read_buffer' = splice read_buffer 0 got.delivered in
      record {
        write_to_mmap = strncmp_eq (length first) read_buffer first;
        mmap_to_read = strncmp_eq (length second) read_buffer' second;
        device = changed;
        f_pos = got.f_pos;
      }

  pub run_data_flow_test : Device → ℕ → Verdict
  run_data_flow_test d f_pos = data_flow test_data new_data d f_pos

  pub llseek_start :
      (laws : LlseekLaws seek) (d : Device) (p : ℕ)
      → (dev_llseek seek d p (pos 0) seek_set).f_pos ≡ 0
  unfolding dev_llseek
  llseek_start laws d p = rw (laws.from_start p 0 d.data_len (omega arith))

-- A mapping shows the file as far as it goes.
pub mmap_load-content : (d : Device) (n : ℕ) → n ≤ d.data_len → mmap_load d 0 n ≡ take n (content d)
unfolding mmap_load
mmap_load-content d n h = sym (take-take n d.data_len d.kernel_buffer h)

-- A store through the mapping overwrites the file in place.
pub mmap_store-content :
    (d : Device) (bytes : List ℕ)
    → IsValid d
    → length bytes ≤ d.data_len
    → content (mmap_store d 0 bytes) ≡ splice (content d) 0 bytes
unfolding mmap_store
mmap_store-content d bytes v h =
    take-splice d.kernel_buffer 0 d.data_len d.data_len bytes (omega arith)
      (omega (arith, v.page, v.within)) (omega arith) (omega arith) (omega arith)

module _ {u : UserCopy} (laws : UserCopyLaws u) (sure : NoFault u) {seek : FixedSizeLlseek}
    (seeks : LlseekLaws seek) where
  -- After the first half of the test: the mapping shows the text, and the file holds it.
  written_seen :
      (d : Device) (first : List ℕ)
      → IsValid d
      → 0 < length first
      → length first ≤ buffer_size
      → (mmap_load (dev_write u d first (length first) 0).device 0 (length first) ≡ first)
        × (length first ≤ (dev_write u d first (length first) 0).device.data_len)
  written_seen d first v h k =
      let n : ℕ = length first in
      let w =
        dev_write-content laws sure d first n 0 v (omega arith) (omega arith) h (omega arith) in
      let fits : min n (buffer_size - 0) ≡ n = omega arith in
      let room : n ≤ (dev_write u d first n 0).device.data_len = omega (arith, w.reaches) in
      (
        mmap_load-content (dev_write u d first n 0).device n room
            ∙ ap (take n) w.file
            ∙ ap (λ (k : ℕ). take n (splice (content d) 0 (take k first))) fits
            ∙ ap (λ (t : List ℕ). take n (splice (content d) 0 t)) (take_all n first (omega arith))
            ∙ take-append n first _ (omega arith)
            ∙ take_all n first (omega arith),
        room,
      )

  -- After the second half: a read from the start delivers the text that was stored.
  stored_read :
      (d : Device) (second : List ℕ)
      → IsValid d
      → length second ≤ d.data_len
      → (dev_read u (mmap_store d 0 second) (length second) 0).delivered ≡ second
  stored_read d second v h =
      (read_exact laws sure (mmap_store d 0 second) second _ 0 (length second)
        (mmap_store-IsValid d 0 second (omega (arith, v.within)) v)
        (mmap_store-content d second v h) refl (omega (arith, mmap_store-data_len d 0 second))).0

  data_flow-passes :
      (d : Device) (p : ℕ) (first second : List ℕ)
      → IsValid d
      → 0 < length first
      → length first ≤ buffer_size
      → length second ≤ length first
      → ((data_flow u seek first second d p).write_to_mmap ≡ true)
        × ((data_flow u seek first second d p).mmap_to_read ≡ true)
  unfolding data_flow
  data_flow-passes d p first second v h k l =
      let seen = written_seen d first v h k in
      (
        rw (llseek_start u seek seeks d p, seen.0)
            (strncmp_eq-append (length first) first _ (omega arith)),
        rw (llseek_start u seek seeks d p, llseek_start u seek seeks)
            (rw
              (stored_read (dev_write u d first (length first) 0).device second
                (dev_write-IsValid laws d first (length first) 0 v) (omega (arith, seen.1)))
              (strncmp_eq-append (length second) second _ (omega arith))),
      )

  -- Where no copy faults, both checks of run_data_flow_test succeed over the driver, from any valid
  -- state of the device and any position of the file.
  pub run_data_flow_test-passes :
      (d : Device) (p : ℕ)
      → IsValid d
      → ((run_data_flow_test u seek d p).write_to_mmap ≡ true)
        × ((run_data_flow_test u seek d p).mmap_to_read ≡ true)
  unfolding run_data_flow_test
  run_data_flow_test-passes d p v =
      data_flow-passes d p test_data new_data v (omega arith) (omega arith) (omega arith)

  -- The driver is left in a valid state.
  pub run_data_flow_test-IsValid :
      (d : Device) (p : ℕ) → IsValid d → IsValid (run_data_flow_test u seek d p).device
  unfolding run_data_flow_test data_flow
  run_data_flow_test-IsValid d p v = rw (llseek_start u seek seeks d p) (
      mmap_store-IsValid (dev_write u d test_data (length test_data) 0).device 0 new_data
        (omega arith) (dev_write-IsValid laws d test_data (length test_data) 0 v))
