-- ===== src/Mychardev.antt =====
-- modules/mychardev.c: the first version of the character device, over a static buffer of 1024
-- bytes. It keeps no length: each write goes to the start of the buffer, and a file is read once.
use linux_riscv.Prelude.{
  ℕ, ◌+◌, ◌-◌, ◌≤◌, ◌<◌, ◌≡◌, ap, ◌∙◌, min, List, [], ◌++◌, ℤ, pos, negsuc, arith, length, take,
  drop, splice, ltb, if◌then◌else◌, length-take, length-splice, take_all, take-append,
}
use linux_riscv.Kernel.{UserCopy, UserCopyLaws, NoFault, from_user_full, to_user_full}
use linux_riscv.Calls.{Oracle, M, ask, pure, ◌>>◌}
use linux_riscv.Chardev.Lifecycle.{
  Call, alloc_chrdev_region, unregister_chrdev_region, cdev_init, cdev_add, cdev_del, class_create,
  class_destroy, device_create, device_destroy, held,
}
use linux_riscv.Prelude.{none}

abbrev pub buffer_size : ℕ
buffer_size = 1024

pub record ReadResult : Type 0 where
  pub ret : ℕ
  pub delivered : List ℕ
  pub f_pos : ℕ

pub record WriteResult : Type 0 where
  pub ret : ℕ
  pub kernel_buffer : List ℕ
  pub f_pos : ℕ

-- `n = BUFFER_SIZE; if (n > count) n = count;`
pub transfer_size : ℕ → ℕ
transfer_size count = if ltb count buffer_size then count else buffer_size

pub dev_read : UserCopy → List ℕ → ℕ → ℕ → ReadResult
dev_read u kernel_buffer count p =
    if ltb 0 p
    then record { ret = 0; delivered = []; f_pos = p }
    else let bytes_to_read = transfer_size count in
      let (out, left) = u.copy_to_user (take bytes_to_read kernel_buffer) in
      record { ret = bytes_to_read - left; delivered = out; f_pos = p + (bytes_to_read - left) }

pub dev_write : UserCopy → List ℕ → List ℕ → ℕ → WriteResult
dev_write u kernel_buffer user count =
    let bytes_to_write = transfer_size count in
    let (bytes, left) = u.copy_from_user user bytes_to_write in
    record { ret = bytes_to_write - left; kernel_buffer = splice kernel_buffer 0 bytes; f_pos = 0 }

module _ (os : Oracle Call) where
  -- The answers are logged or kept, and never tested.
  pub mychar_init : M Call ℤ
  mychar_init = do
    ask os alloc_chrdev_region
    ask os cdev_init
    ask os cdev_add
    ask os class_create
    ask os device_create
    pure (pos 0)

  pub mychar_exit : M Call (Unit {0})
  mychar_exit = do
    ask os device_destroy
    ask os class_destroy
    ask os cdev_del
    ask os unregister_chrdev_region
    pure tt

  -- If the kernel refuses the device number, mychar_init of mychardev.c returns 0 all the same, and
  -- mychar_exit gives back what the module does not hold.
  pub mychar_init-unchecked :
      (n : ℕ)
      → os [] alloc_chrdev_region ≡ negsuc n
      → ((mychar_init []).0 ≡ pos 0) × (held os (mychar_exit (mychar_init []).1).1 ≡ none)
  unfolding mychar_init mychar_exit
  mychar_init-unchecked n e = ground arith

transfer_size-le : (count : ℕ) → transfer_size count ≤ buffer_size
unfolding transfer_size
transfer_size-le count = ground arith

transfer_size-le_count : (count : ℕ) → transfer_size count ≤ count
unfolding transfer_size
transfer_size-le_count count = ground arith

transfer_size-min : (count : ℕ) → transfer_size count ≡ min count buffer_size
unfolding transfer_size
transfer_size-min count = ground arith

transfer_size-transfer_size :
    (count : ℕ) → transfer_size (transfer_size count) ≡ transfer_size count
unfolding transfer_size
transfer_size-transfer_size count = ground arith

transfer_size_pos : (count : ℕ) → 0 < count → 0 < transfer_size count
unfolding transfer_size
transfer_size_pos count h = ground arith

module _ {u : UserCopy} (laws : UserCopyLaws u) where
  -- The buffer keeps its size, whatever is written.
  dev_write-length :
      (buf user : List ℕ) (count : ℕ)
      → length buf ≡ buffer_size
      → length (dev_write u buf user count).kernel_buffer ≡ buffer_size
  unfolding dev_write
  dev_write-length buf user count h = omega (
    arith,
    transfer_size-le count,
    laws.from_length user (transfer_size count),
    length-splice buf 0 (u.copy_from_user user (transfer_size count)).0
        (omega (arith, transfer_size-le count, laws.from_length user (transfer_size count))),
  )

  dev_write_stores :
      (sure : NoFault u) (buf user : List ℕ) (count : ℕ)
      → count ≤ length user
      → dev_write u buf user count ≡ record {
        ret = transfer_size count;
        kernel_buffer = take (transfer_size count) user ++ drop (transfer_size count) buf;
        f_pos = 0;
      }
  unfolding dev_write
  dev_write_stores sure buf user count l =
      let z =
        sure.from_all user (transfer_size count) (omega (arith, transfer_size-le_count count)) in
      let full = from_user_full laws user (transfer_size count) z in
      let same : 0 + length (u.copy_from_user user (transfer_size count)).0 ≡ transfer_size count =
        omega (arith, laws.from_length user (transfer_size count)) in
      let all : transfer_size count - (u.copy_from_user user (transfer_size count)).1
          ≡ transfer_size count =
        omega (arith, z) in
      rw (same, full, all)

  dev_read_first :
      (sure : NoFault u) (bytes rest : List ℕ) (n : ℕ)
      → length bytes ≡ transfer_size n
      → dev_read u (bytes ++ rest) n 0
        ≡ record { ret = transfer_size n; delivered = bytes; f_pos = 0 + transfer_size n }
  unfolding dev_read
  dev_read_first sure bytes rest n e =
      let cut : take (transfer_size n) (bytes ++ rest) ≡ bytes =
        take-append (transfer_size n) bytes rest (omega arith)
        ∙ take_all (transfer_size n) bytes (omega arith) in
      let all : transfer_size n - (u.copy_to_user bytes).1 ≡ transfer_size n =
        omega (arith, sure.to_all bytes) in
      rw (cut, all, to_user_full laws bytes (sure.to_all bytes))

  dev_read_again : (buf : List ℕ) (count p : ℕ) → 0 < p → (dev_read u buf count p).ret ≡ 0
  unfolding dev_read
  dev_read_again buf count p h = ground arith

  -- Where no copy faults, a write of at least one byte to mychardev.c stores the smaller of its
  -- size and 1024 bytes at the start of the buffer and keeps the rest; a read of as many from
  -- position 0 delivers them, and the next read returns 0.
  pub dev_read-write :
      (sure : NoFault u) (buf user : List ℕ) (count : ℕ)
      → 0 < count
      → count ≤ length user
      → let n = transfer_size count in
        let w = dev_write u buf user count in
        let r = dev_read u w.kernel_buffer n 0 in
        (n ≡ min count buffer_size)
        × (w ≡ record { ret = n; kernel_buffer = take n user ++ drop n buf; f_pos = 0 })
        × (r.delivered ≡ take n user)
        × (r.ret ≡ n)
        × ((more : ℕ) → (dev_read u w.kernel_buffer more r.f_pos).ret ≡ 0)
  dev_read-write sure buf user count k l =
      let n : ℕ = transfer_size count in
      let w = dev_write_stores sure buf user count l in
      let twice = transfer_size-transfer_size count in
      let r =
        dev_read_first sure (take n user) (drop n buf) n
          (omega (arith, length-take n user, transfer_size-le_count count, twice)) in
      (
        transfer_size-min count,
        w,
        rw w (ap (λ (x : ReadResult). x.delivered) r),
        rw w (ap (λ (x : ReadResult). x.ret) r ∙ twice),
        λ more.
            rw w (dev_read_again _ more _ (rw r (omega (arith, twice, transfer_size_pos count k)))),
      )
