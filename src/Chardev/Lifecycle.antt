-- ===== src/Chardev/Lifecycle.antt =====
-- modules/chardev.c, `mychar_init` and `mychar_exit`: which kernel resources the module holds.
mod Tests
use linux_riscv.Prelude.{
  List, [], ◌∷◌, ℤ, pos, is_neg, Bool, true, false, Option, some, ◌≡◌, ◌⊎◌, if◌then◌else◌, arith,
}
use linux_riscv.Kernel.{enomem}
use linux_riscv.Calls.{
  Trace, Oracle, M, ask, pure, ◌>>=◌, ◌>>◌, Effect, acquire, release, keep, if_granted, if_not_null,
  choose, is_null, settle,
}

-- The calls of modules/chardev.c and modules/mychardev.c.
pub data Call : Type 0 where
  get_free_page clear_page free_page : Call
  alloc_chrdev_region unregister_chrdev_region : Call
  cdev_init cdev_add cdev_del : Call
  class_create class_destroy : Call
  device_create device_destroy : Call

pub data Resource : Type 0 where
  page region cdev class device : Resource

abbrev pub same : Resource → Resource → Bool
same page page = true
same region region = true
same cdev cdev = true
same class class = true
same device device = true
same _ _ = false

-- The documented effect of each call: what it acquires on success, and what it gives back.
abbrev pub effect : Call → ℤ → Effect Resource
effect get_free_page r = if_not_null r page
effect clear_page r = keep
effect free_page r = release page
effect alloc_chrdev_region r = if_granted r region
effect unregister_chrdev_region r = release region
effect cdev_init r = keep
effect cdev_add r = if_granted r cdev
effect cdev_del r = release cdev
effect class_create r = if_granted r class
effect class_destroy r = release class
effect device_create r = if_granted r device
effect device_destroy r = release device

module _ (os : Oracle Call) where
  -- The labels at the end of `mychar_init`.
  fail_cdev : ℤ → M Call ℤ
  fail_cdev ret = do ask os unregister_chrdev_region; ask os free_page; pure ret

  fail_class : ℤ → M Call ℤ
  unfolding fail_cdev
  fail_class ret = do ask os cdev_del; fail_cdev ret

  fail_device : ℤ → M Call ℤ
  unfolding fail_class
  fail_device ret = do ask os class_destroy; fail_class ret

  pub mychar_init : M Call ℤ
  unfolding fail_device
  mychar_init = do
    kernel_buffer ← ask os get_free_page
    choose (is_null kernel_buffer) (pure enomem) do
      ask os clear_page
      ret ← ask os alloc_chrdev_region
      choose (is_neg ret) (do ask os free_page; pure ret)
          do
            ask os cdev_init
            ret ← ask os cdev_add
            choose (is_neg ret) (fail_cdev ret) do
              my_class ← ask os class_create
              choose (is_neg my_class) (fail_class my_class) do
                my_device ← ask os device_create
                choose (is_neg my_device) (fail_device my_device) (pure (pos 0))

  pub mychar_exit : M Call (Unit {0})
  mychar_exit = do
    ask os device_destroy
    ask os class_destroy
    ask os cdev_del
    ask os unregister_chrdev_region
    ask os free_page
    pure tt

  abbrev pub held : Trace Call → Option (List Resource)
  held = settle same effect

  abbrev pub loaded : List Resource
  loaded = device ∷ class ∷ cdev ∷ region ∷ page ∷ []

  -- Whatever the kernel answers, mychar_init either returns 0, holds all five resources, and
  -- mychar_exit gives all back in the reverse order; or it returns a negative value and has given
  -- back, in the reverse order, whatever it had acquired.
  pub mychar_init-held :
      (((mychar_init []).0 ≡ pos 0)
        × (held (mychar_init []).1 ≡ some loaded)
        × (held (mychar_exit (mychar_init []).1).1 ≡ some []))
      ⊎ ((is_neg (mychar_init []).0 ≡ true) × (held (mychar_init []).1 ≡ some []))
  unfolding mychar_init mychar_exit
  mychar_init-held = ground arith
