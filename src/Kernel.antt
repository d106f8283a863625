-- ===== src/Kernel.antt =====
-- What the drivers take from the kernel and the machine: error numbers, 32-bit `size_t`
-- arithmetic, and the copies from and to user memory, which are parameters.
use tuxbox_git_driver.Common.{ℕ, ◌+◌, ◌-◌, ◌%◌, ◌^◌, ◌≡◌, List, ltb, if◌then◌else◌}
use tuxbox_git_driver.Common.Int.{ℤ, pos, negsuc}

-- The error numbers of <asm/errno.h> that the drivers return negated, `negsuc n` for -(n + 1).
abbrev pub eintr : ℤ
eintr = negsuc 3

abbrev pub eagain : ℤ
eagain = negsuc 10

abbrev pub enomem : ℤ
enomem = negsuc 11

abbrev pub eacces : ℤ
eacces = negsuc 12

abbrev pub efault : ℤ
efault = negsuc 13

abbrev pub ebusy : ℤ
ebusy = negsuc 15

abbrev pub enodev : ℤ
enodev = negsuc 18

abbrev pub einval : ℤ
einval = negsuc 21

abbrev pub emfile : ℤ
emfile = negsuc 23

abbrev pub enosys : ℤ
enosys = negsuc 37

abbrev pub eusers : ℤ
eusers = negsuc 86

abbrev pub eoverflow : ℤ
eoverflow = negsuc 74

abbrev pub etimedout : ℤ
etimedout = negsuc 109

abbrev pub eopnotsupp : ℤ
eopnotsupp = negsuc 94

abbrev pub erestartsys : ℤ
erestartsys = negsuc 511

-- `size_t` of the 32-bit PowerPC.
abbrev pub add_size : ℕ → ℕ → ℕ
add_size a b = (a + b) % 2 ^ 32

abbrev pub sub_size : ℕ → ℕ → ℕ
sub_size a b = (a + 2 ^ 32 - b) % 2 ^ 32

-- A `size_t` returned as an `ssize_t`.
abbrev pub as_ssize : ℕ → ℤ
as_ssize n = if ltb n (2 ^ 31) then pos n else negsuc (2 ^ 32 - n - 1)

-- `copy_to_user` and `copy_from_user` at an offset of the user's buffer: each returns how many bytes
-- were not copied, the second also what then stands in the kernel's buffer.
pub record UserMemory : Type 0 where
  pub copy_to_user : ℕ → List ℕ → ℕ
  pub copy_from_user : ℕ → List ℕ → List ℕ × ℕ
  pub copied :
      (at : ℕ) (bytes : List ℕ)
      → (copy_from_user at bytes).1 ≡ 0
      → (copy_from_user at bytes).0 ≡ bytes
