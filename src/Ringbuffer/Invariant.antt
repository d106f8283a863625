-- ===== src/Ringbuffer/Invariant.antt =====
-- The well-formed states of a struct dvb_ringbuffer, and what keeps them.
use tuxbox_git_driver.Common.{
  ℕ, ◌^◌, ◌≤◌, ◌<◌, List, Bool, arith, length, length-set, length-memcpy, slice, memcpy, ltb,
  if◌then◌else◌,
}
use tuxbox_git_driver.Kernel.{UserMemory, add_size, sub_size}
use tuxbox_git_driver.Ringbuffer.{
  Ringbuffer, init, flush, skip, write_byte, read, read_rest, write, write_first, write_rest,
  copy_in,
}

pub record IsValid (r : Ringbuffer) : Type 0 where
  pub storage : r.size ≤ length r.buf
  pub small : r.size < 2 ^ 31
  pub pread_in : r.pread < r.size
  pub pwrite_in : r.pwrite < r.size

pub init-IsValid :
    (storage : List ℕ) (len : ℕ)
    → len ≤ length storage
    → 0 < len
    → len < 2 ^ 31
    → IsValid (init storage len)
unfolding init
init-IsValid storage len h k l = omega arith

pub flush-IsValid : (r : Ringbuffer) → IsValid r → IsValid (flush r)
unfolding flush
flush-IsValid r v = omega arith

pub skip-IsValid : (r : Ringbuffer) (num : ℕ) → IsValid r → IsValid (skip r num)
unfolding skip
skip-IsValid r num v = omega arith

pub write_byte-IsValid : (r : Ringbuffer) (byte : ℕ) → IsValid r → IsValid (write_byte r byte)
unfolding write_byte
write_byte-IsValid r byte v = omega (arith, length-set r.buf r.pwrite byte)

module _ (user : UserMemory) where
  read_rest-IsValid :
      (r : Ringbuffer) (head : List ℕ) (split len : ℕ) (usermem : Bool)
      → IsValid r
      → IsValid (read_rest user r head split len usermem).2
  unfolding read_rest
  read_rest-IsValid r head split len usermem v = ground arith

  -- `dvb_ringbuffer_read` keeps a ring well formed, whatever the length and whatever the copies to
  -- user memory return.
  pub read-IsValid :
      (r : Ringbuffer) (len : ℕ) (usermem : Bool) → IsValid r → IsValid (read user r len usermem).2
  unfolding read
  read-IsValid r len usermem v = ground arith

  write_rest-IsValid :
      (r : Ringbuffer) (split : ℕ) (rest : List ℕ) (len : ℕ) (usermem : Bool)
      → IsValid r
      → IsValid (write_rest user r split rest len usermem).1
  unfolding write_rest
  write_rest-IsValid r split rest len usermem v =
      ground (arith, length-memcpy r.buf r.pwrite (copy_in user usermem split rest).0)

  write_first-IsValid :
      (r : Ringbuffer) (split : ℕ) (src : List ℕ) (usermem : Bool)
      → IsValid r
      → IsValid (write_first user r split src usermem).1
  unfolding write_first
  write_first-IsValid r split src usermem v =
      let (bytes, left) = copy_in user usermem 0 (slice src 0 split) in
      let stored = memcpy r.buf r.pwrite bytes in
      let rest = slice src split (sub_size (length src) split) in
      ground (
        arith,
        length-memcpy r.buf r.pwrite bytes,
        write_rest-IsValid (record r { buf = stored; pwrite = 0 }) split rest (length src) usermem,
      )

  -- `dvb_ringbuffer_write` keeps a ring well formed, on every path.
  pub write-IsValid :
      (r : Ringbuffer) (src : List ℕ) (usermem : Bool)
      → IsValid r
      → IsValid (write user r src usermem).1
  unfolding write
  write-IsValid r src usermem v =
      let split =
        if ltb r.size (add_size r.pwrite (length src)) then sub_size r.size r.pwrite else 0 in
      ground (
        arith,
        write_first-IsValid r split src usermem v,
        write_rest-IsValid r 0 src (length src) usermem v,
      )
