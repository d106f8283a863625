-- ===== src/Ringbuffer.antt =====
-- dvb/drivers/media/dvb/dvb-core/dvb_ringbuffer.c and the macros of dvb_ringbuffer.h. The wait queue
-- and the spinlock guard the calls and hold no data of the buffer, so they are left out.
pub mod Invariant
pub mod Refine
pub mod Wrap
mod Tests
use tuxbox_git_driver.Common.{
  ℕ, ◌+◌, ◌-◌, ◌%◌, List, [], ◌∷◌, ◌++◌, Bool, ◌&&◌, ltb, ◌==◌, if◌then◌else◌, length, get_or, set,
  slice, memcpy,
}
use tuxbox_git_driver.Common.Int.{ℤ, pos, ◌+ℤ◌, ◌-ℤ◌, ◌≤ℤ◌, ltb_ℤ}
use tuxbox_git_driver.Kernel.{UserMemory, efault, add_size, sub_size, as_ssize}

-- `struct dvb_ringbuffer`; `buf` is the field `data`.
pub record Ringbuffer : Type 0 where
  pub buf : List ℕ
  pub size : ℕ
  pub pread : ℕ
  pub pwrite : ℕ

pub init : List ℕ → ℕ → Ringbuffer
init storage len = record { buf = storage; size = len; pread = 0; pwrite = 0 }

pub empty : Ringbuffer → Bool
empty r = r.pread == r.pwrite

pub free : Ringbuffer → ℤ
unfolding ◌+ℤ◌ ◌-ℤ◌
free r =
    let free = pos r.pread -ℤ pos r.pwrite in
    (if ltb_ℤ (pos 0) free then free else free +ℤ pos r.size) -ℤ pos 1

pub avail : Ringbuffer → ℤ
unfolding ◌+ℤ◌ ◌-ℤ◌
avail r =
    let avail = pos r.pwrite -ℤ pos r.pread in
    if ltb_ℤ avail (pos 0) then avail +ℤ pos r.size else avail

pub flush : Ringbuffer → Ringbuffer
flush r = record r { pread = r.pwrite }

-- DVB_RINGBUFFER_PEEK, _SKIP and _WRITE_BYTE
pub peek : Ringbuffer → ℕ → ℕ
peek r offs = get_or r.buf (add_size r.pread offs % r.size) 0

pub skip : Ringbuffer → ℕ → Ringbuffer
skip r num = record r { pread = add_size r.pread num % r.size }

pub write_byte : Ringbuffer → ℕ → Ringbuffer
write_byte r byte = record r {
  buf = set r.buf r.pwrite byte;
  pwrite = add_size r.pwrite 1 % r.size;
}

module _ (user : UserMemory) where
  -- The second copy of `dvb_ringbuffer_read`, after `head` went to `buf`.
  read_rest : Ringbuffer → List ℕ → ℕ → ℕ → Bool → ℤ × List ℕ × Ringbuffer
  read_rest r head split len usermem =
      let tail = slice r.buf r.pread (sub_size len split) in
      if usermem && ltb 0 (user.copy_to_user split tail)
      then (efault, head, r)
      else (as_ssize len, head ++ tail, record r { pread = add_size r.pread len % r.size })

  -- The result, the bytes that reached `buf`, and the ring after the call.
  pub read : Ringbuffer → ℕ → Bool → ℤ × List ℕ × Ringbuffer
  unfolding read_rest
  read r len usermem =
      let split = if ltb r.size (add_size r.pread len) then sub_size r.size r.pread else 0 in
      let head = slice r.buf r.pread split in
      if ltb 0 split
      then (if usermem && ltb 0 (user.copy_to_user 0 head)
          then (efault, [], r)
          else read_rest (record r { pread = 0 }) head split len usermem)
      else read_rest r [] 0 len usermem

  -- What a copy of `bytes`, at offset `at` of `buf`, leaves in the kernel, and what it returns.
  copy_in : Bool → ℕ → List ℕ → List ℕ × ℕ
  copy_in usermem at bytes = if usermem then user.copy_from_user at bytes else (bytes, 0)

  write_rest : Ringbuffer → ℕ → List ℕ → ℕ → Bool → ℤ × Ringbuffer
  unfolding copy_in
  write_rest r split rest len usermem =
      let (bytes, left) = copy_in usermem split rest in
      let r' = record r { buf = memcpy r.buf r.pwrite bytes } in
      if ltb 0 left
      then (efault, r')
      else (as_ssize len, record r' { pwrite = add_size r.pwrite len % r.size })

  -- The first of two copies: `split` bytes up to the end of the storage.
  write_first : Ringbuffer → ℕ → List ℕ → Bool → ℤ × Ringbuffer
  unfolding copy_in
  write_first r split src usermem =
      let (bytes, left) = copy_in usermem 0 (slice src 0 split) in
      let r' = record r { buf = memcpy r.buf r.pwrite bytes } in
      let len = length src in
      if ltb 0 left
      then (efault, r')
      else write_rest (record r' { pwrite = 0 }) split (slice src split (sub_size len split)) len
          usermem

  -- `src` holds the `len` bytes at `buf`.
  pub write : Ringbuffer → List ℕ → Bool → ℤ × Ringbuffer
  write r src usermem =
      let len = length src in
      let split = if ltb r.size (add_size r.pwrite len) then sub_size r.size r.pwrite else 0 in
      if ltb 0 split then write_first r split src usermem else write_rest r 0 src len usermem
