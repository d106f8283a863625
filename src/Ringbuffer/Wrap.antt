-- ===== src/Ringbuffer/Wrap.antt =====
-- What `dvb_ringbuffer_read` and `dvb_ringbuffer_write` do where the bytes go round the end of the
-- storage: where the bytes go, and where the index stands behind the call.
use tuxbox_git_driver.Common.{
  ℕ, ◌+◌, ◌-◌, ◌%◌, ◌≤◌, ◌<◌, ◌≡◌, ◌≢◌, List, Bool, arith, length, take, ltb, if◌then◌else◌, ◌++◌,
}
use native.Mathlib.Nat.{mod-eq_of_lt, mod-eq-sub-mod}
use tuxbox_git_driver.Kernel.{UserMemory}
use tuxbox_git_driver.Circular.{fetch_at-take, contents-store_at}
use tuxbox_git_driver.Ringbuffer.{Ringbuffer, read, write}
use tuxbox_git_driver.Ringbuffer.Invariant.{IsValid}
use tuxbox_git_driver.Ringbuffer.Refine.{contents, length-contents, Accessible, read_lem, write_lem}

-- The index that the code computes, and the one after the bytes.
restarted :
    (size i len : ℕ)
    → i < size
    → len < size
    → size < i + len
    → (((if ltb size (i + len) then 0 else i) + len) % size ≡ len)
      × ((i + len) % size ≡ i + len - size)
restarted size i len hi hl around = (
  ground (arith, mod-eq_of_lt {n = len} {m = size}),
  omega (
    arith,
    mod-eq-sub-mod {n = i + len} {m = size} (omega arith),
    mod-eq_of_lt {n = i + len - size} {m = size} (omega arith),
  ),
)

module _ (user : UserMemory) (usermem : Bool) (ok : Accessible user usermem) where
  -- A read of at most the unread bytes that goes past the end of the storage delivers the oldest
  -- bytes, and leaves `pread` at `len`, which is not the place after the bytes that it delivered.
  pub read_wrap_misplaced :
      {r : Ringbuffer} (len : ℕ)
      → IsValid r
      → len ≤ length (contents r)
      → r.size < r.pread + len
      → let (ret, out, r') = read user r len usermem in
        (out ≡ take len (contents r)) × (r'.pread ≡ len) × (r'.pread ≢ (r.pread + len) % r.size)
  read_wrap_misplaced {r} len v h around = rw (read_lem user usermem ok len v h) (
    fetch_at-take r.buf r.size v.storage r.pread r.pwrite len v.pread_in v.pwrite_in
        (omega (arith, length-contents v)),
    places.0,
    λ e. omega (arith, places, e),
  )
    where
      places :
          (((if ltb r.size (r.pread + len) then 0 else r.pread) + len) % r.size ≡ len)
          × ((r.pread + len) % r.size ≡ r.pread + len - r.size)
      places = restarted r.size r.pread len v.pread_in (ground (arith, length-contents v)) around

  -- A write of fewer bytes than are free that goes past the end of the storage leaves `pwrite` at
  -- the number of bytes, which is not the place after them; with `pwrite` at that place the ring
  -- would hold the old bytes and then the new ones.
  pub write_wrap_misplaced :
      {r : Ringbuffer} (src : List ℕ)
      → IsValid r
      → length (contents r) + length src < r.size
      → r.size < r.pwrite + length src
      → let (ret, r') = write user r src usermem in
        let end = (r.pwrite + length src) % r.size in
        (r'.pwrite ≡ length src)
        × (r'.pwrite ≢ end)
        × (contents (record r' { pwrite = end }) ≡ contents r ++ src)
  write_wrap_misplaced {r} src v h around = rw (write_lem user usermem ok src v h) (
    places.0,
    (λ e. omega (arith, places, e)),
    contents-store_at r.buf r.size r.pread r.pwrite src v.storage v.pread_in v.pwrite_in
        (omega (arith, length-contents v)),
  )
    where
      places :
          (((if ltb r.size (r.pwrite + length src) then 0 else r.pwrite) + length src) % r.size
            ≡ length src)
          × ((r.pwrite + length src) % r.size ≡ r.pwrite + length src - r.size)
      places = restarted r.size r.pwrite (length src) v.pwrite_in (omega arith) around
