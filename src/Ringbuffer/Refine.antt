-- ===== src/Ringbuffer/Refine.antt =====
-- A ring stands for the sequence of its unread bytes: what the operations do to that sequence.
use tuxbox_git_driver.Common.{
  ℕ, ◌+◌, ◌-◌, ◌%◌, ◌≤◌, ◌<◌, ◌≡◌, ◌↔◌, List, [], ◌∷◌, ◌++◌, Bool, true, arith, length, get_or,
  slice, memcpy, take, drop, ltb, if◌then◌else◌, refl, nil_of_length, take-all, length-drop,
  set-memcpy,
}
use tuxbox_git_driver.Common.Int.{pos, ◌+ℤ◌, ◌-ℤ◌}
use tuxbox_git_driver.Kernel.{UserMemory, add_size, sub_size}
use tuxbox_git_driver.Circular
use tuxbox_git_driver.Circular.{
  used, wrap, fetch_at, store_at, store_at_fits, mod_wrap, get_or-contents, contents-skip,
  contents-store_at, fetch_at-take,
}
use tuxbox_git_driver.Ringbuffer.{
  Ringbuffer, init, empty, free, avail, flush, peek, skip, write_byte, read, read_rest, write,
  write_first, write_rest, copy_in,
}
use tuxbox_git_driver.Ringbuffer.Invariant.{IsValid}

abbrev pub contents : Ringbuffer → List ℕ
contents r = Circular.contents r.buf r.size r.pread r.pwrite

pub length-contents :
    {r : Ringbuffer} → IsValid r → length (contents r) ≡ used r.size r.pread r.pwrite
length-contents {r} v =
    Circular.length-contents r.buf r.size v.storage r.pread r.pwrite v.pread_in v.pwrite_in

-- In a well-formed ring `dvb_ringbuffer_avail` is the number of unread bytes, `dvb_ringbuffer_free`
-- is what is left of the size less one, and `dvb_ringbuffer_empty` says whether there is none.
pub avail-free :
    {r : Ringbuffer}
    → IsValid r
    → (avail r ≡ pos (length (contents r)))
      × (free r ≡ pos (r.size - 1 - length (contents r)))
      × ((empty r ≡ true) ↔ (contents r ≡ []))
unfolding avail free empty ◌+ℤ◌ ◌-ℤ◌
avail-free {r} v = (
  ground (arith, length-contents v),
  ground (arith, length-contents v),
  (
    λ e. nil_of_length (contents r) (ground (arith, length-contents v)),
    λ e. let none_left : length (contents r) ≡ 0 = rw e in ground (arith, length-contents v),
  ),
)

-- A new ring has nothing to read.
pub contents-init : (storage : List ℕ) (len : ℕ) → contents (init storage len) ≡ []
unfolding init Circular.contents
contents-init storage len = refl

pub contents-flush : (r : Ringbuffer) → IsValid r → contents (flush r) ≡ []
unfolding flush Circular.contents
contents-flush r v = ground arith

-- DVB_RINGBUFFER_PEEK at an offset below the number of unread bytes sees the unread byte of that
-- place, and DVB_RINGBUFFER_SKIP over unread bytes drops those.
pub peek-skip :
    {r : Ringbuffer} (n : ℕ)
    → IsValid r
    → n < length (contents r)
    → (peek r n ≡ get_or (contents r) n 0) × (contents (skip r n) ≡ drop n (contents r))
unfolding peek skip
peek-skip {r} n v h =
    let in_use : n < used r.size r.pread r.pwrite = omega (arith, length-contents v) in
    let sum : add_size r.pread n ≡ r.pread + n = ground arith in
    (
      rw sum (
          ground (
            arith,
            mod_wrap r.buf r.size v.storage (r.pread + n),
            get_or-contents 0 r.buf r.size v.storage r.pread r.pwrite n v.pread_in v.pwrite_in
                in_use,
          )),
      rw sum (
          contents-skip r.buf r.size v.storage r.pread r.pwrite n v.pread_in v.pwrite_in
            (omega arith)),
    )

-- DVB_RINGBUFFER_WRITE_BYTE into a ring with a byte free appends that byte to the unread ones.
pub contents-write_byte :
    {r : Ringbuffer} (byte : ℕ)
    → IsValid r
    → length (contents r) + 1 < r.size
    → contents (write_byte r byte) ≡ contents r ++ byte ∷ []
unfolding write_byte
contents-write_byte {r} byte v h =
    let sum : add_size r.pwrite 1 ≡ r.pwrite + 1 = omega arith in
    let one : memcpy r.buf r.pwrite (byte ∷ []) ≡ store_at r.buf r.size r.pwrite (byte ∷ []) =
      store_at_fits r.buf r.size r.pwrite (byte ∷ []) (omega arith) in
    rw (sum, set-memcpy r.buf r.pwrite byte, one)
      (contents-store_at r.buf r.size r.pread r.pwrite (byte ∷ []) v.storage v.pread_in v.pwrite_in
        (omega (arith, length-contents v)))

-- The copies to and from user memory succeed, or none is made.
abbrev pub Accessible : UserMemory → Bool → Type 0
Accessible user usermem =
    (at : ℕ) (bytes : List ℕ)
    → usermem ≡ true
    → (user.copy_to_user at bytes ≡ 0) × ((user.copy_from_user at bytes).1 ≡ 0)

module _ (user : UserMemory) (usermem : Bool) (ok : Accessible user usermem) where
  -- What the call does, on either path.
  pub read_lem :
      {r : Ringbuffer} (len : ℕ)
      → IsValid r
      → len ≤ length (contents r)
      → read user r len usermem ≡ (
        pos len,
        fetch_at r.buf r.size r.pread len,
        record r { pread = ((if ltb r.size (r.pread + len) then 0 else r.pread) + len) % r.size },
      )
  unfolding read fetch_at read_rest
  read_lem {r} len v h =
      let sum : add_size r.pread len ≡ r.pread + len = ground (arith, length-contents v) in
      let rest : sub_size r.size r.pread ≡ r.size - r.pread = omega arith in
      let short : len < r.size = ground (arith, length-contents v) in
      let head = slice r.buf r.pread (r.size - r.pread) in
      rw (sum, rest)
        (ground (
          arith,
          ok 0 head,
          ok (r.size - r.pread) (slice r.buf 0 (sub_size len (r.size - r.pread))),
          ok 0 (slice r.buf r.pread (sub_size len 0)),
        ))

  copy_in_lem : (at : ℕ) (bytes : List ℕ) → copy_in user usermem at bytes ≡ (bytes, 0)
  unfolding copy_in
  copy_in_lem at bytes = ground (arith, ok at bytes, user.copied at bytes)

  pub write_lem :
      {r : Ringbuffer} (src : List ℕ)
      → IsValid r
      → length (contents r) + length src < r.size
      → write user r src usermem ≡ (
        pos (length src),
        record r {
          buf = store_at r.buf r.size r.pwrite src;
          pwrite =
              ((if ltb r.size (r.pwrite + length src) then 0 else r.pwrite) + length src) % r.size;
        },
      )
  unfolding write store_at write_first write_rest
  write_lem {r} src v h =
      let sum : add_size r.pwrite (length src) ≡ r.pwrite + length src = omega arith in
      let rest : sub_size r.size r.pwrite ≡ r.size - r.pwrite = omega arith in
      let split = r.size - r.pwrite in
      rw (sum, rest)
        (ground (
          arith,
          copy_in_lem 0 (slice src 0 split),
          copy_in_lem split (slice src split (sub_size (length src) split)),
          copy_in_lem 0 src,
          length-drop split src,
          take-all (sub_size (length src) split) (drop split src),
        ))

  -- `dvb_ringbuffer_read` of at most the unread bytes, up to the end of the storage, returns the
  -- oldest bytes in order and takes exactly those off.
  pub read_refines :
      {r : Ringbuffer} (len : ℕ)
      → IsValid r
      → len ≤ length (contents r)
      → r.pread + len ≤ r.size
      → let (ret, out, r') = read user r len usermem in
        (ret ≡ pos len) × (out ≡ take len (contents r)) × (contents r' ≡ drop len (contents r))
  read_refines {r} len v h fits = rw (read_lem len v h) (
    refl,
    fetch_at-take r.buf r.size v.storage r.pread r.pwrite len v.pread_in v.pwrite_in in_use,
    ground (
      arith,
      contents-skip r.buf r.size v.storage r.pread r.pwrite len v.pread_in v.pwrite_in in_use,
    ),
  )
    where
      in_use : len ≤ used r.size r.pread r.pwrite
      in_use = omega (arith, length-contents v)

  -- `dvb_ringbuffer_write` of fewer bytes than are free, up to the end of the storage, appends
  -- exactly those bytes.
  pub write_refines :
      {r : Ringbuffer} (src : List ℕ)
      → IsValid r
      → length (contents r) + length src < r.size
      → r.pwrite + length src ≤ r.size
      → let (ret, r') = write user r src usermem in
        (ret ≡ pos (length src)) × (contents r' ≡ contents r ++ src)
  write_refines {r} src v h fits = rw (write_lem src v h) (
    refl,
    ground (
      arith,
      contents-store_at r.buf r.size r.pread r.pwrite src v.storage v.pread_in v.pwrite_in
          (omega (arith, length-contents v)),
    ),
  )
