-- ===== src/Avia/Get.antt =====
-- A queue of the chip stands for the sequence of its bytes: what the reads of the driver take off it.
use tuxbox_git_driver.Common.{
  ℕ, ◌+◌, ◌-◌, ◌^◌, ◌≤◌, ◌<◌, ◌≡◌, refl, sym, List, ◌++◌, Bool, true, false, ◌&&◌, leb, arith,
  length, slice, take, drop, ltb, if◌then◌else◌, append-nil,
}
use tuxbox_git_driver.Circular
use tuxbox_git_driver.Circular.{used, wrap, fetch_at, mod_wrap, contents-skip, fetch_at-take}
use tuxbox_git_driver.Avia.{
  Queue, queue_count, buf1_size, buf2_size, bytes_avail, data_get, queue_crc32,
}

pub record IsValid (q : Queue) : Type 0 where
  pub storage : q.size ≤ length q.mem
  pub small : q.size < 2 ^ 31
  pub read_in : q.read_pos < q.size
  pub write_in : q.write_pos < q.size
  pub index_in : q.index < queue_count

abbrev pub contents : Queue → List ℕ
contents q = Circular.contents q.mem q.size q.read_pos q.write_pos

pub length-contents :
    {q : Queue} → IsValid q → length (contents q) ≡ used q.size q.read_pos q.write_pos
length-contents {q} v =
    Circular.length-contents q.mem q.size v.storage q.read_pos q.write_pos v.read_in v.write_in

pub bytes_avail_lem : {q : Queue} → IsValid q → bytes_avail q ≡ length (contents q)
unfolding bytes_avail buf1_size buf2_size
bytes_avail_lem {q} v = ground (arith, length-contents v)

-- How many bytes a read takes.
abbrev pub taken : ℕ → Queue → ℕ
taken count q = if ltb (length (contents q)) count then length (contents q) else count

pub data_get_lem :
    {q : Queue} (count : ℕ) (peek : Bool)
    → IsValid q
    → let n = taken count q in
      data_get count peek q ≡ (
        n,
        fetch_at q.mem q.size q.read_pos n,
        if peek then q else record q { read_pos = wrap q.size (q.read_pos + n) },
      )
unfolding data_get fetch_at
data_get_lem {q} count peek v =
    let r = q.read_pos in
    ground (arith, bytes_avail_lem v, length-contents v, append-nil (slice q.mem r (q.size - r)))

taken_fits :
    {q : Queue} (count : ℕ) → IsValid q → taken count q ≤ used q.size q.read_pos q.write_pos
taken_fits count v = ground (arith, length-contents v)

taken_bytes :
    {q : Queue} (count : ℕ)
    → IsValid q
    → fetch_at q.mem q.size q.read_pos (taken count q) ≡ take (taken count q) (contents q)
taken_bytes {q} count v =
    fetch_at-take q.mem q.size v.storage q.read_pos q.write_pos (taken count q) v.read_in v.write_in
      (taken_fits count v)

left_behind :
    {q : Queue} (count : ℕ)
    → IsValid q
    → Circular.contents q.mem q.size (wrap q.size (q.read_pos + taken count q)) q.write_pos
      ≡ drop (taken count q) (contents q)
left_behind {q} count v =
    let n = taken count q in
    let bound : q.read_pos + n < q.size + q.size = ground (arith, taken_fits count v) in
    rw (sym (mod_wrap q.mem q.size v.storage (q.read_pos + n) bound)) (
      contents-skip q.mem q.size v.storage q.read_pos q.write_pos n v.read_in v.write_in
        (taken_fits count v))

-- avia_gt_dmx_queue_data_get on a valid queue: it returns as many bytes as were asked for and wait, the
-- oldest ones in order; a peek changes nothing, and a read takes exactly these bytes off and keeps the
-- queue valid.
pub data_get_refines :
    {q : Queue} (count : ℕ) (peek : Bool)
    → IsValid q
    → let n = taken count q in
      let (ret, bytes, q') = data_get count peek q in
      (ret ≡ n)
      × (bytes ≡ take n (contents q))
      × (contents q' ≡ (if peek then contents q else drop n (contents q)))
      × IsValid q'
data_get_refines {q} count true v =
    rw (data_get_lem count true v) (refl, taken_bytes count v, refl, v)
data_get_refines {q} count false v =
    rw (data_get_lem count false v)
      (refl, taken_bytes count v, left_behind count v, ground (arith, taken_fits count v))

-- avia_gt_dmx_queue_crc32 on a valid queue, for at most as many bytes as wait, with a CRC of the chip that
-- can be taken in two parts: it is the CRC of the oldest bytes, or 0 where the GTX would have to take a
-- first part of at most four bytes.
pub queue_crc32_lem :
    (crc : List ℕ → ℕ → ℕ) (gtx : Bool) (count seed : ℕ) {q : Queue}
    → ((xs ys : List ℕ) (s : ℕ) → crc (xs ++ ys) s ≡ crc ys (crc xs s))
    → IsValid q
    → count ≤ length (contents q)
    → queue_crc32 crc gtx count seed q ≡ (
        if gtx && ltb q.size (q.read_pos + count) && leb (q.size - q.read_pos) 4
        then 0
        else crc (take count (contents q)) seed)
unfolding queue_crc32 fetch_at
queue_crc32_lem crc gtx count seed {q} parts v h =
    let r = q.read_pos in
    let bytes =
      fetch_at-take q.mem q.size v.storage r q.write_pos count v.read_in v.write_in
        (omega (arith, length-contents v)) in
    let both = parts (slice q.mem r (q.size - r)) (slice q.mem 0 (count - (q.size - r))) seed in
    rw (sym bytes) (ground (arith, both, length-contents v))
