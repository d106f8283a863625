-- ===== src/Dmxdev/Buffer.antt =====
-- The buffer of the demultiplexer device against the sequence of the bytes that wait in it.
use tuxbox_git_driver.Common.{
  ℕ, ◌+◌, ◌-◌, ◌%◌, ◌≤◌, ◌<◌, ◌≡◌, ◌≢◌, ◌⊎◌, inl, inr, refl, ap, sym, ◌∙◌, List, [], ◌∷◌, ◌++◌,
  true, false, some, arith, ltb, leb, ◌==◌, if◌then◌else◌, length, append-nil, dec_lt,
}
use tuxbox_git_driver.Common.Int.{pos, negsuc}
use native.Mathlib.Nat.{mod-eq-sub-mod}
use tuxbox_git_driver.Circular
use tuxbox_git_driver.Circular.{
  used, store_at, fetch_at, length-fetch_at, fetch_at-take, contents-skip, contents-store_at,
  length-store_at,
}
use tuxbox_git_driver.Dmxdev.{DmxdevBuffer, write_at, buffer_write, set_buffer_size}

-- The memory is as large as `size` says, and the indices lie inside.
pub record IsValid (b : DmxdevBuffer) (mem : List ℕ) : Type 0 where
  pub allocated : b.mem ≡ some mem
  pub storage : b.size ≤ length mem
  pub pread_in : b.pread < b.size
  pub pwrite_in : b.pwrite < b.size

-- The bytes that wait, oldest first.
abbrev pub contents : DmxdevBuffer → List ℕ → List ℕ
contents b mem = Circular.contents mem b.size b.pread b.pwrite

pub length-contents :
    {b : DmxdevBuffer} {mem : List ℕ}
    → IsValid b mem
    → length (contents b mem) ≡ used b.size b.pread b.pwrite
length-contents {b} {mem} v =
    Circular.length-contents mem b.size v.storage b.pread b.pwrite v.pread_in v.pwrite_in

module _ (src : List ℕ) {b : DmxdevBuffer} {mem : List ℕ} (v : IsValid b mem)
    (some_bytes : 0 < length src) where
  -- Too many bytes are refused.
  write_at_full : b.size ≤ length (contents b mem) + length src → write_at mem b src ≡ (negsuc 0, b)
  unfolding write_at
  write_at_full full =
      let over : leb
            (if leb b.pread b.pwrite then b.pread + b.size - b.pwrite else b.pread - b.pwrite)
            (length src)
          ≡ true =
        ground (arith, length-contents v) in
      rw over refl

  module _ (room : length (contents b mem) + length src < b.size) where
    abbrev end : ℕ
    end = if leb b.pread b.pwrite then b.size - b.pwrite else 0

    abbrev split : ℕ
    split = if leb (length src) end then 0 else end

    split_cases :
        ((split ≡ 0) × (b.pwrite + length src ≤ b.size))
        ⊎ ((split ≡ b.size - b.pwrite) × (b.size < b.pwrite + length src))
    split_cases = ground (arith, length-contents v)

    fits :
        leb
          (if leb b.pread b.pwrite then b.pread + b.size - b.pwrite else b.pread - b.pwrite)
          (length src)
        ≡ false
    fits = ground (arith, length-contents v)

    -- Otherwise they are stored round the end.
    write_at_stored : write_at mem b src ≡ (
      pos (length src),
      record b {
        mem = some (store_at mem b.size b.pwrite src);
        pwrite = (b.pwrite + length src) % b.size;
      },
    )
    unfolding write_at store_at
    write_at_stored = elim split_cases [
      | inl (z, inside) ↦
          let short : ltb b.size (b.pwrite + length src) ≡ false = ground arith in
          let whole : length src - 0 ≡ length src = omega arith in rw (fits, z, short, whole) refl
      | inr (z, round) ↦
          let long : ltb b.size (b.pwrite + length src) ≡ true = ground arith in
          let turned : ltb 0 (b.size - b.pwrite) ≡ true = ground arith in
          let at : (0 + (length src - (b.size - b.pwrite))) % b.size
              ≡ (b.pwrite + length src) % b.size =
            (let e : 0 + (length src - (b.size - b.pwrite)) ≡ b.pwrite + length src - b.size =
                omega arith in
              ap (λ n. n % b.size) e
              ∙ sym (mod-eq-sub-mod {n = b.pwrite + length src} {m = b.size} (omega arith))) in
          rw (fits, z, long, turned, at) refl
    ]

buffer_write_at :
    (c : ℕ) (src : List ℕ) (b : DmxdevBuffer) {mem : List ℕ}
    → b.mem ≡ some mem
    → buffer_write b (c ∷ src) ≡ write_at mem b (c ∷ src)
unfolding buffer_write
buffer_write_at c src b {mem} e = ground (arith, e)

-- dvb_dmxdev_buffer_write into a well-formed buffer: bytes that leave one free are appended to those
-- that wait, in order, and their number is returned; others are refused with -1 and change nothing.
pub buffer_write_refines :
    (src : List ℕ) {b : DmxdevBuffer} {mem : List ℕ}
    → IsValid b mem
    → let (ret, b') = buffer_write b src in
      ((length (contents b mem) + length src < b.size)
        × (mem' : List ℕ) × (ret ≡ pos (length src))
        × (contents b' mem' ≡ contents b mem ++ src)
        × IsValid b' mem')
      ⊎ ((b.size ≤ length (contents b mem) + length src) × (ret ≡ negsuc 0) × (b' ≡ b))
unfolding buffer_write
buffer_write_refines [] {b} {mem} v =
    inl (ground (arith, length-contents v), mem, refl, sym (append-nil (contents b mem)), v)
buffer_write_refines (c ∷ src) {b} {mem} v =
    elim (dec_lt (length (contents b mem) + length (c ∷ src)) b.size) [
      | yes room ↦
          let stored = write_at_stored (c ∷ src) v (omega arith) room in
          let mem' = store_at mem b.size b.pwrite (c ∷ src) in
          rw (buffer_write_at c src b v.allocated, stored)
            (inl (
              room,
              mem',
              refl,
              contents-store_at mem b.size b.pread b.pwrite (c ∷ src) v.storage v.pread_in
                  v.pwrite_in (omega (arith, length-contents v)),
              record {
                allocated = refl;
                storage = omega (arith, length-store_at mem b.size v.storage b.pwrite (c ∷ src));
                pread_in = v.pread_in;
                pwrite_in = omega arith;
              },
            ))
      | no full ↦
          rw
            (
              buffer_write_at c src b v.allocated,
              write_at_full (c ∷ src) v (omega arith) (omega arith),
            )
            (inr (omega arith, refl, refl))
    ]

-- dvb_dmxdev_set_buffer_size on a filter that is not running, to another size but 0, with memory of
-- that size from vmalloc: it returns 0 and leaves a well-formed buffer without bytes.
pub set_buffer_size_lem :
    (memory : List ℕ) (size : ℕ) (b : DmxdevBuffer)
    → size ≢ b.size
    → 0 < size
    → size ≤ length memory
    → let (ret, b') = set_buffer_size false (some memory) size b in
      (ret ≡ pos 0) × IsValid b' memory × (contents b' memory ≡ [])
unfolding set_buffer_size Circular.contents
set_buffer_size_lem memory size b other more room =
    let differs : (b.size == size) ≡ false = ground (arith, λ (e : b.size ≡ size). other (sym e)) in
    let not_zero : (size == 0) ≡ false = ground arith in
    rw (differs, not_zero)
      (refl, record { allocated = refl; storage = room; pread_in = more; pwrite_in = more }, refl)
