-- ===== src/Avia/Put.antt =====
-- What the driver's writes add to a queue that the chip reads from.
use tuxbox_git_driver.Common.{
  ℕ, zero, suc, [], ◌∷◌, ap, ◌∙◌, ◌+◌, ◌-◌, ◌%◌, ◌^◌, ◌≤◌, ◌<◌, ◌≡◌, refl, sym, List, ◌++◌, Bool,
  true, arith, length, slice, take, drop, ltb, if◌then◌else◌, length-take, memcpy-nil,
}
use tuxbox_git_driver.Kernel.{UserMemory}
use tuxbox_git_driver.Circular
use tuxbox_git_driver.Circular.{
  used, wrap, store_at, store_at_fits, mod_wrap, contents-store_at, length-store_at,
}
use tuxbox_git_driver.Avia.{
  Queue, user_start, get_read_pos, bytes_free, copied_in, put_bytes, data_put,
}
use tuxbox_git_driver.Avia.Get.{IsValid}

-- What the chip has still to read of a queue, with its registers at an address of the queue.
abbrev pub unread : ℕ → Queue → List ℕ
unread register q = Circular.contents q.mem q.size (register - q.mem_addr) q.write_pos

pub record Reading (register : ℕ) (q : Queue) : Type 0 where
  pub valid : IsValid q
  pub system : q.index < user_start
  pub from : q.mem_addr ≤ register
  pub below : register < q.mem_addr + q.size
  pub addressed : q.mem_addr + q.size < 2 ^ 32

length-unread :
    {register : ℕ} {q : Queue}
    → Reading register q
    → length (unread register q) ≡ used q.size (register - q.mem_addr) q.write_pos
length-unread {register} {q} v =
    Circular.length-contents q.mem q.size v.valid.storage (register - q.mem_addr) q.write_pos
      (omega (arith, v.from, v.below)) v.valid.write_in

bytes_free_lem :
    {register : ℕ} {q : Queue}
    → Reading register q
    → bytes_free register q
      ≡ (q.size - 1 - length (unread register q), record q { hw_read_pos = register - q.mem_addr })
unfolding bytes_free get_read_pos
bytes_free_lem {register} {q} v = ground (
  arith,
  v.valid.small,
  v.valid.write_in,
  v.system,
  v.from,
  v.below,
  v.addressed,
  length-unread v,
)

take-take : (m n : ℕ) (xs : List ℕ) → m ≤ n → take m (take n xs) ≡ take m xs
take-take zero n xs h = refl
take-take (suc m) zero xs h = absurd (omega arith)
take-take (suc m) (suc n) [] h = refl
take-take (suc m) (suc n) (x ∷ xs) h = ap (◌∷◌ x) (take-take m n xs (omega arith))

take-nil : (n : ℕ) → take {A = ℕ} n [] ≡ []
take-nil zero = refl
take-nil (suc n) = refl

drop-take : (m n : ℕ) (xs : List ℕ) → drop m (take n xs) ≡ take (n - m) (drop m xs)
drop-take zero n xs = ap (λ k. take k xs) (omega arith)
drop-take (suc m) zero xs = let e : 0 - suc m ≡ 0 = omega arith in rw e refl
drop-take (suc m) (suc n) [] = sym (take-nil (suc n - suc m))
drop-take (suc m) (suc n) (x ∷ xs) = drop-take m n xs ∙ ap (λ k. take k (drop m xs)) (omega arith)

-- How many bytes a write puts into the queue.
abbrev pub accepted : ℕ → List ℕ → Queue → ℕ
accepted register src q =
    let free = q.size - 1 - length (unread register q) in
    if ltb free (length src) then free else length src

accepted_fits :
    {register : ℕ} {q : Queue} (src : List ℕ)
    → Reading register q
    → used q.size (register - q.mem_addr) q.write_pos + accepted register src q < q.size
accepted_fits src v = ground (arith, length-unread v, v.valid.write_in, v.from, v.below)

module _ (user : UserMemory) (usermem : Bool)
    (ok : (at : ℕ) (bytes : List ℕ) → usermem ≡ true → (user.copy_from_user at bytes).1 ≡ 0) where
  copied_in_lem : (at : ℕ) (bytes : List ℕ) → copied_in user usermem at bytes ≡ bytes
  copied_in_lem at bytes = ground (arith, ok at bytes, user.copied at bytes)

  put_bytes_lem :
      (n : ℕ) (src : List ℕ) (q : Queue)
      → n ≤ length src
      → n < q.size
      → q.write_pos < q.size
      → q.size < 2 ^ 31
      → put_bytes user n src usermem q ≡ record q {
        mem = store_at q.mem q.size q.write_pos (take n src);
        write_pos = wrap q.size (q.write_pos + n);
      }
  unfolding put_bytes store_at
  put_bytes_lem n src q h k wr small =
      let w = q.write_pos in
      let end = q.size - w in
      ground (
        arith,
        length-take n src,
        take-take end n src,
        drop-take end n src,
        memcpy-nil q.mem w,
        copied_in_lem 0 (take end src),
        copied_in_lem end (slice src end (n - end)),
        copied_in_lem 0 (slice src 0 n),
      )

  data_put_lem :
      {register : ℕ} {q : Queue} (src : List ℕ)
      → Reading register q
      → let n = accepted register src q in
        data_put user register src usermem q ≡ (
          n,
          record q {
            hw_read_pos = register - q.mem_addr;
            mem = store_at q.mem q.size q.write_pos (take n src);
            write_pos = wrap q.size (q.write_pos + n);
          },
        )
  unfolding data_put
  data_put_lem {register} {q} src v =
      let n = accepted register src q in
      rw (bytes_free_lem v) (
        ground (
          arith,
          v.system,
          accepted_fits src v,
          put_bytes_lem n src (record q { hw_read_pos = register - q.mem_addr }),
        ))

  -- avia_gt_dmx_queue_data_put on a valid system queue whose registers have the address of a place of
  -- it, with copies from user space that succeed: as many of the bytes as leave one place free, or all
  -- if there are fewer, come behind those that the chip has still to read; their number is the result,
  -- and the queue stays valid.
  pub data_put_refines :
      {register : ℕ} {q : Queue} (src : List ℕ)
      → Reading register q
      → let n = accepted register src q in
        let (ret, q') = data_put user register src usermem q in
        (ret ≡ n) × (unread register q' ≡ unread register q ++ take n src) × Reading register q'
  data_put_refines {register} {q} src v =
      let n = accepted register src q in
      let short : length (take n src) ≡ n = ground (arith, length-take n src) in
      let room : used q.size (register - q.mem_addr) q.write_pos + length (take n src) < q.size =
        rw short (accepted_fits src v) in
      let bound : q.write_pos + n < q.size + q.size =
        ground (arith, accepted_fits src v, v.valid.write_in) in
      let at : (q.write_pos + length (take n src)) % q.size ≡ wrap q.size (q.write_pos + n) =
        rw short (mod_wrap q.mem q.size v.valid.storage (q.write_pos + n) bound) in
      let reg : register - q.mem_addr < q.size = omega (arith, v.from, v.below) in
      rw (data_put_lem src v) (
        refl,
        rw (sym at) (
            contents-store_at q.mem q.size (register - q.mem_addr) q.write_pos (take n src)
              v.valid.storage reg v.valid.write_in room),
        record {
          valid = record {
            storage =
                rw (length-store_at q.mem q.size v.valid.storage q.write_pos (take n src))
                  v.valid.storage;
            small = v.valid.small;
            read_in = v.valid.read_in;
            write_in = ground (arith, bound);
            index_in = v.valid.index_in;
          };
          system = v.system;
          from = v.from;
          below = v.below;
          addressed = v.addressed;
        },
      )
