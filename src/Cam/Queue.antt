-- ===== src/Cam/Queue.antt =====
-- The queue of messages against the sequence of bytes that wait in it.
use tuxbox_git_driver.Common.{
  ℕ, ◌+◌, ◌-◌, ◌%◌, ◌≤◌, ◌<◌, ◌≡◌, ◌≢◌, ◌↔◌, ◌⊎◌, inl, inr, ap, sym, ◌∙◌, List, [], ◌∷◌, ◌++◌, true,
  false, arith, ltb, if◌then◌else◌, length, take, drop, slice, memcpy, set-memcpy, length-set,
  length-take, length-append, append_assoc, append-nil, nil_of_length, take-all, drop-all, ◌==◌,
  ℕ_discrete,
}
use native.Mathlib.Nat.{mod-eq_of_lt}
use tuxbox_git_driver.Circular
use tuxbox_git_driver.Circular.{
  used, wrap, fetch_at, store_at, store_at_fits, mod_wrap, contents-skip, length-fetch_at,
  contents-store_at, fetch_at-take,
}
use tuxbox_git_driver.Cam.{
  Cam, queue_size, queued, poll, read_message, put_byte, put_bytes, queue_message,
}

-- The read index may stand behind the last byte, where it counts as the start.
pub record IsValid (c : Cam) : Type 0 where
  pub storage : length c.queue ≡ queue_size
  pub wptr_in : c.queuewptr < queue_size
  pub rptr_in : c.queuerptr ≤ queue_size

abbrev pub start : Cam → ℕ
start c = if ltb c.queuerptr queue_size then c.queuerptr else 0

-- The bytes that wait, oldest first.
abbrev pub contents : Cam → List ℕ
contents c = Circular.contents c.queue queue_size (start c) c.queuewptr

pub length-contents : {c : Cam} → IsValid c → length (contents c) ≡ queued c
length-contents {c} v =
    ground (arith, Circular.length-contents c.queue queue_size (omega arith) (start c) c.queuewptr)

slice_zero : (q : List ℕ) (p n : ℕ) → n ≡ 0 → slice q p n ≡ []
slice_zero q p n e = ap (λ k. take k (drop p q)) e

-- Taking more than there is takes all.
take_min :
    (count : ℕ) (xs : List ℕ)
    → let n = if ltb count (length xs) then count else length xs in
      (take count xs ≡ take n xs) × (drop count xs ≡ drop n xs)
take_min count xs = (
  ground (arith, take-all count xs, take-all (length xs) xs),
  ground (arith, drop-all count xs, drop-all (length xs) xs),
)

module _ (count : ℕ) {c : Cam} (v : IsValid c) where
  abbrev amount : ℕ
  amount = if ltb count (queued c) then count else queued c

  amount_le : amount ≤ used queue_size (start c) c.queuewptr
  amount_le = ground arith

  read_out : (read_message count c).1 ≡ fetch_at c.queue queue_size (start c) amount
  unfolding read_message fetch_at
  read_out = ground (
    arith,
    slice_zero c.queue c.queuerptr (queue_size - c.queuerptr),
    slice_zero c.queue c.queuerptr amount,
    slice_zero c.queue 0 amount,
  )

  read_start :
      let c' = (read_message count c).2 in
      (start c' ≡ wrap queue_size (start c + amount))
      × (c'.queuerptr ≤ queue_size)
      × (c'.queue ≡ c.queue)
      × (c'.queuewptr ≡ c.queuewptr)
      × ((read_message count c).0 ≡ amount)
  unfolding read_message
  read_start = ground arith

-- cam_read_message returns the oldest bytes, as many as were asked for or there are, and takes exactly
-- those off.
pub read_message_refines :
    (count : ℕ) {c : Cam}
    → IsValid c
    → let (cb, out, c') = read_message count c in
      (cb ≡ length out)
      × (out ≡ take count (contents c))
      × (contents c' ≡ drop count (contents c))
      × IsValid c'
read_message_refines count {c} v =
    let (at, inside, same, kept, cb) = read_start count v in
    let fits : queue_size ≤ length c.queue = omega arith in
    let s_in : start c < queue_size = ground arith in
    let n = amount count v in
    let n_le = amount_le count v in
    let all = rw (length-contents v) at (take_min count (contents c)) in
    let moved = mod_wrap c.queue queue_size fits (start c + n) (ground arith) in
    let skipped =
      contents-skip c.queue queue_size fits (start c) c.queuewptr n s_in v.wptr_in n_le in
    let fetched =
      fetch_at-take c.queue queue_size fits (start c) c.queuewptr n s_in v.wptr_in n_le in
    (
      omega (
        arith,
        cb,
        ap length (read_out count v),
        length-fetch_at c.queue queue_size fits (start c) n s_in (ground arith),
      ),
      read_out count v ∙ fetched ∙ sym all.0,
      cc (at, same, kept, moved, skipped, all.1),
      record {
        storage = ap length same ∙ v.storage;
        wptr_in = omega (arith, kept);
        rptr_in = inside;
      },
    )

-- One byte into a queue that is not full but for one.
put_byte_lem :
    (b : ℕ) {c : Cam}
    → IsValid c
    → length (contents c) + 1 < queue_size
    → (contents (put_byte b c) ≡ contents c ++ b ∷ []) × IsValid (put_byte b c)
unfolding put_byte
put_byte_lem b {c} v h =
    let fits : queue_size ≤ length c.queue = omega arith in
    let one : memcpy c.queue c.queuewptr (b ∷ [])
        ≡ store_at c.queue queue_size c.queuewptr (b ∷ []) =
      store_at_fits c.queue queue_size c.queuewptr (b ∷ []) (omega arith) in
    let next : (if c.queuewptr + 1 == queue_size then 0 else c.queuewptr + 1)
        ≡ (c.queuewptr + 1) % queue_size =
      ground arith in
    (
      rw (set-memcpy c.queue c.queuewptr b, one, next)
          (contents-store_at c.queue queue_size (start c) c.queuewptr (b ∷ []) fits (ground arith)
            (omega arith)
            (omega (
              arith,
              Circular.length-contents c.queue queue_size fits (start c) c.queuewptr (ground arith)
                  (omega arith),
            ))),
      ground (arith, length-set c.queue c.queuewptr b),
    )

-- The read index stays where it is.
put_bytes_lem :
    (bs : List ℕ) {c : Cam}
    → IsValid c
    → length (contents c) + length bs < queue_size
    → (contents (put_bytes bs c) ≡ contents c ++ bs) × IsValid (put_bytes bs c)
unfolding put_bytes
put_bytes_lem [] {c} v h = (sym (append-nil (contents c)), v)
put_bytes_lem (b ∷ bs) {c} v h =
    let (e, v') = put_byte_lem b v (omega arith) in
    let long : length (contents (put_byte b c)) ≡ length (contents c) + 1 =
      omega (arith, ap length e, length-append (contents c) (b ∷ [])) in
    let (e', v'') = put_bytes_lem bs v' (omega arith) in
    (e' ∙ ap (λ l. l ++ bs) e ∙ append_assoc (contents c) (b ∷ []) bs, v'')

-- A message that leaves at least one byte of the queue free is queued behind what waits, with the byte
-- 0x6f before it.
pub queue_message_refines :
    (buffer : List ℕ) (len : ℕ) {c : Cam}
    → IsValid c
    → len ≤ length buffer
    → length (contents c) + len + 1 < queue_size
    → (contents (queue_message buffer len c) ≡ contents c ++ 0x6f ∷ take len buffer)
      × IsValid (queue_message buffer len c)
unfolding queue_message
queue_message_refines buffer len {c} v h room =
    let (e, v') = put_byte_lem 0x6f v (omega arith) in
    let long : length (contents (put_byte 0x6f c)) ≡ length (contents c) + 1 =
      omega (arith, ap length e, length-append (contents c) (0x6f ∷ [])) in
    let (e', v'') = put_bytes_lem (take len buffer) v' (omega (arith, length-take len buffer)) in
    let fits : ltb (queue_size - queued c) len ≡ false = ground (arith, length-contents v) in
    rw fits (
      e'
          ∙ ap (λ l. l ++ take len buffer) e
          ∙ append_assoc (contents c) (0x6f ∷ []) (take len buffer),
      v'',
    )

-- The index after some bytes were put.
put_bytes_wptr :
    (bs : List ℕ) (c : Cam)
    → c.queuewptr < queue_size
    → ((put_bytes bs c).queuewptr ≡ (c.queuewptr + length bs) % queue_size)
      × ((put_bytes bs c).queuerptr ≡ c.queuerptr)
unfolding put_bytes put_byte
put_bytes_wptr [] c h = omega arith
put_bytes_wptr (b ∷ bs) c h = ground (arith, put_bytes_wptr bs (put_byte b c))

-- Nothing waits where the indices meet.
contents_met : (c : Cam) → c.queuewptr < queue_size → c.queuewptr ≡ c.queuerptr → contents c ≡ []
unfolding Circular.contents
contents_met c h e = ground (arith, slice_zero c.queue (start c) (c.queuewptr - start c))

-- The test before a message is queued counts neither the byte 0x6f nor the byte that has to stay free:
-- a message that with its first byte fills the queue exactly is accepted, and leaves the queue empty.
pub queue_message_overrun :
    (buffer : List ℕ) (len : ℕ) {c : Cam}
    → IsValid c
    → c.queuerptr < queue_size
    → len ≤ length buffer
    → queued c + len + 1 ≡ queue_size
    → let c' = queue_message buffer len c in (c'.queuewptr ≡ c'.queuerptr) × (contents c' ≡ [])
unfolding queue_message put_bytes
queue_message_overrun buffer len {c} v low h full =
    let fits : ltb (queue_size - queued c) len ≡ false = ground (arith, length-contents v) in
    let bs = 0x6f ∷ take len buffer in
    let (at, kept) = put_bytes_wptr bs c v.wptr_in in
    let long : length bs ≡ len + 1 = omega (arith, length-take len buffer) in
    let met : (put_bytes bs c).queuewptr ≡ (put_bytes bs c).queuerptr =
      ground (arith, mod-eq_of_lt low) in
    rw fits (met, contents_met (put_bytes bs c) (omega arith) met)

-- cam_poll reports bytes exactly if some wait, or if the read index stands behind the end of the array
-- and the write index at its start.
pub poll_lem :
    {c : Cam}
    → IsValid c
    → (poll c ≡ true) ↔ ((contents c ≢ []) ⊎ ((c.queuerptr ≡ queue_size) × (c.queuewptr ≡ 0)))
unfolding poll
poll_lem {c} v = (
  λ on. elim (ℕ_discrete c.queuerptr queue_size) [
    | yes e ↦ elim (ℕ_discrete c.queuewptr 0) [
      | yes z ↦ inr (e, z)
      | no z ↦ inl λ n. ground (arith, length-contents v, ap length n)
    ]
    | no e ↦ inl λ n. ground (arith, length-contents v, ap length n)
  ],
  λ x. elim x [
    | inl n ↦ elim (ℕ_discrete (length (contents c)) 0) [
      | yes z ↦ absurd (n (nil_of_length (contents c) z))
      | no z ↦ ground (arith, length-contents v)
    ]
    | inr (e, z) ↦ ground arith
  ],
)
