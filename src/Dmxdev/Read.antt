-- ===== src/Dmxdev/Read.antt =====
-- dvb_dmxdev_buffer_read against the sequence of the bytes that wait in the buffer.
use tuxbox_git_driver.Common.{
  ℕ, suc, ◌+◌, ◌-◌, ◌%◌, ◌<◌, ◌≡◌, ◌≢◌, ◌⊎◌, inl, inr, refl, ap, sym, ◌∙◌, List, [], ◌++◌, true,
  false, Option, some, arith, ltb, if◌then◌else◌, length, take, drop, length-drop, length-take,
  slice, min, append_assoc, ℕ_discrete, take-all, drop-all, dec_lt,
}
use tuxbox_git_driver.Common.Int.{pos}
use tuxbox_git_driver.Kernel.{UserMemory}
use native.Mathlib.Nat.{mod-eq-sub-mod}
use tuxbox_git_driver.Circular.{used, fetch_at, fetch_at-take, contents-skip}
use tuxbox_git_driver.Dmxdev.Buffer.{IsValid, contents, length-contents}
use tuxbox_git_driver.Dmxdev.{DmxdevBuffer, copy_rest, copy_round, go_on, read_loop, buffer_read}

-- Taking more than there is takes all.
take_capped :
    (count : ℕ) (xs : List ℕ)
    → let n = min count (length xs) in (take count xs ≡ take n xs) × (drop count xs ≡ drop n xs)
take_capped count xs = (
  ground (arith, take-all count xs, take-all (length xs) xs),
  ground (arith, drop-all count xs, drop-all (length xs) xs),
)

module _ (user : UserMemory) (wait : DmxdevBuffer → Option DmxdevBuffer)
    (ok : (at : ℕ) (bytes : List ℕ) → user.copy_to_user at bytes ≡ 0) where
  module _ (todo : ℕ) (out : List ℕ) {b : DmxdevBuffer} {mem : List ℕ} (v : IsValid b mem) where
    abbrev amount : ℕ
    amount = min todo (used b.size b.pread b.pwrite)

    abbrev available : ℕ
    available =
        let waiting =
          if ltb b.pwrite b.pread then b.pwrite + b.size - b.pread else b.pwrite - b.pread in
        if ltb todo waiting then todo else waiting

    abbrev cut : ℕ
    cut = if ltb b.pwrite b.pread then b.size - b.pread else b.size

    available_is : available ≡ amount
    available_is = ground arith

    cut_cases :
        ((ltb cut amount ≡ false) × (ltb b.size (b.pread + amount) ≡ false))
        ⊎ ((ltb cut amount ≡ true)
            × (ltb b.size (b.pread + amount) ≡ true)
            × (cut ≡ b.size - b.pread)
            × (cut < amount))
    cut_cases = ground arith

    rest_lem :
        (left n : ℕ) (done : List ℕ) (b' : DmxdevBuffer)
        → 0 < n
        → copy_rest user mem left n done b'
          ≡ go_on
              (left - n)
              (done ++ slice mem b'.pread n)
              (record b' { pread = (b'.pread + n) % b'.size })
    unfolding copy_rest
    rest_lem left n done b' some_bytes =
        let on : ltb 0 n ≡ true = ground arith in
        let copied : ltb 0 (user.copy_to_user (length done) (slice mem b'.pread n)) ≡ false =
          ground (arith, ok (length done) (slice mem b'.pread n)) in
        rw (on, copied) refl

    -- A round copies the oldest bytes.
    round_lem :
        0 < amount
        → copy_round user mem todo out b
          ≡ go_on
              (todo - amount)
              (out ++ fetch_at mem b.size b.pread amount)
              (record b { pread = (b.pread + amount) % b.size })
    unfolding copy_round fetch_at
    round_lem more = elim cut_cases [
      | inl (near, inside) ↦ rw (available_is, near, inside) (rest_lem todo amount out b more)
      | inr (far, round, c, lt) ↦
          let copied : ltb 0 (user.copy_to_user (length out) (slice mem b.pread (b.size - b.pread)))
              ≡ false =
            ground (arith, ok (length out) (slice mem b.pread (b.size - b.pread))) in
          let head = b.size - b.pread in
          let rest =
            rest_lem (todo - head) (amount - head) (out ++ slice mem b.pread head)
              (record b { pread = 0 }) (omega arith) in
          let left : todo - head - (amount - head) ≡ todo - amount = omega arith in
          let e : 0 + (amount - head) ≡ b.pread + amount - b.size = omega arith in
          let at : (0 + (amount - head)) % b.size ≡ (b.pread + amount) % b.size =
            ap (λ n. n % b.size) e
            ∙ sym (mod-eq-sub-mod {n = b.pread + amount} {m = b.size} (ground arith)) in
          let joined = append_assoc out (slice mem b.pread head) (slice mem 0 (amount - head)) in
          rw (available_is, far, round, c, copied, rest, left, at, joined) refl
    ]

  module _ (count : ℕ) where
    loop_step :
        (fuel todo left : ℕ) (out out' mem : List ℕ) (b b' : DmxdevBuffer)
        → 0 < todo
        → b.pread ≢ b.pwrite
        → b.error ≡ pos 0
        → b.mem ≡ some mem
        → copy_round user mem todo out b ≡ go_on left out' b'
        → read_loop user wait true count (suc fuel) todo out b
          ≡ read_loop user wait true count fuel left out' b'
    unfolding read_loop
    loop_step fuel todo left out out' mem b b' more waiting fine stored round =
        ground (arith, fine, stored, round)

    loop_dry :
        (fuel todo : ℕ) (out : List ℕ) (b : DmxdevBuffer)
        → 0 < todo
        → todo < count
        → b.pwrite ≡ b.pread
        → read_loop user wait true count (suc fuel) todo out b ≡ some (pos (count - todo), out, b)
    unfolding read_loop
    loop_dry fuel todo out b more got dry = ground arith

    loop_done :
        (fuel : ℕ) (out : List ℕ) (b : DmxdevBuffer)
        → read_loop user wait true count (suc fuel) 0 out b ≡ some (pos count, out, b)
    unfolding read_loop
    loop_done fuel out b = refl

    loop_zero :
        {b : DmxdevBuffer}
        → count ≡ 0
        → read_loop user wait true count (count + 1) count [] b ≡ some (pos 0, [], b)
    unfolding read_loop
    loop_zero {b} e = rw e refl

    read_enter :
        (mem : List ℕ) (b : DmxdevBuffer)
        → b.mem ≡ some mem
        → b.error ≡ pos 0
        → b.pwrite ≢ b.pread
        → buffer_read user wait true count b ≡ read_loop user wait true count (count + 1) count [] b
    unfolding buffer_read
    read_enter mem b stored fine waiting = ground (arith, fine, stored)

    module _ {b : DmxdevBuffer} {mem : List ℕ} (v : IsValid b mem) (fine : b.error ≡ pos 0)
        (some_wait : 0 < length (contents b mem)) where
      abbrev n : ℕ
      n = amount count [] v

      abbrev later : DmxdevBuffer
      later = record b { pread = (b.pread + n) % b.size }

      later-IsValid : IsValid later mem
      later-IsValid = record {
        allocated = v.allocated;
        storage = v.storage;
        pread_in = omega arith;
        pwrite_in = v.pwrite_in;
      }

      contents-later : contents later mem ≡ drop n (contents b mem)
      contents-later =
          contents-skip mem b.size v.storage b.pread b.pwrite n v.pread_in v.pwrite_in
            (ground arith)

      later_dry : n < count → later.pwrite ≡ later.pread
      later_dry short =
          let none_left : length (contents later mem) ≡ 0 =
            ground (
              arith,
              ap length contents-later,
              length-drop n (contents b mem),
              length-contents v,
            ) in
          ground (arith, none_left, length-contents later-IsValid)

      loop_lem :
          0 < count
          → read_loop user wait true count (count + 1) count [] b
            ≡ some (pos n, fetch_at mem b.size b.pread n, later)
      loop_lem more =
          let bytes = fetch_at mem b.size b.pread n in
          let fuel : count + 1 ≡ suc (suc (count - 1)) = omega arith in
          let apart : b.pread ≢ b.pwrite = (λ e. ground (arith, e, length-contents v)) in
          let round = round_lem count [] v (ground (arith, length-contents v)) in
          let step =
            loop_step (suc (count - 1)) count (count - n) [] bytes mem b later more apart fine
              v.allocated round in
          elim (dec_lt n count) [
            | yes short ↦
                let got : count - (count - n) ≡ n = omega arith in
                let some_got : 0 < n = ground (arith, length-contents v) in
                let dry =
                  loop_dry (count - 1) (count - n) bytes later (omega arith) (omega arith)
                    (later_dry short) in
                rw fuel (rw got at (step ∙ dry))
            | no enough ↦
                let none : count - n ≡ 0 = ground arith in
                let all : count ≡ n = ground arith in
                rw fuel (
                  step
                  ∙ ap (λ t. read_loop user wait true count (suc (count - 1)) t bytes later) none
                  ∙ loop_done (count - 1) bytes later
                  ∙ ap (λ t. some (pos t, bytes, later)) all)
          ]

      -- dvb_dmxdev_buffer_read without blocking, on a well-formed buffer with bytes waiting and no error
      -- noted, and memory of the reader that can be written: it returns the oldest bytes, as many as
      -- were asked for or there are, takes exactly those off, and notes no error.
      pub buffer_read_refines :
          (b' : DmxdevBuffer) × (buffer_read user wait true count b
            ≡ some (pos (length (take count (contents b mem))), take count (contents b mem), b'))
          × (contents b' mem ≡ drop count (contents b mem))
          × IsValid b' mem
          × (b'.error ≡ pos 0)
      buffer_read_refines =
          let entered =
            read_enter mem b v.allocated fine (λ e. ground (arith, e, length-contents v)) in
          elim (ℕ_discrete count 0) [
            | yes z ↦
                let nothing : take count (contents b mem) ≡ [] =
                  ap (λ k. take k (contents b mem)) z in
                (
                  b,
                  entered ∙ loop_zero z ∙ sym (ap (λ l. some (pos (length l), l, b)) nothing),
                  sym (ap (λ k. drop k (contents b mem)) z),
                  v,
                  fine,
                )
            | no more ↦
                let (taken, dropped) = take_capped count (contents b mem) in
                let same : min count (length (contents b mem)) ≡ n =
                  ground (arith, length-contents v) in
                let fetched =
                  fetch_at-take mem b.size v.storage b.pread b.pwrite n v.pread_in v.pwrite_in
                    (ground arith) in
                let bytes : fetch_at mem b.size b.pread n ≡ take count (contents b mem) =
                  fetched ∙ sym (taken ∙ ap (λ k. take k (contents b mem)) same) in
                let long : n ≡ length (take count (contents b mem)) =
                  ground (arith, length-take count (contents b mem), length-contents v) in
                (
                  later,
                  entered ∙ loop_lem (omega arith) ∙ cc (bytes, long),
                  contents-later ∙ sym (dropped ∙ ap (λ k. drop k (contents b mem)) same),
                  later-IsValid,
                  fine,
                )
          ]
