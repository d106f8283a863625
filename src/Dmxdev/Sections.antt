-- ===== src/Dmxdev/Sections.antt =====
-- dvb_dmxdev_read_sec: a read of a section filter ends at the end of a section.
use tuxbox_git_driver.Common.{
  ℕ, ◌+◌, ◌-◌, ◌*◌, ◌^◌, ◌<◌, ◌≡◌, refl, ap, ◌∙◌, List, [], ◌∷◌, ◌++◌, true, false, Option, some,
  ltb, ◌==◌, if◌then◌else◌, arith, length, take, drop, memcpy, length-take, length-append, bit_and,
  bit_or, subst,
}
use tuxbox_git_driver.Common.Int.{ℤ, pos, sub_ℕ, pos_part, neg_part, ◌+ℤ◌, ltb_ℤ}
use tuxbox_git_driver.Kernel.{UserMemory, eagain}
use tuxbox_git_driver.Dmxdev.{DmxdevBuffer, buffer_read}
use tuxbox_git_driver.Dmxdev.Buffer.{IsValid, contents, length-contents}
use tuxbox_git_driver.Dmxdev.Read.{buffer_read_refines}
use tuxbox_git_driver.Dmxdev.Filters.{DmxdevFilter}
use tuxbox_git_driver.Dmxdev.SectionRead.{
  beyond, read_body, body_done, header_done, read_header, read_sec,
}

-- A read returned the bytes `done` and left the bytes `rest` in the buffer and `todo` of the section.
pub record Got (r : Option (ℤ × List ℕ × DmxdevFilter)) (mem done rest : List ℕ) (todo : ℕ)
    : Type 0 where
  pub after : DmxdevFilter
  pub returned : r ≡ some (pos (length done), done, after)
  pub left : contents after.buffer mem ≡ rest
  pub valid : IsValid after.buffer mem
  pub fine : after.buffer.error ≡ pos 0
  pub todo_left : after.todo ≡ pos todo

add_lem : (a b : ℕ) → pos a +ℤ pos b ≡ pos (a + b)
unfolding ◌+ℤ◌
add_lem a b = ground arith

whole_header :
    (h₀ h₁ h₂ : ℕ) (s : List ℕ) → length s ≡ 3 → memcpy s 0 (h₀ ∷ h₁ ∷ h₂ ∷ []) ≡ h₀ ∷ h₁ ∷ h₂ ∷ []
whole_header h₀ h₁ h₂ [] e = absurd (omega arith)
whole_header h₀ h₁ h₂ (a ∷ []) e = absurd (omega arith)
whole_header h₀ h₁ h₂ (a ∷ b ∷ []) e = absurd (omega arith)
whole_header h₀ h₁ h₂ (a ∷ b ∷ c ∷ []) e = refl
whole_header h₀ h₁ h₂ (a ∷ b ∷ c ∷ d ∷ s) e = absurd (omega arith)

module _ (user : UserMemory) (wait : DmxdevBuffer → Option DmxdevBuffer)
    (ok : (k : ℕ) (bytes : List ℕ) → user.copy_to_user k bytes ≡ 0) where
  read_body_lem :
      (count t : ℕ) (out : List ℕ) (f : DmxdevFilter) {mem : List ℕ}
      → IsValid f.buffer mem
      → f.buffer.error ≡ pos 0
      → 0 < length (contents f.buffer mem)
      → let n = if ltb t count then t else count in
        let got = take n (contents f.buffer mem) in
        Got
          (read_body user wait true t count out f)
          mem
          (out ++ got)
          (drop n (contents f.buffer mem))
          (t - length got)
  unfolding read_body body_done
  read_body_lem count t out f {mem} v fine some_wait =
      let n = if ltb t count then t else count in
      let (b', e, c, v', fine') =
        buffer_read_refines (beyond (length out) user) wait (λ k bytes. ok (length out + k) bytes) n
          v fine some_wait in
      let got = take n (contents f.buffer mem) in
      let short : sub_ℕ t (length got) ≡ pos (t - length got) =
        ground (arith, length-take n (contents f.buffer mem)) in
      let long : length got + length out ≡ length (out ++ got) =
        omega (arith, length-append out got) in
      let positive : ltb_ℤ (pos (length got)) (pos 0) ≡ false = ground arith in
      record {
        after = record f { buffer = b'; todo = pos (t - length got) };
        returned = rw (e, positive, add_lem (length got) (length out), short, long) refl;
        left = c;
        valid = v';
        fine = fine';
        todo_left = refl;
      }

  -- dvb_dmxdev_read_sec without blocking, in a section of which t bytes are to come, with bytes waiting in a
  -- well-formed buffer: it returns the oldest bytes, as many as were asked for, are to come and are there,
  -- takes exactly those off, and counts them.
  pub read_sec_next :
      (count t : ℕ) (f : DmxdevFilter) {mem : List ℕ}
      → IsValid f.buffer mem
      → f.buffer.error ≡ pos 0
      → 0 < length (contents f.buffer mem)
      → 0 < t
      → f.todo ≡ pos t
      → let n = if ltb t count then t else count in
        let got = take n (contents f.buffer mem) in
        Got
          (read_sec user wait true count f)
          mem
          got
          (drop n (contents f.buffer mem))
          (t - length got)
  unfolding read_sec
  read_sec_next count t f {mem} v fine some_wait more left =
      let p : pos_part f.todo ≡ t = ap pos_part left in
      let some_left : ltb_ℤ (pos 0) f.todo ≡ true = ground arith in
      rw (some_left, p) (read_body_lem count t [] f v fine some_wait)

  module _ (same : (k : ℕ) (bytes : List ℕ) → (user.copy_from_user k bytes).1 ≡ 0) where
    -- Behind a whole header the section goes on.
    header_step :
        (count h₀ h₁ h₂ : ℕ) (f : DmxdevFilter)
        → length f.secheader ≡ 3
        → 3 < count
        → let header = h₀ ∷ h₁ ∷ h₂ ∷ [] in
          let len = bit_and (bit_or (h₁ * 2 ^ 8) h₂) 0xfff in
          read_header user wait true count 0 (pos 3) header f
          ≡ read_body user wait true len
              (count - 3)
              header
              (record f { secheader = header; todo = pos len })
    unfolding read_header
    header_step count h₀ h₁ h₂ f three enough =
        let header = h₀ ∷ h₁ ∷ h₂ ∷ [] in
        let more : (count - 3 == 0) ≡ false = ground arith in
        rw
          (
            same 0 header,
            user.copied 0 header (same 0 header),
            whole_header h₀ h₁ h₂ f.secheader three,
            more,
          )
          refl

    -- dvb_dmxdev_read_sec without blocking at the start of a section, of which more than the header waits in
    -- a well-formed buffer, for more bytes than the header has, where the reader's memory keeps what is
    -- written: it returns the header and the bytes behind it, as many as were asked for, the header's
    -- length says and are there, takes exactly those off, and counts what is to come of the section.
    pub read_sec_first :
        (count h₀ h₁ h₂ : ℕ) (body : List ℕ) (f : DmxdevFilter) {mem : List ℕ}
        → IsValid f.buffer mem
        → f.buffer.error ≡ pos 0
        → length f.secheader ≡ 3
        → f.todo ≡ pos 0
        → contents f.buffer mem ≡ h₀ ∷ h₁ ∷ h₂ ∷ body
        → 0 < length body
        → 3 < count
        → let len = bit_and (bit_or (h₁ * 2 ^ 8) h₂) 0xfff in
          let n = if ltb len (count - 3) then len else count - 3 in
          let got = take n body in
          Got
            (read_sec user wait true count f)
            mem
            (h₀ ∷ h₁ ∷ h₂ ∷ got)
            (drop n body)
            (len - length got)
    unfolding read_sec header_done
    read_sec_first count h₀ h₁ h₂ body f {mem} v fine three none_left held more enough =
        let header = h₀ ∷ h₁ ∷ h₂ ∷ [] in
        let len = bit_and (bit_or (h₁ * 2 ^ 8) h₂) 0xfff in
        let (b', e, c, v', fine') =
          buffer_read_refines user wait ok 3 v fine (omega (arith, ap length held)) in
        let rest : contents b' mem ≡ body = c ∙ ap (drop 3) held in
        let k : neg_part f.todo ≡ 0 = ap neg_part none_left in
        let at_start : ltb_ℤ (pos 0) f.todo ≡ false = ground arith in
        let whole : (if ltb count 3 then count else 3) ≡ 3 = ground arith in
        let first : take 3 (contents f.buffer mem) ≡ header = ap (take 3) held in
        let g : DmxdevFilter = record f { buffer = b'; secheader = header; todo = pos len } in
        let behind =
          read_body_lem (count - 3) len header g v' fine' (omega (arith, ap length rest)) in
        let behind' =
          subst
            (λ l.
              let n = if ltb len (count - 3) then len else count - 3 in
              Got (read_body user wait true len (count - 3) header g) mem (header ++ take n l)
                (drop n l) (len - length (take n l)))
            rest behind in
        rw
          (
            at_start,
            k,
            whole,
            e,
            first,
            header_step count h₀ h₁ h₂ (record f { buffer = b' }) three enough,
          )
          behind'

    read_dry :
        (count : ℕ) {b : DmxdevBuffer} {mem : List ℕ}
        → IsValid b mem
        → b.error ≡ pos 0
        → contents b mem ≡ []
        → (n : ℕ) → buffer_read (beyond n user) wait true count b ≡ some (eagain, [], b)
    unfolding buffer_read
    read_dry count {b} {mem} v clear empty n =
        let dry : b.pwrite ≡ b.pread = ground (arith, length-contents v, ap length empty) in
        ground (arith, v.allocated, clear)

    -- dvb_dmxdev_read_sec without blocking, where only the header of a section waits, for more bytes than the
    -- header has: the header reaches the reader's memory and is taken off the buffer, but the result is
    -- -EWOULDBLOCK, so the reader never learns of it; a section of length 0 is lost so, and of a longer one
    -- the next read starts behind the header.
    pub read_sec_header_lost :
        (count h₀ h₁ h₂ : ℕ) (f : DmxdevFilter) {mem : List ℕ}
        → IsValid f.buffer mem
        → f.buffer.error ≡ pos 0
        → length f.secheader ≡ 3
        → f.todo ≡ pos 0
        → contents f.buffer mem ≡ h₀ ∷ h₁ ∷ h₂ ∷ []
        → 3 < count
        → (f' : DmxdevFilter) × (read_sec user wait true count f
            ≡ some (eagain, h₀ ∷ h₁ ∷ h₂ ∷ [], f'))
          × (contents f'.buffer mem ≡ [])
          × (f'.todo ≡ pos (bit_and (bit_or (h₁ * 2 ^ 8) h₂) 0xfff))
    unfolding read_sec header_done read_body body_done
    read_sec_header_lost count h₀ h₁ h₂ f {mem} v fine three none_left held enough =
        let header = h₀ ∷ h₁ ∷ h₂ ∷ [] in
        let len = bit_and (bit_or (h₁ * 2 ^ 8) h₂) 0xfff in
        let (b', e, c, v', fine') =
          buffer_read_refines user wait ok 3 v fine (omega (arith, ap length held)) in
        let rest : contents b' mem ≡ [] = c ∙ ap (drop 3) held in
        let k : neg_part f.todo ≡ 0 = ap neg_part none_left in
        let at_start : ltb_ℤ (pos 0) f.todo ≡ false = ground arith in
        let whole : (if ltb count 3 then count else 3) ≡ 3 = ground arith in
        let first : take 3 (contents f.buffer mem) ≡ header = ap (take 3) held in
        (
          record f { buffer = b'; secheader = header; todo = pos len },
          rw
              (
                at_start,
                k,
                whole,
                e,
                first,
                header_step count h₀ h₁ h₂ (record f { buffer = b' }) three enough,
                read_dry (if ltb len (count - 3) then len else count - 3) v' fine' rest 3,
              )
              refl,
          rest,
          refl,
        )
