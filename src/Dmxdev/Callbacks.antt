-- ===== src/Dmxdev/Callbacks.antt =====
-- What a section that the demultiplexer delivers does to the buffer of its filter.
use tuxbox_git_driver.Common.{
  ℕ, ◌+◌, ◌-◌, ◌≤◌, ◌<◌, ◌≡◌, ◌⊎◌, inl, inr, refl, ap, ◌∙◌, List, [], ◌∷◌, ◌++◌, true, false, none,
  ◌==◌, if◌then◌else◌, arith, length, append_assoc, length-append, bit_and, ltb,
}
use tuxbox_git_driver.Common.Int.{ℤ, pos, negsuc, ltb_ℤ, eqb_ℤ}
use tuxbox_git_driver.Kernel.{eoverflow}
use tuxbox_git_driver.Circular
use tuxbox_git_driver.Dmxdev.{DmxdevBuffer, is_zero, write_at, buffer_write}
use tuxbox_git_driver.Dmxdev.Buffer.{IsValid, contents, buffer_write_refines}
use tuxbox_git_driver.Dmxdev.Filters.{DmxdevFilter, state_go, state_done}
use tuxbox_git_driver.Dmxdev.Feeds.{dmx_oneshot}
use tuxbox_git_driver.Dmxdev.Device.{deliver_parts, section_callback}

write_keeps :
    (src : List ℕ) (b : DmxdevBuffer)
    → let b' = (buffer_write b src).1 in (b'.size ≡ b.size) × (b'.error ≡ b.error)
unfolding buffer_write write_at
write_keeps [] b = (refl, refl)
write_keeps (c ∷ src) b = ground arith

-- An emptied buffer.
emptied :
    {b : DmxdevBuffer} {mem : List ℕ} (e : ℤ)
    → IsValid b mem
    → let b' = record b { pwrite = b.pread; error = e } in IsValid b' mem × (contents b' mem ≡ [])
unfolding Circular.contents
emptied {b} {mem} e v =
    let none_wait : ltb b.pread b.pread ≡ false = ground arith in
    let nothing : b.pread - b.pread ≡ 0 = omega arith in
    (
      record {
        allocated = v.allocated;
        storage = v.storage;
        pread_in = v.pread_in;
        pwrite_in = v.pread_in;
      },
      rw (none_wait, nothing) refl,
    )

-- What stands in the buffer behind a delivery: the bytes behind those that waited, or nothing and the
-- error.
pub record Delivered (b b' : DmxdevBuffer) (mem bytes : List ℕ) : Type 0 where
  pub mem' : List ℕ
  pub valid : IsValid b' mem'
  pub held :
      ((length (contents b mem) + length bytes < b.size)
        × (contents b' mem' ≡ contents b mem ++ bytes)
        × (b'.error ≡ b.error))
      ⊎ ((b.size ≤ length (contents b mem) + length bytes)
          × (contents b' mem' ≡ [])
          × (b'.error ≡ eoverflow))

refused_first :
    (buffer1 buffer2 : List ℕ) {b : DmxdevBuffer}
    → (buffer_write b buffer1).0 ≡ negsuc 0
    → (buffer_write b buffer1).1 ≡ b
    → deliver_parts buffer1 buffer2 b ≡ record b { pwrite = b.pread; error = eoverflow }
unfolding deliver_parts
refused_first buffer1 buffer2 {b} ret same =
    let other : eqb_ℤ (negsuc 0) (pos (length buffer1)) ≡ false = ground arith in
    rw (ret, other, same) refl

taken_first :
    (buffer1 buffer2 : List ℕ) (b : DmxdevBuffer)
    → (buffer_write b buffer1).0 ≡ pos (length buffer1)
    → deliver_parts buffer1 buffer2 b ≡ (
        let both = buffer_write (buffer_write b buffer1).1 buffer2 in
        if ltb_ℤ both.0 (pos 0)
        then record both.1 { pwrite = both.1.pread; error = eoverflow }
        else both.1)
unfolding deliver_parts
taken_first buffer1 buffer2 b ret =
    let same : eqb_ℤ (pos (length buffer1)) (pos (length buffer1)) ≡ true = ground arith in
    rw (ret, same) refl

deliver_parts_lem :
    (buffer1 buffer2 : List ℕ) {b : DmxdevBuffer} {mem : List ℕ}
    → IsValid b mem
    → Delivered b (deliver_parts buffer1 buffer2 b) mem (buffer1 ++ buffer2)
deliver_parts_lem buffer1 buffer2 {b} {mem} v =
    let long = length-append buffer1 buffer2 in
    elim (buffer_write_refines buffer1 v) [
      | inr (full, ret, same) ↦
          let (v', none_wait) = emptied eoverflow v in
          rw (refused_first buffer1 buffer2 ret same)
            (record { mem' = mem; valid = v'; held = inr (omega arith, none_wait, refl) })
      | inl (room, mem₁, ret, held, v₁) ↦
          let b₁ = (buffer_write b buffer1).1 in
          let keeps = write_keeps buffer1 b in
          let more = length-append (contents b mem) buffer1 in
          rw (taken_first buffer1 buffer2 b ret) (elim (buffer_write_refines buffer2 v₁) [
            | inr (full, ret₂, same) ↦
                let (v', none_wait) = emptied eoverflow v₁ in
                rw (ret₂, same)
                  (record {
                    mem' = mem₁;
                    valid = v';
                    held = inr (omega (arith, ap length held, keeps.0), none_wait, refl);
                  })
            | inl (room₂, mem₂, ret₂, held₂, v₂) ↦
                let positive : ltb_ℤ (pos (length buffer2)) (pos 0) ≡ false = ground arith in
                rw (ret₂, positive)
                  (record {
                    mem' = mem₂;
                    valid = v₂;
                    held = inl (
                      omega (arith, ap length held, keeps.0),
                      held₂
                          ∙ ap (λ l. l ++ buffer2) held
                          ∙ append_assoc (contents b mem) buffer1 buffer2,
                      (write_keeps buffer2 b₁).1 ∙ keeps.1,
                    );
                  })
          ])
    ]

running_callback :
    (buffer1 buffer2 : List ℕ) (f : DmxdevFilter)
    → f.buffer.error ≡ pos 0
    → f.state ≡ state_go
    → section_callback buffer1 buffer2 f ≡ record f {
      timer = none;
      buffer = deliver_parts buffer1 buffer2 f.buffer;
      state = if bit_and f.sec.flags dmx_oneshot == 0 then state_go else state_done;
    }
unfolding section_callback
running_callback buffer1 buffer2 f fine going =
    let clear : is_zero f.buffer.error ≡ true = rw fine refl in rw (clear, going) refl

-- The callback of a section filter that is running, without an error noted and with a well-formed
-- buffer: where both parts of the section leave a byte free they come behind what waits, in order; where
-- they do not, the buffer is emptied and -EOVERFLOW is noted. The buffer stays well formed, the timer is
-- stopped, and a filter for one section is done.
pub section_callback_refines :
    (buffer1 buffer2 : List ℕ) (f : DmxdevFilter) {mem : List ℕ}
    → IsValid f.buffer mem
    → f.buffer.error ≡ pos 0
    → f.state ≡ state_go
    → let f' = section_callback buffer1 buffer2 f in
      Delivered f.buffer f'.buffer mem (buffer1 ++ buffer2)
      × (f'.timer ≡ none)
      × (f'.state ≡ (if bit_and f.sec.flags dmx_oneshot == 0 then state_go else state_done))
section_callback_refines buffer1 buffer2 f {mem} v fine going =
    rw (running_callback buffer1 buffer2 f fine going)
      (deliver_parts_lem buffer1 buffer2 v, refl, refl)
