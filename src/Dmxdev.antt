-- ===== src/Dmxdev.antt =====
-- dvb/drivers/media/dvb/dvb-core/dmxdev.c: the buffer between a filter and its reader,
-- dvb_dmxdev_buffer_init, _write and _read, and dvb_dmxdev_set_buffer_size. Locks and the wake-up of
-- readers are left out; what happens while a reader waits is a parameter. Sizes are below 2^31, where the
-- C types lose nothing.
pub mod Buffer
pub mod Read
pub mod Filters
pub mod Feeds
pub mod Start
pub mod Device
pub mod SectionRead
pub mod Callbacks
pub mod Sections
pub mod Running
pub mod Prepared
pub mod Starting
pub mod Stopping
pub mod Deliveries
pub mod Commands
pub mod Steps
mod Tests
mod FilterTests
use tuxbox_git_driver.Common.{
  ℕ, zero, suc, ◌+◌, ◌-◌, ◌%◌, List, [], ◌∷◌, ◌++◌, Bool, true, false, not, ◌&&◌, Option, none,
  some, ltb, leb, ◌==◌, if◌then◌else◌, length, take, drop, slice, memcpy,
}
use tuxbox_git_driver.Common.Int.{ℤ, pos, negsuc}
use tuxbox_git_driver.Kernel.{UserMemory, eagain, efault, ebusy, enomem}

-- `struct dmxdev_buffer`; `mem` is the field `data`, and `none` a null pointer.
pub record DmxdevBuffer : Type 0 where
  pub mem : Option (List ℕ)
  pub size : ℕ
  pub pread : ℕ
  pub pwrite : ℕ
  pub error : ℤ

unfoldable pub buffer_init : DmxdevBuffer
buffer_init = record { mem = none; size = 8192; pread = 0; pwrite = 0; error = pos 0 }

-- The part of dvb_dmxdev_buffer_write with a buffer at `mem`.
unfoldable pub write_at : List ℕ → DmxdevBuffer → List ℕ → ℤ × DmxdevBuffer
write_at mem b src =
    let len = length src in
    let turned = leb b.pread b.pwrite in
    let free = if turned then b.pread + b.size - b.pwrite else b.pread - b.pwrite in
    let end = if turned then b.size - b.pwrite else 0 in
    let split = if leb len end then 0 else end in
    let at = if ltb 0 split then 0 else b.pwrite in
    let first = if ltb 0 split then memcpy mem b.pwrite (take split src) else mem in
    if leb free len then (negsuc 0, b) else (
      pos len,
      record b {
        mem = some (memcpy first at (drop split src));
        pwrite = (at + (len - split)) % b.size;
      },
    )

unfoldable pub buffer_write : DmxdevBuffer → List ℕ → ℤ × DmxdevBuffer
buffer_write b [] = (pos 0, b)
buffer_write b (c ∷ src) = elim b.mem [ none ↦ (pos 0, b) | some mem ↦ write_at mem b (c ∷ src) ]

abbrev pub is_zero : ℤ → Bool
is_zero (pos zero) = true
is_zero _ = false

-- `if ((error=src->error)) …`: the buffer is emptied.
abbrev pub cleared : DmxdevBuffer → DmxdevBuffer
cleared b = record b { pwrite = b.pread; error = pos 0 }

-- A round of the loop of dvb_dmxdev_buffer_read returns, or goes on with the rest of `todo` and what
-- has been copied.
pub data Round : Type 0 where
  stop : ℤ → List ℕ → DmxdevBuffer → Round
  go_on : ℕ → List ℕ → DmxdevBuffer → Round

module _ (user : UserMemory) where
  -- `if (avail) …`
  unfoldable pub copy_rest : List ℕ → ℕ → ℕ → List ℕ → DmxdevBuffer → Round
  copy_rest mem todo avail out b =
      let bytes = slice mem b.pread avail in
      if ltb 0 avail
      then (if ltb 0 (user.copy_to_user (length out) bytes)
          then stop efault out b
          else go_on (todo - avail) (out ++ bytes)
              (record b { pread = (b.pread + avail) % b.size }))
      else go_on todo out b

  -- The copies of one round.
  unfoldable pub copy_round : List ℕ → ℕ → List ℕ → DmxdevBuffer → Round
  copy_round mem todo out b =
      let turned = ltb b.pwrite b.pread in
      let waiting = if turned then b.pwrite + b.size - b.pread else b.pwrite - b.pread in
      let split = if turned then b.size - b.pread else b.size in
      let avail = if ltb todo waiting then todo else waiting in
      let bytes = slice mem b.pread split in
      if ltb split avail
      then (if ltb 0 (user.copy_to_user (length out) bytes)
          then stop efault out b
          else copy_rest mem (todo - split) (avail - split) (out ++ bytes) (record b { pread = 0 }))
      else copy_rest mem todo avail out b

  -- The `while (todo>0)` loop. `wait` is wait_event_interruptible where the condition does not hold at
  -- once: `none` for a signal, or the buffer at the wake-up. No result: the fuel is used up, or the
  -- buffer was freed.
  module _ (wait : DmxdevBuffer → Option DmxdevBuffer) (non_blocking : Bool) (count : ℕ) where
    abbrev pub woken : DmxdevBuffer → Option DmxdevBuffer
    woken b =
        if not (b.pread == b.pwrite)
        then some b
        else if not (is_zero b.error)
        then some b
        else wait b

    unfoldable pub read_loop : ℕ → ℕ → List ℕ → DmxdevBuffer → Option (ℤ × List ℕ × DmxdevBuffer)
    read_loop zero todo out b = none
    read_loop (suc fuel) todo out b =
        if todo == 0
        then some (pos count, out, b)
        else if non_blocking && (b.pwrite == b.pread)
        then some (if ltb 0 (count - todo) then pos (count - todo) else eagain, out, b)
        else elim (woken b) [
          | none ↦ some (pos (count - todo), out, b)
          | some b' ↦
              if not (is_zero b'.error) then some (b'.error, out, cleared b') else elim b'.mem [
                | none ↦ none
                | some mem ↦ elim (copy_round mem todo out b') [
                  | stop ret out' b'' ↦ some (ret, out', b'')
                  | go_on todo' out' b'' ↦ read_loop fuel todo' out' b''
                ]
              ]
        ]

    -- dvb_dmxdev_buffer_read: the result, the bytes that reached the reader, and the buffer. With data
    -- at each wake-up a round takes a byte, so count + 1 rounds are enough.
    unfoldable pub buffer_read : DmxdevBuffer → Option (ℤ × List ℕ × DmxdevBuffer)
    buffer_read b = elim b.mem [
      | none ↦ some (pos 0, [], b)
      | some _ ↦
          if not (is_zero b.error)
          then some (b.error, [], cleared b)
          else if non_blocking && (b.pwrite == b.pread)
          then some (eagain, [], b)
          else read_loop (count + 1) count [] b
    ]

-- dvb_dmxdev_set_buffer_size; `running` says whether the filter's state is at least DMXDEV_STATE_GO,
-- `memory` is what vmalloc returns.
unfoldable pub set_buffer_size : Bool → Option (List ℕ) → ℕ → DmxdevBuffer → ℤ × DmxdevBuffer
set_buffer_size running memory size b =
    let fresh = record b { mem = none; size = size; pread = 0; pwrite = 0 } in
    if b.size == size
    then (pos 0, b)
    else if running
    then (ebusy, b)
    else if size == 0
    then (pos 0, fresh)
    else elim memory [
      | none ↦ (enomem, fresh)
      | some mem ↦ (pos 0, record fresh { mem = some mem })
    ]
