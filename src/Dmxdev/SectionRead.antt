-- ===== src/Dmxdev/SectionRead.antt =====
-- dvb-core/dmxdev.c: dvb_dmxdev_read_sec and dvb_demux_read.
use tuxbox_git_driver.Common.{
  ℕ, ◌+◌, ◌-◌, ◌*◌, ◌^◌, List, [], ◌++◌, Bool, not, Option, none, some, ltb, ◌==◌, if◌then◌else◌,
  length, get_or, memcpy, bit_and, bit_or,
}
use tuxbox_git_driver.Common.Int.{ℤ, pos, pos_part, neg_part, sub_ℕ, ◌+ℤ◌, ltb_ℤ}
use tuxbox_git_driver.Kernel.{UserMemory, efault, erestartsys}
use tuxbox_git_driver.Dmxdev.{DmxdevBuffer, buffer_read}
use tuxbox_git_driver.Dmxdev.Filters.{type_sec, DmxdevFilter}

-- What is written at `buf + n`.
abbrev pub beyond : ℕ → UserMemory → UserMemory
beyond n user = record {
  copy_to_user = λ k bytes. user.copy_to_user (n + k) bytes;
  copy_from_user = λ k bytes. user.copy_from_user (n + k) bytes;
  copied = λ k bytes e. user.copied (n + k) bytes e;
}

-- What dvb_dmxdev_read_sec makes of its second read.
unfoldable pub body_done :
    ℕ
    → List ℕ
    → DmxdevFilter
    → Option (ℤ × List ℕ × DmxdevBuffer)
    → Option (ℤ × List ℕ × DmxdevFilter)
body_done todo out f none = none
body_done todo out f (some (result, bytes, b)) =
    if ltb_ℤ result (pos 0)
    then some (result, out ++ bytes, record f { buffer = b })
    else some (
      result +ℤ pos (length out),
      out ++ bytes,
      record f { buffer = b; todo = sub_ℕ todo (pos_part result) },
    )

module _ (user : UserMemory) (wait : DmxdevBuffer → Option DmxdevBuffer) (non_blocking : Bool) where
  -- dvb_dmxdev_read_sec behind the header, of which `out` has been copied, with `todo` bytes to come: the
  -- result, all that has been copied, and the filter.
  unfoldable pub read_body : ℕ → ℕ → List ℕ → DmxdevFilter → Option (ℤ × List ℕ × DmxdevFilter)
  read_body todo count out f =
      let n = if ltb todo count then todo else count in
      body_done todo out f (buffer_read (beyond (length out) user) wait non_blocking n f.buffer)

  -- The part under `dfil->todo<=0`, with the result of its read; `k` is -todo.
  unfoldable pub read_header :
      ℕ → ℕ → ℤ → List ℕ → DmxdevFilter → Option (ℤ × List ℕ × DmxdevFilter)
  read_header count k result out f =
      let n = pos_part result in
      let from_user = user.copy_from_user 0 out in
      let header = memcpy f.secheader k from_user.0 in
      let len = bit_and (bit_or (get_or header 1 0 * 2 ^ 8) (get_or header 2 0)) 0xfff in
      if ltb_ℤ result (pos 0)
      then some (result, out, record f { todo = pos 0 })
      else if not (from_user.1 == 0)
      then some (efault, out, record f { secheader = header })
      else if ltb (k + n) 3
      then some (pos n, out, record f { secheader = header; todo = sub_ℕ 0 (k + n) })
      else if count - n == 0
      then some (pos n, out, record f { secheader = header; todo = pos len })
      else read_body len (count - n) out (record f { secheader = header; todo = pos len })

  unfoldable pub header_done :
      ℕ → ℕ → DmxdevFilter → Option (ℤ × List ℕ × DmxdevBuffer) → Option (ℤ × List ℕ × DmxdevFilter)
  header_done count k f none = none
  header_done count k f (some (result, out, b)) =
      read_header count k result out (record f { buffer = b })

  unfoldable pub read_sec : ℕ → DmxdevFilter → Option (ℤ × List ℕ × DmxdevFilter)
  read_sec count f =
      let k = neg_part f.todo in
      let hcount = if ltb count (3 - k) then count else 3 - k in
      if ltb_ℤ (pos 0) f.todo
      then read_body (pos_part f.todo) count [] f
      else header_done count k f (buffer_read user wait non_blocking hcount f.buffer)

  unfoldable pub demux_read : Bool → ℕ → DmxdevFilter → Option (ℤ × List ℕ × DmxdevFilter)
  demux_read got count f = if not got then some (erestartsys, [], f) else elim f.ftype [
    | type_sec ↦ read_sec count f
    | _ ↦ elim (buffer_read user wait non_blocking count f.buffer) [
      | none ↦ none
      | some (result, out, b) ↦ some (result, out, record f { buffer = b })
    ]
  ]
