-- ===== src/Dmxdev/Device.antt =====
-- dvb-core/dmxdev.c: the callbacks of the feeds and the timer, and the calls on the file of a filter.
-- Locks and wake-ups are left out; whether a semaphore is got is an argument.
use tuxbox_git_driver.Common.{
  ℕ, suc, List, [], ◌∷◌, Bool, false, not, ◌&&◌, ◌||◌, Option, none, some, ◌==◌, if◌then◌else◌,
  length, map, bit_and, bit_xor,
}
use tuxbox_git_driver.Common.Int.{ℤ, pos, ltb_ℤ, eqb_ℤ}
use tuxbox_git_driver.Kernel.{einval, eoverflow, etimedout, erestartsys, emfile}
use tuxbox_git_driver.Dmxdev.{DmxdevBuffer, buffer_init, buffer_write, set_buffer_size, is_zero}
use tuxbox_git_driver.Dmxdev.Filters.{
  type_none, type_sec, type_pes, state_free, state_allocated, state_set, state_go, state_done,
  state_timedout, is_set, runs, out_decoder, out_tap, out_ts_tap, out_other, DmxdevFilter,
  SctFilterParams, PesFilterParams, DmxDemux, Dmxdev,
}
use tuxbox_git_driver.Dmxdev.Feeds.{
  at, put, dmx_oneshot, dmx_immediate_start, dmx_pes_other, filter_stop, filter_reset,
}
use tuxbox_git_driver.Dmxdev.Start.{filter_start}

-- Both parts of a delivery into the buffer; where one does not fit the buffer is emptied.
unfoldable pub deliver_parts : List ℕ → List ℕ → DmxdevBuffer → DmxdevBuffer
deliver_parts buffer1 buffer2 b =
    let first = buffer_write b buffer1 in
    let both =
      if eqb_ℤ first.0 (pos (length buffer1)) then buffer_write first.1 buffer2 else first in
    if ltb_ℤ both.0 (pos 0)
    then record both.1 { pwrite = both.1.pread; error = eoverflow }
    else both.1

unfoldable pub section_callback : List ℕ → List ℕ → DmxdevFilter → DmxdevFilter
section_callback buffer1 buffer2 f = if not (is_zero f.buffer.error) then f else elim f.state [
  | state_go ↦ record f {
    timer = none;
    buffer = deliver_parts buffer1 buffer2 f.buffer;
    state = if bit_and f.sec.flags dmx_oneshot == 0 then state_go else state_done;
  }
  | _ ↦ f
]

unfoldable pub filter_timeout : DmxdevFilter → DmxdevFilter
filter_timeout f = record f {
  buffer = record f.buffer { error = etimedout };
  state = state_timedout;
  timer = none;
}

-- The end of dvb_dmxdev_ts_callback for an output that is neither the decoder nor the filter's own
-- buffer.
unfoldable pub to_dvr : {D : Type 0} → List ℕ → List ℕ → Dmxdev D → Dmxdev D
to_dvr buffer1 buffer2 dev =
    if is_zero dev.dvr_buffer.error
    then record dev { dvr_buffer = deliver_parts buffer1 buffer2 dev.dvr_buffer }
    else dev

unfoldable pub ts_callback : {D : Type 0} → List ℕ → List ℕ → ℕ → Dmxdev D → Dmxdev D
ts_callback buffer1 buffer2 i dev =
    let f = at dev i in
    elim f.pes.output [
      | out_decoder ↦ dev
      | out_tap ↦
          if is_zero f.buffer.error
          then put dev i (record f { buffer = deliver_parts buffer1 buffer2 f.buffer })
          else dev
      | out_ts_tap ↦ to_dvr buffer1 buffer2 dev
      | out_other _ ↦ to_dvr buffer1 buffer2 dev
    ]

-- The first free filter of dvb_demux_open.
unfoldable pub find_free : List DmxdevFilter → Option ℕ
find_free [] = none
find_free (f ∷ fs) = elim f.state [
  | state_free ↦ some 0
  | _ ↦ elim (find_free fs) [ none ↦ none | some i ↦ some (suc i) ]
]

-- dvb_demux_open behind its search; the file's `private_data` is the second component.
unfoldable pub open_at : {D : Type 0} → Option ℕ → Dmxdev D → ℤ × Option ℕ × Dmxdev D
open_at none dev = (emfile, none, dev)
open_at (some i) dev =
    let opened = record (at dev i) {
      buffer = buffer_init;
      ftype = type_none;
      state = state_allocated;
      feed = none;
      timer = none;
    } in
    (pos 0, some i, put dev i opened)

-- The array of filters is there, as dvb_dmxdev_init leaves it.
unfoldable pub demux_open : {D : Type 0} → Bool → Dmxdev D → ℤ × Option ℕ × Dmxdev D
demux_open got dev = if got then open_at (find_free dev.filters) dev else (erestartsys, none, dev)

-- dvb_demux_poll: whether POLLIN, POLLRDNORM and POLLPRI are set, and whether POLLERR is.
unfoldable pub demux_poll : DmxdevFilter → Bool × Bool
demux_poll f =
    let failed = not (is_zero f.buffer.error) in
    if runs f.state
    then (failed || not (f.buffer.pread == f.buffer.pwrite), failed)
    else (false, false)

-- The commands with what stands behind `parg`. Of DMX_GET_PES_PIDS whether the demultiplexer has
-- get_pes_pids, of DMX_GET_STC what its get_stc returns, if it has one.
pub data Command : Type 0 where
  dmx_start dmx_stop : Command
  dmx_set_filter : SctFilterParams → Command
  dmx_set_pes_filter : PesFilterParams → Command
  dmx_set_buffer_size : ℕ → Command
  dmx_get_event : Command
  dmx_get_pes_pids : Bool → Command
  dmx_get_stc : Option ℤ → Command
  dmx_unknown : Command

-- What a call finds: HZ and the time, what vmalloc returns, and whether the semaphores of the device and
-- of the filter are got.
pub record Around : Type 0 where
  pub hz : ℕ
  pub jiffies : ℕ
  pub memory : Option (List ℕ)
  pub device_got : Bool
  pub filter_got : Bool

module _ {D : Type 0} (ops : DmxDemux D) (a : Around) where
  abbrev pub start : ℕ → Dmxdev D → ℤ × Dmxdev D
  start i dev = filter_start ops a.hz a.jiffies a.memory i dev

  unfoldable pub filter_set : SctFilterParams → ℕ → Dmxdev D → ℤ × Dmxdev D
  filter_set params i dev =
      let stopped = (filter_stop ops i dev).1 in
      let ready = put stopped i (record (at stopped i) {
        ftype = type_sec;
        pid = params.pid;
        sec = record params { mode = map (λ m. bit_xor m 0xff) params.mode };
        state = state_set;
      }) in
      if bit_and params.flags dmx_immediate_start == 0 then (pos 0, ready) else start i ready

  unfoldable pub pes_filter_set : PesFilterParams → ℕ → Dmxdev D → ℤ × Dmxdev D
  pes_filter_set params i dev =
      let stopped = (filter_stop ops i dev).1 in
      let ready = put stopped i (record (at stopped i) {
        ftype = type_pes;
        pid = params.pid;
        pes = params;
        state = state_set;
      }) in
      if ltb_ℤ dmx_pes_other params.pes_type || ltb_ℤ params.pes_type (pos 0)
      then (einval, stopped)
      else if bit_and params.flags dmx_immediate_start == 0
      then (pos 0, ready)
      else start i ready

  -- dvb_demux_release, which is dvb_dmxdev_filter_free.
  unfoldable pub filter_free : ℕ → Dmxdev D → ℤ × Dmxdev D
  filter_free i dev =
      let reset = filter_reset ops i (filter_stop ops i dev).1 in
      let f = at reset i in
      if a.device_got && a.filter_got
      then (
        pos 0,
        put reset i (record f { buffer = record f.buffer { mem = none }; state = state_free }),
      )
      else (erestartsys, dev)

  unfoldable pub resize : ℕ → ℕ → Dmxdev D → ℤ × Dmxdev D
  resize size i dev =
      let f = at dev i in
      let r = set_buffer_size (runs f.state) a.memory size f.buffer in
      (r.0, put dev i (record f { buffer = r.1 }))

  -- The commands behind the filter's semaphore.
  unfoldable pub with_filter : Command → ℕ → Dmxdev D → ℤ × Dmxdev D
  with_filter dmx_start i dev = if is_set (at dev i).state then start i dev else (einval, dev)
  with_filter dmx_stop i dev = filter_stop ops i dev
  with_filter (dmx_set_filter params) i dev = filter_set params i dev
  with_filter (dmx_set_pes_filter params) i dev = pes_filter_set params i dev
  with_filter (dmx_set_buffer_size size) i dev = resize size i dev
  with_filter _ i dev = (einval, dev)

  unfoldable pub demux_do_ioctl : Command → ℕ → Dmxdev D → ℤ × Dmxdev D
  demux_do_ioctl cmd i dev =
      let done : ℤ × Dmxdev D = elim cmd [
        | dmx_get_event ↦ (pos 0, dev)
        | dmx_get_pes_pids there ↦ (if there then pos 0 else einval, dev)
        | dmx_get_stc answer ↦ (elim answer [ none ↦ einval | some ret ↦ ret ], dev)
        | dmx_unknown ↦ (einval, dev)
        | other ↦ if a.filter_got then with_filter other i dev else (erestartsys, dev)
      ] in
      if a.device_got then done else (erestartsys, dev)
