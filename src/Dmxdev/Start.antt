-- ===== src/Dmxdev/Start.antt =====
-- dvb-core/dmxdev.c: dvb_dmxdev_filter_start, with dvb_dmxdev_filter_timer.
use tuxbox_git_driver.Common.{
  ℕ, List, false, not, Option, none, some, ◌==◌, if◌then◌else◌, set, bit_and, bit_or,
}
use tuxbox_git_driver.Common.Int.{ℤ, pos, ltb_ℤ}
use tuxbox_git_driver.Kernel.{einval, enomem}
use tuxbox_git_driver.Dmxdev.Filters.{
  FilterType, type_none, type_sec, type_pes, state_go, is_set, runs, out_decoder, out_tap,
  out_ts_tap, out_other, DmxdevFilter, PesFilterParams, Allocation, refused, granted, DmxDemux,
  Dmxdev, Outcome, returned, broke, running_on, fill_filter, expiry,
}
use tuxbox_git_driver.Dmxdev.Feeds.{
  at, put, call, feed_stop, feed_restart, rewound, drop_feed, filter_stop, dmx_check_crc, ts_packet,
  ts_payload_only, ts_decoder, dmx_pes_other,
}

module _ {D : Type 0} (ops : DmxDemux D) where
  -- The start of a section filter on the feed behind allocate_filter.
  unfoldable pub fill_and_start : ℕ → ℕ → ℕ → ℕ → Allocation → Dmxdev D → Outcome D
  fill_and_start hz jiffies i feed (refused e) dev =
      returned e (call ops ops.section_start_filtering (some feed) (feed_restart ops i dev)).1
  fill_and_start hz jiffies i feed (granted sf) dev =
      let f = at dev i in
      let started = call ops ops.section_start_filtering (some feed) (record dev {
        filters = set dev.filters i (record f { filter = some sf; todo = pos 0 });
        demux = ops.update_filter sf (fill_filter f.sec) dev.demux;
      }) in
      if ltb_ℤ started.0 (pos 0)
      then returned started.0 started.1
      else broke
          (put started.1 i (record (at started.1 i) { timer = expiry hz jiffies f.sec.timeout }))

  unfoldable pub start_on_feed : ℕ → ℕ → ℕ → ℕ → Dmxdev D → Outcome D
  start_on_feed hz jiffies i feed dev =
      let allocated = ops.allocate_filter feed dev.demux in
      fill_and_start hz jiffies i feed allocated.0 (record dev { demux = allocated.1 })

  -- The part under `if (!*secfeed)` behind allocate_section_feed.
  unfoldable pub set_new_feed : ℕ → ℕ → ℕ → Allocation → Dmxdev D → Outcome D
  set_new_feed hz jiffies i (refused e) dev = returned e dev
  set_new_feed hz jiffies i (granted feed) dev =
      let f = at dev i in
      let check_crc = not (bit_and f.sec.flags dmx_check_crc == 0) in
      let r =
        call ops (λ s. ops.section_set s f.sec.pid 32768 false check_crc) (some feed)
          (put dev i (record f { feed = some feed })) in
      if ltb_ℤ r.0 (pos 0)
      then returned r.0 (feed_restart ops i r.1)
      else start_on_feed hz jiffies i feed r.1

  -- The case DMXDEV_TYPE_SEC behind the search for a running filter of the PID, with that filter's feed.
  unfoldable pub start_found : ℕ → ℕ → ℕ → Option ℕ → Dmxdev D → Outcome D
  start_found hz jiffies i (some feed) dev =
      start_on_feed hz jiffies i feed
        (feed_stop ops i (put dev i (record (at dev i) { feed = some feed }))).1
  start_found hz jiffies i none dev =
      let allocated = ops.allocate_section_feed dev.demux in
      set_new_feed hz jiffies i allocated.0 (record dev { demux = allocated.1 })

  abbrev pub feed_of : Option (ℕ × DmxdevFilter) → Option ℕ
  feed_of none = none
  feed_of (some (j, g)) = g.feed

  unfoldable pub start_section : ℕ → ℕ → ℕ → Dmxdev D → Outcome D
  start_section hz jiffies i dev =
      let f = at dev i in
      let cleared = put dev i (record f { filter = none; feed = none }) in
      start_found hz jiffies i (feed_of (running_on f.sec.pid cleared.filters)) cleared

  unfoldable pub ts_type_of : PesFilterParams → ℕ
  ts_type_of para =
      let decoder = if ltb_ℤ para.pes_type dmx_pes_other then ts_decoder else 0 in
      elim para.output [
        | out_decoder ↦ decoder
        | out_tap ↦ bit_or decoder (bit_or ts_payload_only ts_packet)
        | out_ts_tap ↦ bit_or decoder ts_packet
        | out_other _ ↦ decoder
      ]

  -- The case DMXDEV_TYPE_PES behind allocate_ts_feed.
  unfoldable pub start_ts_feed : ℕ → Allocation → Dmxdev D → Outcome D
  start_ts_feed i (refused e) dev = returned e dev
  start_ts_feed i (granted feed) dev =
      let f = at dev i in
      let r =
        call ops (λ s. ops.ts_set s f.pes.pid (ts_type_of f.pes) f.pes.pes_type) (some feed)
          (put dev i (record f { feed = some feed })) in
      let started = call ops ops.ts_start_filtering (some feed) r.1 in
      if ltb_ℤ r.0 (pos 0)
      then returned r.0 (call ops ops.release_ts_feed (some feed) r.1).1
      else if ltb_ℤ started.0 (pos 0)
      then returned started.0 started.1
      else broke started.1

  unfoldable pub start_pes : ℕ → Dmxdev D → Outcome D
  start_pes i dev =
      let cleared = drop_feed ops i dev in
      let allocated = ops.allocate_ts_feed cleared.demux in
      start_ts_feed i allocated.0 (record cleared { demux = allocated.1 })

  -- The switch of dvb_dmxdev_filter_start, and what comes behind it.
  unfoldable pub start_by : ℕ → ℕ → FilterType → ℕ → Dmxdev D → Outcome D
  start_by hz jiffies type_sec i dev = start_section hz jiffies i dev
  start_by hz jiffies type_pes i dev = start_pes i dev
  start_by hz jiffies type_none i dev = returned einval dev

  unfoldable pub finish_start : ℕ → Outcome D → ℤ × Dmxdev D
  finish_start i (returned ret dev) = (ret, dev)
  finish_start i (broke dev) = (pos 0, put dev i (record (at dev i) { state = state_go }))

  -- dvb_dmxdev_filter_start with memory for the buffer, or without.
  unfoldable pub start_with : ℕ → ℕ → Option (List ℕ) → ℕ → Dmxdev D → ℤ × Dmxdev D
  start_with hz jiffies none i dev = (enomem, dev)
  start_with hz jiffies (some m) i dev =
      let f = at dev i in
      finish_start i (
        start_by hz jiffies f.ftype i
          (put dev i (record f { buffer = rewound ops (record f.buffer { mem = some m }) })))

  -- `memory` is what vmalloc returns.
  abbrev pub or_else : Option (List ℕ) → Option (List ℕ) → Option (List ℕ)
  or_else none memory = memory
  or_else (some m) memory = some m

  unfoldable pub filter_start : ℕ → ℕ → Option (List ℕ) → ℕ → Dmxdev D → ℤ × Dmxdev D
  filter_start hz jiffies memory i dev =
      let stopped = if runs (at dev i).state then (filter_stop ops i dev).1 else dev in
      if is_set (at dev i).state
      then start_with hz jiffies (or_else (at stopped i).buffer.mem memory) i stopped
      else (einval, dev)
