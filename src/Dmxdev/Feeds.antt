-- ===== src/Dmxdev/Feeds.antt =====
-- dvb-core/dmxdev.c: dvb_dmxdev_feed_stop, _feed_start, _feed_restart, _filter_stop, _filter_reset,
-- _filter_timer and _filter_start. Locks are left out.
use tuxbox_git_driver.Common.{ℕ, Option, none, some, if◌then◌else◌, get_or, set}
use tuxbox_git_driver.Common.Int.{ℤ, pos}
use tuxbox_git_driver.Kernel.{einval}
use tuxbox_git_driver.Dmxdev.{DmxdevBuffer}
use tuxbox_git_driver.Dmxdev.Filters.{
  FilterType, type_none, type_sec, type_pes, state_allocated, state_set, state_go, is_set, runs,
  DmxdevFilter, DmxDemux, Dmxdev, no_filter, running_on, through,
}

abbrev pub dmx_check_crc : ℕ
dmx_check_crc = 1

abbrev pub dmx_oneshot : ℕ
dmx_oneshot = 2

abbrev pub dmx_immediate_start : ℕ
dmx_immediate_start = 4

-- TS_PACKET, TS_PAYLOAD_ONLY and TS_DECODER; DMX_PES_OTHER
abbrev pub ts_packet : ℕ
ts_packet = 1

abbrev pub ts_payload_only : ℕ
ts_payload_only = 2

abbrev pub ts_decoder : ℕ
ts_decoder = 4

abbrev pub dmx_pes_other : ℤ
dmx_pes_other = pos 20

module _ {D : Type 0} where
  abbrev pub at : Dmxdev D → ℕ → DmxdevFilter
  at dev i = get_or dev.filters i no_filter

  abbrev pub put : Dmxdev D → ℕ → DmxdevFilter → Dmxdev D
  put dev i f = record dev { filters = set dev.filters i f }

module _ {D : Type 0} (ops : DmxDemux D) where
  -- A call of an operation of the feed, its result, and the device behind it.
  abbrev pub call : (ℕ → D → ℤ × D) → Option ℕ → Dmxdev D → ℤ × Dmxdev D
  call op feed dev = let r = through feed op dev.demux in (r.0, record dev { demux = r.1 })

  unfoldable pub feed_stop : ℕ → Dmxdev D → ℤ × Dmxdev D
  feed_stop i dev =
      let f = at dev i in
      let dev' = put dev i (record f { state = state_set }) in
      elim f.ftype [
        | type_sec ↦ (
          pos 0,
          (call ops.section_stop_filtering f.feed
              (put dev i (record f { state = state_set; timer = none }))).1,
        )
        | type_pes ↦ (pos 0, (call ops.ts_stop_filtering f.feed dev').1)
        | type_none ↦ (einval, dev')
      ]

  unfoldable pub feed_start : ℕ → Dmxdev D → ℤ × Dmxdev D
  feed_start i dev =
      let f = at dev i in
      let dev' = put dev i (record f { state = state_go }) in
      elim f.ftype [
        | type_sec ↦ call ops.section_start_filtering f.feed dev'
        | type_pes ↦ call ops.ts_start_filtering f.feed dev'
        | type_none ↦ (einval, dev')
      ]

  -- dvb_dmxdev_feed_restart behind its search.
  unfoldable pub restart_on : Option (ℕ × DmxdevFilter) → ℕ → Dmxdev D → Dmxdev D
  restart_on (some (j, g)) i dev = (feed_start j dev).1
  restart_on none i dev = (call ops.release_section_feed (at dev i).feed dev).1

  unfoldable pub feed_restart : ℕ → Dmxdev D → Dmxdev D
  feed_restart i dev = restart_on (running_on (at dev i).sec.pid dev.filters) i dev

  -- The indices of the buffer at the end of dvb_dmxdev_filter_stop.
  abbrev pub rewound : DmxdevBuffer → DmxdevBuffer
  rewound b = record b { pread = 0; pwrite = 0 }

  abbrev pub rewind : ℕ → Dmxdev D → ℤ × Dmxdev D
  rewind i dev = let f = at dev i in (pos 0, put dev i (record f { buffer = rewound f.buffer }))

  abbrev pub drop_feed : ℕ → Dmxdev D → Dmxdev D
  drop_feed i dev = put dev i (record (at dev i) { feed = none })

  -- `if (dmxdevfilter->filter.sec) …`
  unfoldable pub release_own : Option ℕ → ℕ → Dmxdev D → Dmxdev D
  release_own none feed dev = dev
  release_own (some sf) feed dev = (call (λ s. ops.release_filter s sf) (some feed) dev).1

  -- The two cases of dvb_dmxdev_filter_stop with a feed.
  unfoldable pub stop_section : ℕ → ℕ → Dmxdev D → Dmxdev D
  stop_section i feed dev =
      let stopped = (feed_stop i dev).1 in
      drop_feed i (feed_restart i (release_own (at stopped i).filter feed stopped))

  unfoldable pub stop_pes : ℕ → ℕ → Dmxdev D → Dmxdev D
  stop_pes i feed dev = drop_feed i (call ops.release_ts_feed (some feed) (feed_stop i dev).1).1

  -- The switch of dvb_dmxdev_filter_stop.
  unfoldable pub stop_by : FilterType → Option ℕ → ℕ → Dmxdev D → ℤ × Dmxdev D
  stop_by type_sec none i dev = rewind i dev
  stop_by type_sec (some feed) i dev = rewind i (stop_section i feed dev)
  stop_by type_pes none i dev = rewind i dev
  stop_by type_pes (some feed) i dev = rewind i (stop_pes i feed dev)
  stop_by type_none feed i dev = (einval, dev)

  unfoldable pub filter_stop : ℕ → Dmxdev D → ℤ × Dmxdev D
  filter_stop i dev =
      let f = at dev i in if runs f.state then stop_by f.ftype f.feed i dev else (pos 0, dev)

  unfoldable pub filter_reset : ℕ → Dmxdev D → Dmxdev D
  filter_reset i dev =
      let f = at dev i in
      if is_set f.state
      then put dev i (record f { ftype = type_none; pid = 0xffff; state = state_allocated })
      else dev
