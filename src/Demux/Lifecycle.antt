-- ===== src/Demux/Lifecycle.antt =====
-- The calls on feeds and filters as one type of operations.
use tuxbox_git_driver.Common.{ℕ, ◌≡◌, List, ◌∷◌, Bool, true, false, some, arith, get_elem?}
use tuxbox_git_driver.Demux.Types.{DemuxFilter, DemuxFeed, Demux}
use tuxbox_git_driver.Demux.Calls.{Call, hangs, Driver, down_interruptible, feed_find}
use tuxbox_git_driver.Demux.TsFeed.{
  TsParams, allocate_ts_feed, ts_feed_set, ts_feed_start_filtering, ts_feed_stop_filtering,
  release_ts_feed,
}
use tuxbox_git_driver.Demux.SecFeed.{
  allocate_section_feed, allocate_filter, section_feed_set, section_feed_start_filtering,
  section_feed_stop_filtering, release_filter, release_section_feed,
}

-- The calls of the clients of a demultiplexer.
pub data Op : Type 0 where
  allocate_ts allocate_sec : Op
  set_ts : ℕ → TsParams → Op
  set_sec : ℕ → ℕ → ℕ → Bool → Bool → Op
  start_ts stop_ts release_ts start_sec stop_sec release_sec add_filter : ℕ → Op
  remove_filter : ℕ → ℕ → Op

pub perform : Driver → Bool → Op → Demux → Call
perform driver signal allocate_ts d = allocate_ts_feed signal d
perform driver signal allocate_sec d = allocate_section_feed signal d
perform driver signal (set_ts i q) d = ts_feed_set signal i q d
perform driver signal (set_sec i pid size descramble check_crc) d =
    section_feed_set signal i pid size descramble check_crc d
perform driver signal (start_ts i) d = ts_feed_start_filtering driver signal i d
perform driver signal (stop_ts i) d = ts_feed_stop_filtering driver signal i d
perform driver signal (release_ts i) d = release_ts_feed signal i d
perform driver signal (start_sec i) d = section_feed_start_filtering driver signal i d
perform driver signal (stop_sec i) d = section_feed_stop_filtering driver signal i d
perform driver signal (release_sec i) d = release_section_feed signal i d
perform driver signal (add_filter i) d = allocate_filter signal i d
perform driver signal (remove_filter i j) d = release_filter driver signal i j d

-- A feed and a filter of the arrays.
abbrev pub KnownFeed : Demux → ℕ → Type 0
KnownFeed d i = (feed : DemuxFeed) × (get_elem? d.feed i ≡ some feed)

abbrev pub KnownFilter : Demux → ℕ → Type 0
KnownFilter d j = (filter : DemuxFilter) × (get_elem? d.filter j ≡ some filter)

-- What a call needs of its arguments. It is about a feed of the arrays. A feed of packets that is
-- released has its filter. A filter that is released is a filter of its feed, which is not filtering.
abbrev pub Allowed : Op → Demux → Type 0
Allowed allocate_ts d = Unit {0}
Allowed allocate_sec d = Unit {0}
Allowed (set_ts i q) d = KnownFeed d i
Allowed (set_sec i pid size descramble check_crc) d = KnownFeed d i
Allowed (start_ts i) d = KnownFeed d i
Allowed (stop_ts i) d = KnownFeed d i
Allowed (release_ts i) d =
    (known : KnownFeed d i) × (j : ℕ) × (more : List ℕ) × (known.0.filter ≡ j ∷ more)
    × KnownFilter d j
Allowed (start_sec i) d = KnownFeed d i
Allowed (stop_sec i) d = KnownFeed d i
Allowed (release_sec i) d = KnownFeed d i
Allowed (add_filter i) d = KnownFeed d i
Allowed (remove_filter i j) d =
    (known : KnownFeed d i) × KnownFilter d j
    × (feed_find j known.0.filter ≡ true)
    × (known.0.is_filtering ≡ false)

module _ (driver : Driver) where
  -- dmx_section_feed_release_filter, on a filter of a feed that is filtering, with the semaphore
  -- free and no signal for the task, waits for the semaphore that it holds.
  pub release_filter_hangs :
      (i j : ℕ) (d : Demux) (feed : DemuxFeed) (filter : DemuxFilter)
      → d.mutex ≡ 1
      → get_elem? d.feed i ≡ some feed
      → get_elem? d.filter j ≡ some filter
      → filter.feed ≡ i
      → feed.is_filtering ≡ true
      → release_filter driver false i j d ≡ hangs (record d { mutex = 0 })
  unfolding release_filter section_feed_stop_filtering down_interruptible
  release_filter_hangs i j d feed filter m ef ej own on = ground arith
