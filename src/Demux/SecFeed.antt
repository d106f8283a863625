-- ===== src/Demux/SecFeed.antt =====
-- The feeds of sections and their filters: dvbdmx_allocate_section_feed, dmx_section_feed_set,
-- _allocate_filter, _start_filtering, _stop_filtering and _release_filter, prepare_secfilters, and
-- dvbdmx_release_section_feed.
use tuxbox_git_driver.Common.{
  ℕ, List, [], ◌∷◌, Bool, true, false, not, none, some, ltb, ◌==◌, if◌then◌else◌, get_elem?,
}
use tuxbox_git_driver.Common.Int.{pos, ltb_ℤ}
use tuxbox_git_driver.Kernel.{einval, ebusy, enodev, enosys}
use tuxbox_git_driver.Demux.Types.{DemuxFeed, Demux, sec, free, allocated, ready}
use tuxbox_git_driver.Demux.Filter.{prepare_filter}
use tuxbox_git_driver.Demux.Calls.{
  Call, done, faults, after, Driver, down_interruptible, up, with_feed, with_filter, put_feed,
  put_filter, is_free, feed_alloc, filter_alloc, feed_add, feed_del, feed_find, unlink,
}
use tuxbox_git_driver.Demux.TsFeed.{started, stopped}

abbrev pub fresh_sec : DemuxFeed → DemuxFeed
fresh_sec f = record f {
  section = record f.section { is_filtering = false; secbufp = 0 };
  type = sec;
  state = allocated;
  pid = 0xffff;
  filter = [];
}

unfoldable pub allocate_section_feed : Bool → Demux → Call
allocate_section_feed signal demux = down_interruptible signal demux λ d. elim (feed_alloc d) [
  | none ↦ done ebusy (up d)
  | some i ↦ with_feed d i λ feed. done (pos 0) (up (put_feed d i (fresh_sec feed)))
]

-- dmx_section_feed_allocate_filter: the new filter becomes the first of the feed.
unfoldable pub allocate_filter : Bool → ℕ → Demux → Call
allocate_filter signal i demux = down_interruptible signal demux λ d. elim (filter_alloc d) [
  | none ↦ done ebusy (up d)
  | some j ↦ with_filter d j λ filter. with_feed d i λ feed. done (pos 0) (
      up (
        put_feed (put_filter d j (record filter { feed = i; type = sec; state = ready })) i
          (record feed { filter = j ∷ feed.filter })))
]

-- What dmx_section_feed_set does behind down_interruptible.
unfoldable pub set_locked : ℕ → ℕ → ℕ → Bool → Bool → Demux → Call
set_locked i pid circular_buffer_size descramble check_crc d =
    let added = feed_add i d in
    with_feed added i λ feed.
      let feed' = record feed {
        pid = pid;
        buffer_size = circular_buffer_size;
        descramble = descramble;
      } in
      if descramble
      then done enosys (up (put_feed added i feed'))
      else done (pos 0) (
          up (
            put_feed added i (record feed' {
              section = record feed'.section { check_crc = check_crc };
              state = ready;
            })))

unfoldable pub section_feed_set : Bool → ℕ → ℕ → ℕ → Bool → Bool → Demux → Call
section_feed_set signal i pid circular_buffer_size descramble check_crc demux =
    if ltb 0x1fff pid
    then done einval demux
    else down_interruptible signal demux
        (set_locked i pid circular_buffer_size descramble check_crc)

-- prepare_secfilters: every filter of the feed.
unfoldable pub prepare_secfilters : List ℕ → Demux → Demux
prepare_secfilters [] d = d
prepare_secfilters (j ∷ l) d = elim (get_elem? d.filter j) [
  | none ↦ prepare_secfilters l d
  | some f ↦ prepare_secfilters l (put_filter d j (prepare_filter f))
]

abbrev pub no_filter : List ℕ → Bool
no_filter [] = true
no_filter (_ ∷ _) = false

-- `secbufp = 0; seclen = 0`
abbrev pub rewound : DemuxFeed → DemuxFeed
rewound f = record f { section = record f.section { secbufp = 0; seclen = 0 } }

module _ (driver : Driver) where
  unfoldable pub section_feed_start_filtering : Bool → ℕ → Demux → Call
  section_feed_start_filtering signal i demux = down_interruptible signal demux λ d.
      with_feed d i λ feed.
        let d₁ = put_feed d i (rewound feed) in
        let d₂ = prepare_secfilters feed.filter d₁ in
        if feed.is_filtering
        then done ebusy (up d)
        else if no_filter feed.filter
        then done einval (up d)
        else elim driver.start_feed [
          | none ↦ done enodev (up d₁)
          | some start_feed ↦
              if ltb_ℤ (start_feed d₂ i) (pos 0)
              then done (start_feed d₂ i) (up d₂)
              else done (pos 0) (up (put_feed d₂ i (started (rewound feed))))
        ]

  unfoldable pub section_feed_stop_filtering : Bool → ℕ → Demux → Call
  section_feed_stop_filtering signal i demux = down_interruptible signal demux λ d.
      with_feed d i λ feed. elim driver.stop_feed [
        | none ↦ done enodev (up d)
        | some stop_feed ↦ done (stop_feed d i) (up (put_feed d i (stopped ready feed)))
      ]

  -- The end of release_filter: the filter leaves the feed's list; the loop runs off the end of a list that does not hold it.
  unfoldable pub drop_filter : ℕ → ℕ → Demux → Call
  drop_filter i j d = with_feed d i λ feed. with_filter d j λ filter.
      if feed_find j feed.filter
      then done (pos 0) (
          up (
            put_filter (put_feed d i (record feed { filter = unlink j feed.filter })) j
              (record filter { state = free })))
      else faults d

  -- dmx_section_feed_release_filter. It stops a feed that is filtering by a call that takes the same
  -- semaphore again, whose result it ignores.
  unfoldable pub release_filter : Bool → ℕ → ℕ → Demux → Call
  release_filter signal i j demux = down_interruptible signal demux λ d. with_filter d j λ filter.
      with_feed d i λ feed.
        if not (filter.feed == i)
        then done einval (up d)
        else if feed.is_filtering
        then after (section_feed_stop_filtering signal i d) (λ _ d'. drop_filter i j d')
        else drop_filter i j d

unfoldable pub release_section_feed : Bool → ℕ → Demux → Call
release_section_feed signal i demux = down_interruptible signal demux λ d. with_feed d i λ feed.
    if is_free feed.state
    then done einval (up d)
    else done (pos 0) (up (feed_del i (put_feed d i (record feed { state = free; pid = 0xffff }))))
