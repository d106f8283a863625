-- ===== src/Demux/TsFeed.antt =====
-- The feeds of transport stream packets: dvbdmx_allocate_ts_feed, dmx_ts_feed_set, _start_filtering and
-- _stop_filtering, and dvbdmx_release_ts_feed.
use tuxbox_git_driver.Common.{
  ℕ, List, [], ◌∷◌, Bool, true, false, not, ◌||◌, Option, none, some, ltb, leb, ◌==◌, if◌then◌else◌,
  get_or, set,
}
use tuxbox_git_driver.Common.Int.{ℤ, pos, ltb_ℤ}
use tuxbox_git_driver.Kernel.{einval, ebusy, enodev, enosys}
use tuxbox_git_driver.Demux.Types.{
  DemuxFeed, Demux, FeedType, ts, sec, State, free, allocated, ready, go,
}
use tuxbox_git_driver.Demux.Packet.{bit}
use tuxbox_git_driver.Demux.Calls.{
  Call, done, hangs, faults, Driver, down_interruptible, up, with_feed, with_filter, put_feed,
  put_filter, is_free, is_ready, below_go, feed_alloc, filter_alloc, feed_add, feed_del,
}

-- DMX_TS_PES_OTHER and DMX_MAX_PID
abbrev pub pes_other : ℕ
pes_other = 20

abbrev pub max_pid : ℕ
max_pid = 0x2000

abbrev pub is_ts : FeedType → Bool
is_ts ts = true
is_ts sec = false

-- `demux->pesfilter[pes_type] && demux->pesfilter[pes_type] != feed`
abbrev pub taken : Option ℕ → ℕ → Bool
taken none i = false
taken (some j) i = not (j == i)

-- A feed that is not in use any more, as dvbdmx_allocate_ts_feed starts it. `index` is also what
-- `*ts_feed` becomes.
abbrev pub fresh_ts : DemuxFeed → DemuxFeed
fresh_ts f = record f {
  section = record f.section { is_filtering = false };
  type = ts;
  state = allocated;
  pid = 0xffff;
  peslen = 0xfffa;
}

unfoldable pub allocate_ts_feed : Bool → Demux → Call
allocate_ts_feed signal demux = down_interruptible signal demux λ d. elim (feed_alloc d) [
  | none ↦ done ebusy (up d)
  | some i ↦ with_feed d i λ feed. elim (filter_alloc d) [
    | none ↦ done ebusy (up (put_feed d i (record (fresh_ts feed) { state = free; filter = [] })))
    | some j ↦ with_filter d j λ filter. done (pos 0) (
        up (
          put_filter (put_feed d i (record (fresh_ts feed) { filter = j ∷ [] })) j
            (record filter { type = ts; feed = i; state = ready })))
  ]
]

-- The claim of the decoder's slot for the type of elementary stream.
unfoldable pub claim_decoder : ℕ → ℕ → ℕ → ℕ → Demux → ℤ × Demux
claim_decoder i pid ts_type pes_type d =
    if not (bit ts_type 2)
    then (pos 0, d)
    else if leb pes_other pes_type
    then (einval, d)
    else if taken (get_or d.pesfilter pes_type none) i
    then (einval, d)
    else (
      pos 0,
      record d { pesfilter = set d.pesfilter pes_type (some i); pids = set d.pids pes_type pid },
    )

pub record TsParams : Type 0 where
  pub pid : ℕ
  pub ts_type : ℕ
  pub pes_type : ℕ
  pub callback_length : ℕ
  pub circular_buffer_size : ℕ
  pub descramble : Bool
  pub timeout : ℕ

abbrev pub set_fields : TsParams → DemuxFeed → DemuxFeed
set_fields q f = record f {
  pid = q.pid;
  buffer_size = q.circular_buffer_size;
  descramble = q.descramble;
  timeout = q.timeout;
  cb_length = q.callback_length;
  ts_type = q.ts_type;
  pes_type = q.pes_type;
}

-- What dmx_ts_feed_set does behind down_interruptible.
unfoldable pub set_locked : ℕ → TsParams → Demux → Call
set_locked i q d =
    let (ret, claimed) = claim_decoder i q.pid q.ts_type q.pes_type d in
    let added = feed_add i claimed in
    if ltb_ℤ ret (pos 0)
    then done ret (up d)
    else with_feed added i λ feed.
      let feed' = set_fields q feed in
      if q.descramble
      then done enosys (up (put_feed added i feed'))
      else done (pos 0) (up (put_feed added i (record feed' { state = ready })))

unfoldable pub ts_feed_set : Bool → ℕ → TsParams → Demux → Call
ts_feed_set signal i q demux =
    if ltb max_pid q.pid
    then done einval demux
    else down_interruptible signal demux (set_locked i q)

-- `is_filtering = 1; state = DMX_STATE_GO`
abbrev pub started : DemuxFeed → DemuxFeed
started f = record f { section = record f.section { is_filtering = true }; state = go }

abbrev pub stopped : State → DemuxFeed → DemuxFeed
stopped state f = record f { section = record f.section { is_filtering = false }; state = state }

module _ (driver : Driver) where
  unfoldable pub ts_feed_start_filtering : Bool → ℕ → Demux → Call
  ts_feed_start_filtering signal i demux = down_interruptible signal demux λ d.
      with_feed d i λ feed.
        if not (is_ready feed.state) || not (is_ts feed.type)
        then done einval (up d)
        else elim driver.start_feed [
          | none ↦ done enodev (up d)
          | some start_feed ↦
              if ltb_ℤ (start_feed d i) (pos 0)
              then done (start_feed d i) (up d)
              else done (pos 0) (up (put_feed d i (started feed)))
        ]

  unfoldable pub ts_feed_stop_filtering : Bool → ℕ → Demux → Call
  ts_feed_stop_filtering signal i demux = down_interruptible signal demux λ d. with_feed d i λ feed.
      if below_go feed.state then done einval (up d) else elim driver.stop_feed [
        | none ↦ done enodev (up d)
        | some stop_feed ↦ done (stop_feed d i) (up (put_feed d i (stopped allocated feed)))
      ]

-- `feed->filter->state = DMX_STATE_FREE`: the first filter of the feed.
unfoldable pub free_first : List ℕ → Demux → Call
free_first [] d = faults d
free_first (j ∷ _) d =
    with_filter d j λ filter. done (pos 0) (put_filter d j (record filter { state = free }))

unfoldable pub release_ts_feed : Bool → ℕ → Demux → Call
release_ts_feed signal i demux = down_interruptible signal demux λ d. with_feed d i λ feed.
    let unclaimed = λ (d' : Demux).
      if bit feed.ts_type 2
      then record d' { pesfilter = set d'.pesfilter feed.pes_type none }
      else d' in
    if is_free feed.state then done einval (up d) else elim (free_first feed.filter d) [
      | done ret d' ↦
          done (pos 0) (
            up
              (unclaimed (feed_del i (put_feed d' i (record feed { state = free; pid = 0xffff })))))
      | hangs d' ↦ hangs d'
      | faults d' ↦ faults d'
    ]
