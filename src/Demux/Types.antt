-- ===== src/Demux/Types.antt =====
-- The structures of dvb_demux.h and demux.h that the software demultiplexer works on. A pointer to a
-- feed or a filter is its index in the arrays `feed` and `filter` of struct dvb_demux.
use tuxbox_git_driver.Common.{ℕ, List, Option, Bool}
use tuxbox_git_driver.Common.Int.{ℤ}

-- DMX_TYPE_TS and DMX_TYPE_SEC
pub data FeedType : Type 0 where
  ts sec : FeedType

-- DMX_STATE_FREE to DMX_STATE_GO, in their order
pub data State : Type 0 where
  free allocated set ready go : State

-- `struct dmx_section_filter` and `struct dvb_demux_filter` around it. The pointer `next` is in the
-- list of a feed's filters.
pub record DemuxFilter : Type 0 where
  pub filter_value : List ℕ
  pub filter_mask : List ℕ
  pub filter_mode : List ℕ
  pub maskandmode : List ℕ
  pub maskandnotmode : List ℕ
  pub doneq : Bool
  pub feed : ℕ
  pub state : State
  pub type : FeedType

-- `struct dmx_section_feed`. In the union of struct dvb_demux_feed its `is_filtering` and that of
-- struct dmx_ts_feed are the same word, which is this field for both types. The `int` secbufp is only
-- increased, by parts of packets, and set to 0 or to `seclen`; it has no bound here, since its overflow
-- is undefined.
pub record SectionFeed : Type 0 where
  pub is_filtering : Bool
  pub check_crc : Bool
  pub crc_val : ℕ
  pub secbuf : List ℕ
  pub secbufp : ℕ
  pub seclen : ℕ

-- `struct dvb_demux_feed`. `filter` is the list that its `filter` and the filters' `next` link.
pub record DemuxFeed : Type 0 where
  pub section : SectionFeed
  pub open section use *
  pub type : FeedType
  pub state : State
  pub pid : ℕ
  pub buffer_size : ℕ
  pub descramble : Bool
  pub timeout : ℕ
  pub filter : List ℕ
  pub cb_length : ℕ
  pub ts_type : ℕ
  pub pes_type : ℕ
  pub cc : ℕ
  pub peslen : ℕ

-- A call of a callback of the demultiplexer's clients, with what it is given.
pub data Delivery : Type 0 where
  -- feed->cb.ts for a feed
  to_ts : ℕ → List ℕ → Delivery
  -- feed->cb.sec for a filter
  to_sec : ℕ → List ℕ → Delivery
  -- demux->write_to_decoder for a feed
  to_decoder : ℕ → List ℕ → Delivery

-- The clients and the kernel's CRC. A section callback may depend on all that was delivered before;
-- it returns its result, and whether `is_filtering` is still set after it.
pub record Client : Type 0 where
  pub cb_sec : List Delivery → ℕ → List ℕ → ℤ × Bool
  pub crc32_be : ℕ → List ℕ → ℕ
  pub has_decoder : Bool

-- `struct dvb_demux`, and the `frontend` of the struct dmx_demux in it. The fields `tsbuf` and
-- `tsbufp` are in Demux/Stream, since only the functions there touch them. `mutex` is the count of
-- the semaphore, 1 where nobody is inside.
pub record Demux : Type 0 where
  pub filter : List DemuxFilter
  pub feed : List DemuxFeed
  pub feed_list : List ℕ
  pub pesfilter : List (Option ℕ)
  pub pids : List ℕ
  pub users : ℕ
  pub frontend : Option ℕ
  pub frontend_list : List ℕ
  pub mutex : ℕ
