-- ===== src/Demux/Calls.antt =====
-- What the calls that manage feeds share: the semaphore, the arrays, and the helpers
-- dvb_dmx_filter_alloc, dvb_dmx_feed_alloc, dvb_demux_feed_find, _add and _del.
use tuxbox_git_driver.Common.{
  ℕ, ◌+◌, ◌-◌, List, [], ◌∷◌, Bool, true, false, ◌||◌, Option, none, some, ltb, ◌==◌, if◌then◌else◌,
  get_elem?, set,
}
use tuxbox_git_driver.Common.Int.{ℤ}
use tuxbox_git_driver.Kernel.{erestartsys}
use tuxbox_git_driver.Demux.Types.{DemuxFilter, DemuxFeed, Demux, State, free, ready, go}

-- A call returns; or it waits for a semaphore that nobody will raise; or it follows a pointer that is
-- NULL or does not point into the arrays.
pub data Call : Type 0 where
  done : ℤ → Demux → Call
  hangs : Demux → Call
  faults : Demux → Call

-- The hooks of the driver below, NULL where there is none. They are given the feed and the
-- demultiplexer, and leave the structures here alone.
pub record Driver : Type 0 where
  pub start_feed : Option (Demux → ℕ → ℤ)
  pub stop_feed : Option (Demux → ℕ → ℤ)

abbrev pub after : Call → (ℤ → Demux → Call) → Call
after (done ret d) k = k ret d
after (hangs d) k = hangs d
after (faults d) k = faults d

-- `if (down_interruptible(&demux->mutex)) return -ERESTARTSYS;` and what follows it. `signal`: a signal
-- for the task ends the wait.
unfoldable pub down_interruptible : Bool → Demux → (Demux → Call) → Call
down_interruptible signal d follows =
    let rest = follows (record d { mutex = d.mutex - 1 }) in
    if ltb 0 d.mutex then rest else if signal then done erestartsys d else hangs d

-- up(&demux->mutex), which stands before each return behind a down_interruptible.
abbrev pub up : Demux → Demux
up d = record d { mutex = d.mutex + 1 }

abbrev pub with_feed : Demux → ℕ → (DemuxFeed → Call) → Call
with_feed d i k = elim (get_elem? d.feed i) [ none ↦ faults d | some f ↦ k f ]

abbrev pub with_filter : Demux → ℕ → (DemuxFilter → Call) → Call
with_filter d i k = elim (get_elem? d.filter i) [ none ↦ faults d | some f ↦ k f ]

abbrev pub put_feed : Demux → ℕ → DemuxFeed → Demux
put_feed d i f = record d { feed = set d.feed i f }

abbrev pub put_filter : Demux → ℕ → DemuxFilter → Demux
put_filter d i f = record d { filter = set d.filter i f }

abbrev pub is_free : State → Bool
is_free free = true
is_free _ = false

abbrev pub is_ready : State → Bool
is_ready ready = true
is_ready _ = false

-- `state < DMX_STATE_GO`
abbrev pub below_go : State → Bool
below_go go = false
below_go _ = true

-- The loops that look for an entry in state DMX_STATE_FREE.
unfoldable pub free_feed : List DemuxFeed → ℕ → Option ℕ
free_feed [] i = none
free_feed (f ∷ fs) i = if is_free f.state then some i else free_feed fs (i + 1)

unfoldable pub free_filter : List DemuxFilter → ℕ → Option ℕ
free_filter [] i = none
free_filter (f ∷ fs) i = if is_free f.state then some i else free_filter fs (i + 1)

unfoldable pub feed_alloc : Demux → Option ℕ
feed_alloc d = free_feed d.feed 0

unfoldable pub filter_alloc : Demux → Option ℕ
filter_alloc d = free_filter d.filter 0

-- dvb_demux_feed_find
unfoldable pub feed_find : ℕ → List ℕ → Bool
feed_find i [] = false
feed_find i (j ∷ l) = j == i || feed_find i l

unfoldable pub feed_add : ℕ → Demux → Demux
feed_add i d = if feed_find i d.feed_list then d else record d { feed_list = i ∷ d.feed_list }

-- list_del
unfoldable pub unlink : ℕ → List ℕ → List ℕ
unlink i [] = []
unlink i (j ∷ l) = if j == i then l else j ∷ unlink i l

unfoldable pub feed_del : ℕ → Demux → Demux
feed_del i d = if feed_find i d.feed_list then record d { feed_list = unlink i d.feed_list } else d
