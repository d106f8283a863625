-- ===== src/Dmxdev/Filters.antt =====
-- dvb-core/dmxdev.c: the filters of the demultiplexer device, how they start and stop the feeds of the
-- demultiplexer below, and its calls. A pointer to a filter is its index in the array; the pointers that
-- the demultiplexer gives out are numbers, and its operations a parameter with a state `D`. The fields
-- `params.sec` and `params.pes` of the union stand side by side, and only the one of the type is read.
use tuxbox_git_driver.Common.{
  ℕ, suc, ◌+◌, ◌*◌, ◌/◌, ◌%◌, ◌^◌, List, [], ◌∷◌, Bool, true, false, ◌&&◌, Option, none, some, ◌==◌,
  if◌then◌else◌, get_or, set, drop, memcpy,
}
use tuxbox_git_driver.Common.Int.{ℤ, pos}
use tuxbox_git_driver.Kernel.{einval}
use tuxbox_git_driver.Dmxdev.{DmxdevBuffer, buffer_init}

pub data FilterType : Type 0 where
  type_none type_sec type_pes : FilterType

pub data FilterState : Type 0 where
  state_free state_allocated state_set state_go state_done state_timedout : FilterState

-- `state >= DMXDEV_STATE_SET` and `state >= DMXDEV_STATE_GO`
abbrev pub is_set : FilterState → Bool
is_set state_free = false
is_set state_allocated = false
is_set _ = true

abbrev pub runs : FilterState → Bool
runs state_free = false
runs state_allocated = false
runs state_set = false
runs _ = true

-- DMX_OUT_DECODER, DMX_OUT_TAP, DMX_OUT_TS_TAP, and any other value, since what user space gives is not
-- checked.
pub data Output : Type 0 where
  out_decoder out_tap out_ts_tap : Output
  out_other : ℕ → Output

-- `struct dmx_sct_filter_params`, the three arrays of its filter in place.
pub record SctFilterParams : Type 0 where
  pub pid : ℕ
  pub filter : List ℕ
  pub mask : List ℕ
  pub mode : List ℕ
  pub timeout : ℕ
  pub flags : ℕ

-- The field `input` is not read.
pub record PesFilterParams : Type 0 where
  pub pid : ℕ
  pub output : Output
  pub pes_type : ℤ
  pub flags : ℕ

pub record DmxdevFilter : Type 0 where
  pub filter : Option ℕ
  pub feed : Option ℕ
  pub sec : SctFilterParams
  pub pes : PesFilterParams
  pub ftype : FilterType
  pub state : FilterState
  pub buffer : DmxdevBuffer
  pub timer : Option ℕ
  pub todo : ℤ
  pub secheader : List ℕ
  pub pid : ℕ

-- The fields of `struct dmx_section_filter` that the device fills.
pub record SectionFilter : Type 0 where
  pub filter_value : List ℕ
  pub filter_mask : List ℕ
  pub filter_mode : List ℕ

-- What an allocation gives: a negative result, or a pointer.
pub data Allocation : Type 0 where
  refused : ℤ → Allocation
  granted : ℕ → Allocation

-- The operations of `struct dmx_demux` and of its feeds. section_set has the PID, the size of the
-- buffer, descramble and check_crc; ts_set the PID, the type and the PES type.
pub record DmxDemux (D : Type 0) : Type 0 where
  pub allocate_section_feed : D → Allocation × D
  pub section_set : ℕ → ℕ → ℕ → Bool → Bool → D → ℤ × D
  pub allocate_filter : ℕ → D → Allocation × D
  pub update_filter : ℕ → (SectionFilter → SectionFilter) → D → D
  pub section_start_filtering : ℕ → D → ℤ × D
  pub section_stop_filtering : ℕ → D → ℤ × D
  pub release_filter : ℕ → ℕ → D → ℤ × D
  pub release_section_feed : ℕ → D → ℤ × D
  pub allocate_ts_feed : D → Allocation × D
  pub ts_set : ℕ → ℕ → ℕ → ℤ → D → ℤ × D
  pub ts_start_filtering : ℕ → D → ℤ × D
  pub ts_stop_filtering : ℕ → D → ℤ × D
  pub release_ts_feed : ℕ → D → ℤ × D

pub record Dmxdev (D : Type 0) : Type 0 where
  pub filters : List DmxdevFilter
  pub dvr_buffer : DmxdevBuffer
  pub demux : D

-- Behind the array; a call is made with an index in it.
abbrev pub no_filter : DmxdevFilter
no_filter = record {
  filter = none;
  feed = none;
  sec = record { pid = 0; filter = []; mask = []; mode = []; timeout = 0; flags = 0 };
  pes = record { pid = 0; output = out_decoder; pes_type = pos 0; flags = 0 };
  ftype = type_none;
  state = state_free;
  buffer = buffer_init;
  timer = none;
  todo = pos 0;
  secheader = [];
  pid = 0;
}

-- The first running section filter of a PID, with its index.
unfoldable pub running_on : ℕ → List DmxdevFilter → Option (ℕ × DmxdevFilter)
running_on pid [] = none
running_on pid (f ∷ fs) =
    if runs f.state && (f.pid == pid) && (elim f.ftype [ type_sec ↦ true | _ ↦ false ])
    then some (0, f)
    else elim (running_on pid fs) [ none ↦ none | some (i, g) ↦ some (suc i, g) ]

-- The six copies of dvb_dmxdev_filter_start into the section filter.
unfoldable pub fill_filter : SctFilterParams → SectionFilter → SectionFilter
fill_filter para sf = record {
  filter_value = set (memcpy sf.filter_value 3 (drop 1 para.filter)) 0 (get_or para.filter 0 0);
  filter_mask =
      set (set (set (memcpy sf.filter_mask 3 (drop 1 para.mask)) 0 (get_or para.mask 0 0)) 1 0) 2 0;
  filter_mode = set (memcpy sf.filter_mode 3 (drop 1 para.mode)) 0 (get_or para.mode 0 0);
}

-- The expiry of the timer that dvb_dmxdev_filter_timer sets, with HZ of the kernel.
unfoldable pub expiry : ℕ → ℕ → ℕ → Option ℕ
expiry hz jiffies timeout =
    if timeout == 0
    then none
    else some ((jiffies + 1 + (hz / 2 + hz * timeout) % 2 ^ 32 / 1000) % 2 ^ 32)

-- A call through the pointer to the feed; it is not null where these calls are made.
abbrev pub through : {D : Type 0} → Option ℕ → (ℕ → D → ℤ × D) → D → ℤ × D
through none call d = (einval, d)
through (some feed) call d = call feed d

-- A part of dvb_dmxdev_filter_start returns, or leaves the switch by `break`.
pub data Outcome (D : Type 0) : Type 0 where
  returned : ℤ → Dmxdev D → Outcome D
  broke : Dmxdev D → Outcome D
