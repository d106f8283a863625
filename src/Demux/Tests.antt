-- ===== src/Demux/Tests.antt =====
-- The theorems on sections and on the calls at concrete feeds.
use tuxbox_git_driver.Common.{
  ℕ, ◌≡◌, ◌⊎◌, ◌↔◌, inr, refl, List, [], ◌∷◌, ◌++◌, true, false, arith, none, some, replicate,
  length-replicate, get_elem?,
}
use tuxbox_git_driver.Common.Int.{pos}
use tuxbox_git_driver.Kernel.{ebusy}
use tuxbox_git_driver.Demux.Types.{
  DemuxFilter, SectionFeed, DemuxFeed, Demux, Client, sec, free, ready, go,
}
use tuxbox_git_driver.Demux.Packet.{payload, section_length}
use tuxbox_git_driver.Demux.Filter.{passes, prepare_filter, match_loop, prepare_loop}
use tuxbox_git_driver.Demux.Filter.Matches.{Matches, passes-Matches}
use tuxbox_git_driver.Demux.Section.{Chain, section_feed, start_sections, crc_start, failed}
use tuxbox_git_driver.Demux.Section.Start.{start_sections-fuel}
use tuxbox_git_driver.Demux.Section.Hits.{Quiet, section_feed_every}
use tuxbox_git_driver.Demux.Reassembly.{
  Complete, Receiving, Carries, run_packets, run_packets-Complete,
}
use tuxbox_git_driver.Demux.Reassembly.Start.{AtRest, Starts, run_packets-started}
use tuxbox_git_driver.Demux.Calls.{
  done, hangs, Driver, put_feed, is_free, feed_find, feed_del, unlink, down_interruptible,
}
use tuxbox_git_driver.Demux.SecFeed.{
  allocate_section_feed, release_section_feed, release_filter, fresh_sec,
}
use tuxbox_git_driver.Demux.Lifecycle.{release_filter_hangs}
use tuxbox_git_driver.Demux.Ownership.{AllTaken, allocate_section_feed_lem, release_unlisted}

-- Clients that take what they are given; the checksum of every section is the sum given here.
abbrev client : ℕ → Client
client sum = record {
  cb_sec = λ log i bytes. (pos 0, true);
  crc32_be = λ seed bytes. sum;
  has_decoder = false;
}

client-Quiet : (sum : ℕ) → Quiet (client sum)
client-Quiet sum log i bytes = (refl, refl)

-- Sections with 0x42 as first byte and without 5 in the fourth.
abbrev filter : DemuxFilter
filter = record {
  filter_value = 0x42 ∷ 0 ∷ 0 ∷ 5 ∷ replicate 14 0;
  filter_mask = 0xff ∷ 0 ∷ 0 ∷ 0xff ∷ replicate 14 0;
  filter_mode = 0xff ∷ 0xff ∷ 0xff ∷ 0 ∷ replicate 14 0xff;
  maskandmode = [];
  maskandnotmode = [];
  doneq = false;
  feed = 0;
  state = ready;
  type = sec;
}

-- A section of ten bytes with a checksum.
abbrev section : List ℕ
section = 0x42 ∷ 0xb0 ∷ 7 ∷ 6 ∷ 1 ∷ 2 ∷ 3 ∷ 4 ∷ 5 ∷ 6 ∷ []

-- The first k bytes of it in a buffer of 4096.
abbrev part : ℕ → SectionFeed
part k = record {
  is_filtering = true;
  check_crc = true;
  crc_val = 0;
  secbuf = section ++ replicate 4086 0;
  secbufp = k;
  seclen = 10;
}

abbrev feed : ℕ → DemuxFeed
feed k = record {
  section = part k;
  type = sec;
  state = go;
  pid = 0x100;
  buffer_size = 0;
  descramble = false;
  timeout = 0;
  filter = 0 ∷ [];
  cb_length = 0;
  ts_type = 0;
  pes_type = 0;
  cc = 4;
  peslen = 0;
}

abbrev chain : Chain
chain = (0, prepare_filter filter) ∷ []

abbrev demux : Demux
demux = record {
  filter = filter ∷ [];
  feed = feed 0 ∷ record (feed 0) { state = free } ∷ [];
  feed_list = 0 ∷ [];
  pesfilter = [];
  pids = [];
  users = 1;
  frontend = none;
  frontend_list = [];
  mutex = 1;
}

abbrev driver : Driver
driver = record { start_feed = some λ d i. pos 0; stop_feed = some λ d i. pos 0 }

passes_section : passes (prepare_filter filter) section ≡ true
unfolding passes prepare_filter match_loop prepare_loop
passes_section = refl

passes-Matches_example : (passes (prepare_filter filter) section ≡ true) ↔ Matches filter section
passes-Matches_example = passes-Matches filter section

-- With the wrong checksum.
section_feed_every_example :
    let (ret, sec', log') = section_feed (client 1) chain (part 10) [] in
    (ret ≡ failed)
    × (log' ≡ [])
    × (sec'.secbufp ≡ 10)
    × (sec'.seclen ≡ 10)
    × (sec'.secbuf ≡ (part 10).secbuf)
section_feed_every_example =
    section_feed_every (client 1) (client-Quiet 1) (0, prepare_filter filter) [] (part 10) []

-- A packet in which a section of 300 bytes starts, behind its pointer field.
abbrev start_packet : List ℕ
start_packet = 0x47 ∷ 0x41 ∷ 0 ∷ 0x10 ∷ 0 ∷ 0x42 ∷ 0xb1 ∷ 41 ∷ replicate 180 9

start_sections-fuel_example :
    start_sections (client 0) 188 chain start_packet 5 183 (part 0) []
    ≡ start_sections (client 0) 1000 chain start_packet 5 183 (part 0) []
start_sections-fuel_example =
    start_sections-fuel (client 0) 188 1000 chain start_packet 5 183 (part 0) [] (omega arith)
      (omega arith) (inr refl)

-- Packets with three and with four bytes of payload, behind an adaptation field.
abbrev second : List ℕ
second = 0x47 ∷ 1 ∷ 0 ∷ 0x35 ∷ 180 ∷ (replicate 180 0 ++ 6 ∷ 1 ∷ 2 ∷ [])

abbrev third : List ℕ
third = 0x47 ∷ 1 ∷ 0 ∷ 0x36 ∷ 179 ∷ (replicate 179 0 ++ 3 ∷ 4 ∷ 5 ∷ 6 ∷ [])

feed-Receiving : Receiving (feed 3) section 3 4
feed-Receiving = record {
  is_sec = refl;
  on = refl;
  cc_is = refl;
  part = record {
    room = omega (arith, length-replicate {A = ℕ} 4086 0);
    fits = omega arith;
    header = omega arith;
    more = omega arith;
    seclen_is = refl;
    secbufp_is = refl;
    bytes = refl;
  };
}

packets-Carries : Carries (second ∷ third ∷ []) section 3 4
unfolding payload
packets-Carries = (
  (refl, refl, omega arith, refl),
  omega arith,
  refl,
  ((refl, refl, omega arith, refl), omega arith, refl),
)

run_packets-Complete_example :
    (whole : SectionFeed) × Complete whole section
    × (whole.is_filtering ≡ true)
    × (whole.check_crc ≡ true)
    × (whole.crc_val ≡ 0)
    × ((run_packets (client 0) 0 chain (feed 3) (second ∷ third ∷ []) []).1
        ≡ (section_feed (client 0) chain whole []).2)
    × ((run_packets (client 0) 0 chain (feed 3) (second ∷ third ∷ []) []).0.section
        ≡ (section_feed (client 0) chain whole []).1)
run_packets-Complete_example =
    run_packets-Complete (client 0) 0 chain (feed 3) (second ∷ third ∷ []) section 3 4 []
      feed-Receiving packets-Carries

-- A packet with the last two bytes of a section that was missed, and the first three of the section.
abbrev first : List ℕ
first = 0x47 ∷ 0x41 ∷ 0 ∷ 0x34 ∷ 177 ∷ (replicate 177 0 ++ 2 ∷ 9 ∷ 9 ∷ 0x42 ∷ 0xb0 ∷ 7 ∷ [])

abbrev resting : DemuxFeed
resting = record (feed 0) { section = record (part 0) { seclen = 0 } }

resting-AtRest : AtRest resting
resting-AtRest = record {
  is_sec = refl;
  on = refl;
  room = omega (arith, length-replicate {A = ℕ} 4086 0);
  nothing = refl;
  no_length = refl;
}

first-Starts : Starts first section 3
unfolding payload section_length
first-Starts = record {
  size = refl;
  indicator = refl;
  up_to_end = refl;
  header = omega arith;
  more = omega arith;
  length_is = refl;
  fits = omega arith;
  bytes = refl;
}

packets-Carries_first : Carries (second ∷ third ∷ []) section 3 0x34
unfolding payload
packets-Carries_first = (
  (refl, refl, omega arith, refl),
  omega arith,
  refl,
  ((refl, refl, omega arith, refl), omega arith, refl),
)

run_packets-started_example :
    (whole : SectionFeed) × Complete whole section
    × (whole.is_filtering ≡ true)
    × (whole.check_crc ≡ true)
    × (whole.crc_val ≡ crc_start)
    × ((run_packets (client 0) 0 chain resting (first ∷ second ∷ third ∷ []) []).1
        ≡ (section_feed (client 0) chain whole []).2)
    × ((run_packets (client 0) 0 chain resting (first ∷ second ∷ third ∷ []) []).0.section
        ≡ (section_feed (client 0) chain whole []).1)
run_packets-started_example =
    run_packets-started (client 0) 0 chain resting first (second ∷ third ∷ []) section 3 []
      resting-AtRest first-Starts packets-Carries_first

release_filter_hangs_example :
    release_filter driver false 0 0 demux ≡ hangs (record demux { mutex = 0 })
release_filter_hangs_example =
    release_filter_hangs driver 0 0 demux (feed 0) filter refl refl refl refl refl

allocate_section_feed_lem_example :
    ((allocate_section_feed false demux ≡ done ebusy demux) × AllTaken demux.feed)
    ⊎ ((i : ℕ) × (f : DemuxFeed) × (get_elem? demux.feed i ≡ some f)
        × (is_free f.state ≡ true)
        × (allocate_section_feed false demux ≡ done (pos 0) (put_feed demux i (fresh_sec f))))
allocate_section_feed_lem_example = allocate_section_feed_lem false demux refl

-- After the release of the feed 0.
abbrev released : Demux
released = record demux {
  feed = record (feed 0) { state = free; pid = 0xffff } ∷ record (feed 0) { state = free } ∷ [];
  feed_list = [];
}

release_section_feed_runs : release_section_feed false 0 demux ≡ done (pos 0) released
unfolding release_section_feed down_interruptible feed_del feed_find unlink
release_section_feed_runs = refl

release_unlisted_example : feed_find 0 released.feed_list ≡ false
unfolding feed_find
release_unlisted_example =
    release_unlisted false 0 demux released refl (refl, tt) (inr release_section_feed_runs)
