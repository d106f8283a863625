-- ===== src/Dmxdev/FilterTests.antt =====
-- The theorems on the filters of the demultiplexer device at a concrete device.
use tuxbox_git_driver.Common.{ℕ, ◌+◌, ◌<◌, ◌≡◌, refl, List, [], ◌∷◌, true, false, arith, none, some}
use tuxbox_git_driver.Common.Int.{pos}
use tuxbox_git_driver.Kernel.{UserMemory, eagain}
use tuxbox_git_driver.Circular
use tuxbox_git_driver.Dmxdev.{DmxdevBuffer, buffer_init}
use tuxbox_git_driver.Dmxdev.Buffer.{IsValid, contents}
use tuxbox_git_driver.Dmxdev.Filters.{
  type_sec, state_go, state_done, runs, granted, SctFilterParams, DmxdevFilter, DmxDemux, Dmxdev,
  no_filter, running_on, expiry,
}
use tuxbox_git_driver.Dmxdev.Feeds.{at, put, filter_stop}
use tuxbox_git_driver.Dmxdev.Start.{
  fill_and_start, start_on_feed, set_new_feed, start_found, start_section, start_by, finish_start,
  start_with, filter_start,
}
use tuxbox_git_driver.Dmxdev.Device.{
  section_callback, find_free, open_at, demux_open, Around, dmx_set_filter, filter_set, with_filter,
  demux_do_ioctl, filter_timeout,
}
use tuxbox_git_driver.Dmxdev.SectionRead.{read_sec}
use tuxbox_git_driver.Dmxdev.Callbacks.{Delivered, section_callback_refines}
use tuxbox_git_driver.Dmxdev.Sections.{Got, read_sec_next, read_sec_first, read_sec_header_lost}
use tuxbox_git_driver.Dmxdev.Running.{AllSound}
use tuxbox_git_driver.Dmxdev.Stopping.{filter_stop-stopped}
use tuxbox_git_driver.Dmxdev.Steps.{done, and_then, opened, commanded, expired, Steps-AllSound}

-- A demultiplexer that grants everything, and counts its calls.
abbrev granting : DmxDemux ℕ
granting = record {
  allocate_section_feed = λ d. (granted 7, d + 1);
  section_set = λ feed pid size descramble crc d. (pos 0, d + 1);
  allocate_filter = λ feed d. (granted 9, d + 1);
  update_filter = λ filter change d. d + 1;
  section_start_filtering = λ feed d. (pos 0, d + 1);
  section_stop_filtering = λ feed d. (pos 0, d + 1);
  release_filter = λ feed filter d. (pos 0, d + 1);
  release_section_feed = λ feed d. (pos 0, d + 1);
  allocate_ts_feed = λ d. (granted 8, d + 1);
  ts_set = λ feed pid kind pes_type d. (pos 0, d + 1);
  ts_start_filtering = λ feed d. (pos 0, d + 1);
  ts_stop_filtering = λ feed d. (pos 0, d + 1);
  release_ts_feed = λ feed d. (pos 0, d + 1);
}

abbrev around : Around
around = record {
  hz = 100;
  jiffies = 5;
  memory = some (0 ∷ 0 ∷ []);
  device_got = true;
  filter_got = true;
}

-- One section, at once, within two seconds.
abbrev one_section : SctFilterParams
one_section = record { pid = 17; filter = []; mask = []; mode = []; timeout = 2000; flags = 6 }

abbrev unused : Dmxdev ℕ
unused = record { filters = no_filter ∷ no_filter ∷ []; dvr_buffer = buffer_init; demux = 0 }

abbrev with_one : Dmxdev ℕ
with_one = (demux_open true unused).2

abbrev started : Dmxdev ℕ
started = (demux_do_ioctl granting around (dmx_set_filter one_section) 0 with_one).1

abbrev timed_out : Dmxdev ℕ
timed_out = put started 0 (filter_timeout (at started 0))

start_sets_timer : (at started 0).timer ≡ some 206
unfolding demux_open find_free open_at demux_do_ioctl with_filter filter_set filter_stop
    filter_start start_with finish_start start_by start_section running_on start_found set_new_feed
    start_on_feed fill_and_start expiry buffer_init
start_sets_timer = refl

Steps-AllSound_example : AllSound timed_out.filters
unfolding demux_open find_free open_at demux_do_ioctl with_filter filter_set filter_stop
    filter_start start_with finish_start start_by start_section running_on start_found set_new_feed
    start_on_feed fill_and_start expiry buffer_init
Steps-AllSound_example =
    Steps-AllSound granting (refl, (refl, tt))
      (and_then (opened true unused) (
        and_then (commanded around (dmx_set_filter one_section) 0 with_one)
          (and_then (expired 0 started refl) (done timed_out))))

filter_stop-stopped_example : runs (at (filter_stop granting 0 started).1 0).state ≡ false
unfolding demux_open find_free open_at demux_do_ioctl with_filter filter_set filter_stop
    filter_start start_with finish_start start_by start_section running_on start_found set_new_feed
    start_on_feed fill_and_start expiry buffer_init
filter_stop-stopped_example = filter_stop-stopped granting 0 started (refl, (refl, tt))

abbrev mapped : UserMemory
mapped = record {
  copy_to_user = λ at bytes. 0;
  copy_from_user = λ at bytes. (bytes, 0);
  copied = λ at bytes e. refl;
}

-- A section of five bytes behind its header, in a buffer of ten.
abbrev storage : List ℕ
storage = 112 ∷ 0 ∷ 5 ∷ 1 ∷ 2 ∷ 3 ∷ 4 ∷ 5 ∷ 0 ∷ 0 ∷ []

abbrev waiting : ℕ → ℕ → DmxdevBuffer
waiting pread pwrite = record {
  mem = some storage;
  size = 10;
  pread = pread;
  pwrite = pwrite;
  error = pos 0;
}

abbrev reading : ℕ → ℕ → ℕ → DmxdevFilter
reading todo pread pwrite = record no_filter {
  ftype = type_sec;
  state = state_go;
  sec = one_section;
  buffer = waiting pread pwrite;
  timer = some 206;
  todo = pos todo;
  secheader = 0 ∷ 0 ∷ 0 ∷ [];
}

waiting-IsValid :
    (pread pwrite : ℕ) → pread < 10 → pwrite < 10 → IsValid (waiting pread pwrite) storage
waiting-IsValid pread pwrite p q = record {
  allocated = refl;
  storage = omega arith;
  pread_in = p;
  pwrite_in = q;
}

section_callback_refines_example :
    let f' = section_callback (9 ∷ 8 ∷ []) (7 ∷ []) (reading 0 0 3) in
    Delivered (waiting 0 3) f'.buffer storage (9 ∷ 8 ∷ 7 ∷ [])
    × (f'.timer ≡ none)
    × (f'.state ≡ state_done)
section_callback_refines_example =
    section_callback_refines (9 ∷ 8 ∷ []) (7 ∷ []) (reading 0 0 3)
      (waiting-IsValid 0 3 (omega arith) (omega arith)) refl refl

read_sec_next_example :
    Got (read_sec mapped (λ b. none) true 3 (reading 5 3 8)) storage (1 ∷ 2 ∷ 3 ∷ []) (4 ∷ 5 ∷ []) 2
unfolding Circular.contents
read_sec_next_example =
    read_sec_next mapped (λ b. none) (λ k bytes. refl) 3 5 (reading 5 3 8)
      (waiting-IsValid 3 8 (omega arith) (omega arith)) refl (omega arith) (omega arith) refl

read_sec_first_example :
    Got
      (read_sec mapped (λ b. none) true 6 (reading 0 0 8))
      storage
      (112 ∷ 0 ∷ 5 ∷ 1 ∷ 2 ∷ 3 ∷ [])
      (4 ∷ 5 ∷ [])
      2
unfolding Circular.contents
read_sec_first_example =
    read_sec_first mapped (λ b. none) (λ k bytes. refl) (λ k bytes. refl) 6 112 0 5
      (1 ∷ 2 ∷ 3 ∷ 4 ∷ 5 ∷ []) (reading 0 0 8) (waiting-IsValid 0 8 (omega arith) (omega arith))
      refl refl refl refl (omega arith) (omega arith)

read_sec_header_lost_example :
    (f' : DmxdevFilter) × (read_sec mapped (λ b. none) true 6 (reading 0 0 3)
      ≡ some (eagain, 112 ∷ 0 ∷ 5 ∷ [], f'))
    × (contents f'.buffer storage ≡ [])
    × (f'.todo ≡ pos 5)
unfolding Circular.contents
read_sec_header_lost_example =
    read_sec_header_lost mapped (λ b. none) (λ k bytes. refl) (λ k bytes. refl) 6 112 0 5
      (reading 0 0 3) (waiting-IsValid 0 3 (omega arith) (omega arith)) refl refl refl refl
      (omega arith)
