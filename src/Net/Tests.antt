-- ===== src/Net/Tests.antt =====
-- The theorem on the network over DVB at a concrete section.
use tuxbox_git_driver.Common.{
  ℕ, zero, suc, ◌+◌, ◌≡◌, ◌&&◌, refl, List, [], ◌∷◌, ◌++◌, Bool, true, false, some, arith, length,
  get_or, leb,
}
use tuxbox_git_driver.Demux.Types.{DemuxFilter, ready, sec}
use tuxbox_git_driver.Demux.Filter.{passes, prepare_filter, match_loop, prepare_loop}
use tuxbox_git_driver.Net.{NetDeviceStats, mask_normal, frame_of, net_sec, filter_set}
use tuxbox_git_driver.Net.Unicast.{Bytes, net_sec_unicast}

abbrev in_bytes : List ℕ → Bool
in_bytes [] = true
in_bytes (x ∷ xs) = leb x 255 && in_bytes xs

in_bytes-Bytes : (l : List ℕ) → in_bytes l ≡ true → Bytes l
in_bytes-Bytes [] h i = omega arith
in_bytes-Bytes (x ∷ xs) h zero = ground (arith, h)
in_bytes-Bytes (x ∷ xs) h (suc i) = in_bytes-Bytes xs (ground (arith, h)) i

abbrev address : List ℕ
address = 1 ∷ 2 ∷ 3 ∷ 4 ∷ 5 ∷ 6 ∷ []

-- A section for this address with the datagram 69, 70 and a checksum.
abbrev section : List ℕ
section = 0x3e ∷ 0xb0 ∷ 15 ∷ 6 ∷ 5 ∷ 0xc1 ∷ 0 ∷ 0 ∷ 4 ∷ 3 ∷ 2 ∷ 1 ∷ 69 ∷ 70 ∷ 9 ∷ 9 ∷ 9 ∷ 9 ∷ []

abbrev no_stats : NetDeviceStats
no_stats = record {
  rx_packets = 0;
  rx_bytes = 0;
  rx_errors = 0;
  rx_dropped = 0;
  rx_length_errors = 0;
  rx_crc_errors = 0;
  rx_frame_errors = 0;
}

abbrev frame : List ℕ
frame = address ++ 0 ∷ 0 ∷ 0 ∷ 0 ∷ 0 ∷ 0 ∷ 8 ∷ 0 ∷ 69 ∷ 70 ∷ []

section_passes :
    (f : DemuxFilter) → passes (prepare_filter (filter_set address mask_normal f)) section ≡ true
unfolding passes prepare_filter match_loop prepare_loop filter_set
section_passes f = refl

section_makes_frame : (net_sec true section no_stats).0 ≡ some frame
unfolding net_sec frame_of
section_makes_frame = refl

abbrev unset : DemuxFilter
unset = record {
  filter_value = [];
  filter_mask = [];
  filter_mode = [];
  maskandmode = [];
  maskandnotmode = [];
  doneq = false;
  feed = 0;
  state = ready;
  type = sec;
}

net_sec_unicast_example :
    (get_or section 0 0 ≡ 0x3e)
    × (frame ≡ address ++ 0 ∷ 0 ∷ 0 ∷ 0 ∷ 0 ∷ 0 ∷ 8 ∷ 0 ∷ 69 ∷ 70 ∷ [])
    × (length frame + 2 ≡ length section)
net_sec_unicast_example =
    net_sec_unicast address unset section true no_stats frame (in_bytes-Bytes address refl)
      (in_bytes-Bytes section refl) refl (section_passes unset) section_makes_frame
