-- ===== src/Net.antt =====
-- dvb/drivers/media/dvb/dvb-core/dvb_net.c: the receiving side of the network over DVB, from a section
-- with a datagram to an Ethernet frame, and the section filter for an address. The network device of the
-- kernel is left out, with the kind of packet and the protocol that dvb_net_eth_type_trans notes for it:
-- a frame that is received is a value.
pub mod Unicast
mod Tests
use tuxbox_git_driver.Common.{
  ℕ, ◌+◌, ◌-◌, ◌*◌, ◌%◌, ◌^◌, List, [], ◌∷◌, ◌++◌, Bool, true, false, not, Option, none, some, ltb,
  leb, ◌==◌, if◌then◌else◌, length, get_or, set, drop, slice, replicate, bit_and,
}
use tuxbox_git_driver.Demux.Types.{DemuxFilter}
use tuxbox_git_driver.Demux.Filter.{mask_max}

-- The counters of `struct net_device_stats` that dvb_net_sec uses.
pub record NetDeviceStats : Type 0 where
  pub rx_packets : ℕ
  pub rx_bytes : ℕ
  pub rx_errors : ℕ
  pub rx_dropped : ℕ
  pub rx_length_errors : ℕ
  pub rx_crc_errors : ℕ
  pub rx_frame_errors : ℕ

abbrev pub add_to : ℕ → ℕ → ℕ
add_to counter n = (counter + n) % 2 ^ 32

-- The destination and source addresses, the type ETH_P_IP, and the payload behind the header of the
-- section and before its checksum.
unfoldable pub frame_of : List ℕ → List ℕ
frame_of pkt =
    let at = λ (i : ℕ). get_or pkt i 0 in
    at 11
    ∷ at 10
    ∷ at 9
    ∷ at 8
    ∷ at 4
    ∷ at 3
    ∷ 0
    ∷ 0
    ∷ 0
    ∷ 0
    ∷ 0
    ∷ 0
    ∷ 8
    ∷ 0
    ∷ slice pkt 12 (length pkt - 16)

-- dvb_net_sec, with whether dev_alloc_skb has memory: the frame that is given to netif_rx, and the
-- counters. The kernel's header of 14 bytes is not counted.
unfoldable pub net_sec : Bool → List ℕ → NetDeviceStats → Option (List ℕ) × NetDeviceStats
net_sec memory pkt stats =
    let flags = get_or pkt 5 0 in
    let error = record stats { rx_errors = add_to stats.rx_errors 1 } in
    let dropped = record stats { rx_dropped = add_to stats.rx_dropped 1 } in
    if ltb (length pkt) 16
    then (none, record error { rx_length_errors = add_to stats.rx_length_errors 1 })
    else if not (bit_and flags 0xfd == 0xc1)
    then (none, record error { rx_crc_errors = add_to stats.rx_crc_errors 1 })
    else if not (bit_and flags 2 == 0)
    then (none, dropped)
    else if not (get_or pkt 7 0 == 0)
    then (none, record error { rx_frame_errors = add_to stats.rx_frame_errors 1 })
    else if not memory
    then (none, dropped)
    else (
      some (frame_of pkt),
      record stats {
        rx_packets = add_to stats.rx_packets 1;
        rx_bytes = add_to stats.rx_bytes (length pkt - 16);
      },
    )

abbrev pub mask_normal : List ℕ
mask_normal = replicate 6 0xff

-- The arrays of twelve bytes that dvb_net_filter_set fills, with zeros or ones behind them.
abbrev pub spread : ℕ → List ℕ → List ℕ
spread first mac =
    let at = λ (i : ℕ). get_or mac i 0 in
    first
    ∷ 0
    ∷ 0
    ∷ at 5
    ∷ at 4
    ∷ 0
    ∷ 0
    ∷ 0
    ∷ at 3
    ∷ at 2
    ∷ at 1
    ∷ at 0
    ∷ replicate (mask_max - 12) 0

-- dvb_net_filter_set on the filter that the feed gave.
unfoldable pub filter_set : List ℕ → List ℕ → DemuxFilter → DemuxFilter
filter_set mac mac_mask f = record f {
  filter_value = spread 0x3e mac;
  filter_mask = spread 0xff mac_mask;
  filter_mode = replicate mask_max 0xff;
}
