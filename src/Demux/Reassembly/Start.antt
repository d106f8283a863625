-- ===== src/Demux/Reassembly/Start.antt =====
-- A section from the packet in which it starts: the packet leaves the feed with its first bytes, and the
-- packets behind it bring the rest.
use tuxbox_git_driver.Common.{
  ℕ, ◌+◌, ◌-◌, ◌%◌, ◌≤◌, ◌<◌, ◌≡◌, refl, Bool, ◌==◌, ◌∙◌, List, ◌∷◌, true, arith, length, get_or,
  take, drop, slice, memcpy, length-memcpy, length-slice, take-memcpy, get_or-take,
}
use tuxbox_git_driver.Common.Int.{pos}
use tuxbox_git_driver.Demux.Types.{SectionFeed, DemuxFeed, sec, Client, Delivery}
use tuxbox_git_driver.Demux.Packet.{bit, section_length, payload, payload-le}
use tuxbox_git_driver.Demux.Section.{
  Chain, section_feed, section_packet, unit_start, finish_previous, crc_start, secbuf_size,
}
use tuxbox_git_driver.Demux.Section.Start.{start_sections_partial}
use tuxbox_git_driver.Demux.Dispatch.{packet_type, by_type}
use tuxbox_git_driver.Demux.Reassembly.{
  Receiving, Carries, Complete, run_packets, run_packets_step, run_packets-Complete,
}

-- The feed takes sections, and is between two of them, as dmx_section_feed_start_filtering and
-- dvb_dmx_swfilter_section_feed leave it.
pub record AtRest (feed : DemuxFeed) : Type 0 where
  pub is_sec : feed.type ≡ sec
  pub on : feed.is_filtering ≡ true
  pub room : length feed.section.secbuf ≡ secbuf_size
  pub nothing : feed.section.secbufp ≡ 0
  pub no_length : feed.section.seclen ≡ 0

-- Where the payload starts, which is the pointer field, and where it points to.
abbrev pub payload_at : List ℕ → ℕ
payload_at pk = 188 - payload pk

abbrev pub start_at : List ℕ → ℕ
start_at pk = payload_at pk + get_or pk (payload_at pk) 0 + 1

-- A packet with the payload unit start indicator, whose pointer field points to the first n bytes of the
-- section s, its header at least and not all of it, which end the packet.
pub record Starts (pk s : List ℕ) (n : ℕ) : Type 0 where
  pub size : length pk ≡ 188
  pub indicator : bit (get_or pk 1 0) 6 ≡ true
  pub up_to_end : start_at pk + n ≡ 188
  pub header : 3 ≤ n
  pub more : n < length s
  pub length_is : section_length s ≡ length s
  pub fits : length s ≤ secbuf_size
  pub bytes : slice pk (start_at pk) n ≡ take n s

section_length-take : (n : ℕ) (s : List ℕ) → 3 ≤ n → section_length (take n s) ≡ section_length s
unfolding section_length
section_length-take n s h =
    rw (get_or-take 0 n s 1 (omega arith), get_or-take 0 n s 2 (omega arith)) refl

module _ (client : Client) (index : ℕ) (chain : Chain) (feed : DemuxFeed) (pk s : List ℕ) (n : ℕ)
    (log : List Delivery) (rest : AtRest feed) (starts : Starts pk s n) where
  -- The section's length is read from the packet.
  length_read : section_length (drop (start_at pk) pk) ≡ length s
  length_read =
      let here = section_length-take n (drop (start_at pk) pk) starts.header in
      let there = section_length-take n s starts.header in
      cc (here, there, starts.bytes, starts.length_is)

  abbrev begun : SectionFeed
  begun = record feed.section {
    crc_val = crc_start;
    seclen = length s;
    secbufp = n;
    secbuf = memcpy feed.section.secbuf 0 (slice pk (start_at pk) n);
  }

  -- The bytes before the section end one that the feed has nothing of.
  unit_start_lem :
      (ccok : Bool)
      → unit_start client chain pk (payload_at pk) ccok feed.section log ≡ (pos 0, begun, log)
  unfolding unit_start finish_previous
  unit_start_lem ccok =
      let left : 188 - start_at pk ≡ n = omega (arith, starts.up_to_end) in
      let reached =
        start_sections_partial client 187 chain pk (start_at pk) n feed.section log
          (omega (arith, starts.header)) (omega (arith, length_read, starts.more)) in
      let counted : SectionFeed = record feed.section {
        crc_val = crc_start;
        seclen = section_length (drop (start_at pk) pk);
        secbufp = feed.section.secbufp + n;
        secbuf = memcpy feed.section.secbuf 0 (slice pk (start_at pk) n);
      } in
      let count : feed.section.secbufp + n ≡ n = omega (arith, rest.nothing) in
      let same : counted ≡ begun = rw (length_read, count) refl in
      ground
        (arith, left, reached, same, rest.nothing, rest.no_length, starts.up_to_end, starts.header)

  abbrev started_feed : DemuxFeed
  started_feed = record feed { section = begun; cc = get_or pk 3 0 % 16 }

  start_step : packet_type client index chain feed pk log ≡ (started_feed, log)
  unfolding packet_type by_type section_packet
  start_step = ground (
    arith,
    unit_start_lem ((feed.cc + 1) % 16 == get_or pk 3 0 % 16),
    rest.is_sec,
    rest.on,
    starts.indicator,
    starts.up_to_end,
    starts.header,
    payload-le pk,
  )

  started-Receiving : Receiving started_feed s n (get_or pk 3 0)
  started-Receiving =
      let part = slice pk (start_at pk) n in
      let long : length part ≡ n =
        length-slice pk (start_at pk) n (omega (arith, starts.size, starts.up_to_end)) in
      let stored =
        take-memcpy feed.section.secbuf 0 part
          (omega (arith, long, rest.room, starts.more, starts.fits)) in
      let all : 0 + length part ≡ n = omega (arith, long) in
      record {
        is_sec = rest.is_sec;
        on = rest.on;
        cc_is = omega arith;
        part = record {
          room = length-memcpy feed.section.secbuf 0 part ∙ rest.room;
          fits = starts.fits;
          header = starts.header;
          more = starts.more;
          seclen_is = refl;
          secbufp_is = refl;
          bytes = (rw all at stored) ∙ starts.bytes;
        };
      }

-- A feed for sections that is filtering and between two sections; a packet in which a section of at most
-- 4096 bytes starts, with its header but not its end, whatever the continuity counter and the bytes
-- before the section; and packets without a unit start, with payload and counters that follow, that
-- carry the rest. Then dvb_dmx_swfilter_section_feed is called once, by the last packet, with exactly the
-- bytes of the section in the buffer, their number as both counts and the checksum at its start, and what
-- the feed delivers and keeps is what that call delivers and keeps.
pub run_packets-started :
    (client : Client) (index : ℕ) (chain : Chain) (feed : DemuxFeed) (pk : List ℕ)
    (packets : List (List ℕ)) (s : List ℕ) (n : ℕ) (log : List Delivery)
    → AtRest feed
    → Starts pk s n
    → Carries packets s n (get_or pk 3 0)
    → (whole : SectionFeed) × Complete whole s
      × (whole.is_filtering ≡ true)
      × (whole.check_crc ≡ feed.check_crc)
      × (whole.crc_val ≡ crc_start)
      × ((run_packets client index chain feed (pk ∷ packets) log).1
          ≡ (section_feed client chain whole log).2)
      × ((run_packets client index chain feed (pk ∷ packets) log).0.section
          ≡ (section_feed client chain whole log).1)
run_packets-started client index chain feed pk packets s n log rest starts carried =
    let begun_feed = started_feed client index chain feed pk s n log rest starts in
    let r = started-Receiving client index chain feed pk s n log rest starts in
    let first =
      run_packets_step client index chain feed pk packets log
        (start_step client index chain feed pk s n log rest starts) in
    rw first
      (run_packets-Complete client index chain begun_feed packets s n (get_or pk 3 0) log r carried)
