-- ===== src/Demux/Section.antt =====
-- How sections are put together from transport stream packets: dvb_dmx_swfilter_section_feed and
-- dvb_dmx_swfilter_section_packet. The checksum and the copies are those that dvb_dmx_init sets where
-- the driver below gives none: dvb_dmx_crc32 and dvb_dmx_memcopy.
pub mod Start
pub mod Hits
use tuxbox_git_driver.Common.{
  ℕ, zero, suc, ◌+◌, ◌-◌, ◌%◌, ◌^◌, List, [], ◌∷◌, ◌++◌, Bool, true, false, not, ◌&&◌, ◌||◌, ltb,
  leb, ◌==◌, if◌then◌else◌, get_or, drop, slice, memcpy, replicate,
}
use tuxbox_git_driver.Common.Int.{ℤ, pos, negsuc, ltb_ℤ}
use tuxbox_git_driver.Demux.Types.{DemuxFilter, SectionFeed, DemuxFeed, Client, Delivery}
use tuxbox_git_driver.Demux.Packet.{bit, section_length, payload}
use tuxbox_git_driver.Demux.Filter.{mask_max, sectionfilter}

-- ~0 as an u32
abbrev pub crc_start : ℕ
crc_start = 2 ^ 32 - 1

-- the longest section that fits `secbuf`
abbrev pub secbuf_size : ℕ
secbuf_size = 4096

abbrev pub failed : ℤ
failed = negsuc 0

-- The filters of a feed, in the order of its list, with their indices.
abbrev pub Chain : Type 0
Chain = List (ℕ × DemuxFilter)

-- What a step of the feed returns, leaves and has delivered.
abbrev pub Outcome : Type 0 → Type 0
Outcome S = ℤ × S × List Delivery

-- demux->memcopy(feed, sec->secbuf + at, bytes, |bytes|)
abbrev pub memcopy : SectionFeed → ℕ → List ℕ → SectionFeed
memcopy sec at bytes = record sec { secbuf = memcpy sec.secbuf at bytes }

-- `crc_val = ~0`, and `seclen` from the header at `buf`, which is read only where it is whole.
unfoldable pub timed : ℕ → ℕ → SectionFeed → SectionFeed
timed count length sec =
    let fresh = record sec { crc_val = crc_start } in
    if ltb 2 count then record fresh { seclen = length } else fresh

-- `count` behind it: nothing where filling bytes follow.
unfoldable pub next_count : List ℕ → ℕ → ℕ
next_count buf p = if ltb 0 (188 - p) && (get_or buf p 0 == 0xff) then 0 else 188 - p

-- The bytes of a section that goes on in the next packet.
unfoldable pub partial_section : List ℕ → SectionFeed → ℕ → SectionFeed
partial_section bytes sec count = record (memcopy sec 0 bytes) { secbufp = sec.secbufp + count }

module _ (client : Client) where
  -- dvb_dmx_crc32
  unfoldable pub crc32 : SectionFeed → List ℕ → SectionFeed
  crc32 sec src = record sec { crc_val = client.crc32_be sec.crc_val src }

  -- The `do … while ((f = f->next) && sec->is_filtering)` of section_feed: its result is negative
  -- where it returns -1.
  unfoldable pub deliver : Chain → SectionFeed → List Delivery → Outcome SectionFeed
  deliver [] sec log = (pos 0, sec, log)
  deliver ((index, f) ∷ chain) sec log =
      let (ret, sec', log') = sectionfilter client index f sec log in
      let rest = deliver chain sec' log' in
      if ltb_ℤ ret (pos 0)
      then (failed, sec', log')
      else if sec'.is_filtering
      then rest
      else (pos 0, sec', log')

  -- The part of section_feed behind the checksum.
  unfoldable pub deliver_all : Chain → SectionFeed → List Delivery → Outcome SectionFeed
  deliver_all chain sec log =
      let (ret, sec', log') = deliver chain sec log in
      if ltb_ℤ ret (pos 0) then (failed, sec', log') else (
        pos 0,
        record sec' {
          secbufp = 0;
          seclen = 0;
          secbuf = memcpy sec'.secbuf 0 (replicate mask_max 0);
        },
        log',
      )

  unfoldable pub section_feed : Chain → SectionFeed → List Delivery → Outcome SectionFeed
  section_feed [] sec log =
      if sec.secbufp == sec.seclen then (pos 0, sec, log) else (failed, sec, log)
  section_feed (f ∷ chain) sec log =
      let section_syntax_indicator = bit (get_or sec.secbuf 1 0) 7 in
      let checked = crc32 sec (slice sec.secbuf 0 sec.seclen) in
      if not (sec.secbufp == sec.seclen)
      then (failed, sec, log)
      else if not sec.is_filtering
      then (pos 0, sec, log)
      else if sec.check_crc && section_syntax_indicator
      then (if ltb 0 checked.crc_val
          then (failed, checked, log)
          else deliver_all (f ∷ chain) checked log)
      else deliver_all (f ∷ chain) sec log

  -- A section that stands whole in the packet.
  unfoldable pub whole_section : Chain → List ℕ → SectionFeed → List Delivery → Outcome SectionFeed
  whole_section chain bytes sec log =
      section_feed chain (record (memcopy sec 0 bytes) { secbufp = sec.seclen }) log

  -- The `while (count > 0)` loop over the sections that start in the packet; `count` is 188 - p.
  unfoldable pub start_sections :
      ℕ → Chain → List ℕ → ℕ → ℕ → SectionFeed → List Delivery → Outcome SectionFeed
  start_sections zero chain buf p count sec log = (pos 0, sec, log)
  start_sections (suc fuel) chain buf p count sec log =
      let length = section_length (drop p buf) in
      let sec' = timed count length sec in
      let (_, fed, log') = whole_section chain (slice buf p length) sec' log in
      let rest =
        start_sections fuel chain buf (p + length) (next_count buf (p + length)) fed log' in
      if count == 0
      then (pos 0, sec, log)
      else if ltb 2 count && leb length count
      then (if ltb secbuf_size length then (failed, sec', log) else rest)
      else if leb count 2
      then (failed, sec', log)
      else (pos 0, partial_section (slice buf p count) sec' count, log)

  -- The end of the previous section, `more` bytes of which stand behind the pointer field at p.
  unfoldable pub finish_previous :
      Chain → List ℕ → ℕ → ℕ → SectionFeed → List Delivery → Outcome SectionFeed
  finish_previous chain buf p more sec log =
      let tmp = 3 - sec.secbufp in
      let known = memcopy sec sec.secbufp (slice buf (p + 1) tmp) in
      let sized = record known { seclen = section_length known.secbuf } in
      let partly = ltb 0 sec.secbufp && ltb sec.secbufp 3 in
      let sec' = if partly then sized else sec in
      let filled = record (memcopy sec' sec'.secbufp (slice buf (p + 1) more)) {
        secbufp = sec'.secbufp + more;
      } in
      let (_, fed, log') = section_feed chain filled log in
      if partly && leb 187 (p + tmp)
      then (failed, sec, log)
      else if partly && ltb secbuf_size sized.seclen
      then (failed, sized, log)
      else if (sec'.seclen == sec'.secbufp + more) && ltb 0 sec'.seclen
      then (pos 0, fed, log')
      else (pos 0, sec', log)

  -- A packet with the payload unit start indicator; p is where its payload starts.
  unfoldable pub unit_start :
      Chain → List ℕ → ℕ → Bool → SectionFeed → List Delivery → Outcome SectionFeed
  unit_start chain buf p ccok sec log =
      let more = get_or buf p 0 in
      let (ret, sec', log') =
        if ltb 0 more && ccok
        then finish_previous chain buf p more sec log
        else (pos 0, sec, log) in
      let p' = p + more + 1 in
      if ltb 187 (p + more)
      then (failed, sec, log)
      else if ltb_ℤ ret (pos 0)
      then (failed, sec', log')
      else start_sections 188 chain buf p' (188 - p') sec' log'

  -- The rest of a section whose length is known: all of it, or as much as the packet has.
  unfoldable pub continue_section :
      Chain → List ℕ → ℕ → ℕ → SectionFeed → List Delivery → Outcome SectionFeed
  continue_section chain buf p count sec log =
      let rest = sec.seclen - sec.secbufp in
      let filled = record (memcopy sec sec.secbufp (slice buf p rest)) {
        secbufp = sec.secbufp + rest;
      } in
      let (_, fed, log') = section_feed chain filled log in
      if ltb sec.seclen sec.secbufp
      then (failed, sec, log)
      else if leb rest count
      then (pos 0, fed, log')
      else (
        pos 0,
        record (memcopy sec sec.secbufp (slice buf p count)) { secbufp = sec.secbufp + count },
        log,
      )

  -- A packet that only continues a section.
  unfoldable pub continuation :
      Chain → List ℕ → ℕ → ℕ → Bool → SectionFeed → List Delivery → Outcome SectionFeed
  continuation chain buf p count ccok sec log =
      let tmp = 3 - sec.secbufp in
      let fresh = record sec { crc_val = crc_start } in
      let known = memcopy fresh sec.secbufp (slice buf p tmp) in
      let sized = record known { seclen = section_length known.secbuf } in
      if not ccok
      then (failed, sec, log)
      else if sec.secbufp == 0
      then (failed, sec, log)
      else if leb 3 sec.secbufp
      then continue_section chain buf p count sec log
      else if ltb count tmp
      then (failed, sec, log)
      else if ltb secbuf_size sized.seclen
      then (failed, sized, log)
      else continue_section chain buf p count sized log

  unfoldable pub section_packet : Chain → DemuxFeed → List ℕ → List Delivery → Outcome DemuxFeed
  section_packet chain feed buf log =
      let count = payload buf in
      let p = 188 - count in
      let cc = get_or buf 3 0 % 16 in
      let ccok = (feed.cc + 1) % 16 == cc in
      let (ret, sec, log') =
        if bit (get_or buf 1 0) 6
        then unit_start chain buf p ccok feed.section log
        else continuation chain buf p count ccok feed.section log in
      if count == 0
      then (failed, feed, log)
      else (ret, record feed { section = sec; cc = cc }, log')
