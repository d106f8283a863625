-- ===== src/Demux/Reassembly.antt =====
-- Sections that are spread over several packets, and a feed that is given these packets.
pub mod Start
use tuxbox_git_driver.Common.{
  ℕ, zero, suc, ◌+◌, ◌-◌, ◌%◌, ◌≤◌, ◌<◌, ◌≡◌, ◌≢◌, refl, sym, ◌∙◌, ap, List, [], ◌∷◌, ◌++◌, true,
  false, arith, length, get_or, take, drop, slice, memcpy, length-memcpy, length-slice, length-drop,
  take-memcpy, take-append-drop, take-nil,
}
use tuxbox_git_driver.Common.Int.{pos}
use tuxbox_git_driver.Demux.Types.{SectionFeed, DemuxFeed, sec, Client, Delivery}
use tuxbox_git_driver.Demux.Packet.{bit, payload, payload-le}
use tuxbox_git_driver.Demux.Section.{
  Chain, Outcome, section_feed, section_packet, continuation, continue_section, secbuf_size,
}
use tuxbox_git_driver.Demux.Dispatch.{packet_type, by_type}

-- The first k bytes of the section s have been received, and nothing else is counted.
pub record Partial (f : SectionFeed) (s : List ℕ) (k : ℕ) : Type 0 where
  pub room : length f.secbuf ≡ secbuf_size
  pub fits : length s ≤ secbuf_size
  pub header : 3 ≤ k
  pub more : k < length s
  pub seclen_is : f.seclen ≡ length s
  pub secbufp_is : f.secbufp ≡ k
  pub bytes : take k f.secbuf ≡ take k s

-- All of s has been received.
pub record Complete (f : SectionFeed) (s : List ℕ) : Type 0 where
  pub seclen_is : f.seclen ≡ length s
  pub secbufp_is : f.secbufp ≡ length s
  pub bytes : slice f.secbuf 0 (length s) ≡ s

-- `k + n` bytes of s are its first k and the n behind them.
take-slice : (k n : ℕ) (s : List ℕ) → take (k + n) s ≡ take k s ++ slice s k n
take-slice zero n s = ap (λ m. take m s) (omega arith)
take-slice (suc k) n [] = take-nil {A = ℕ} (suc k + n) ∙ sym (take-nil {A = ℕ} n)
take-slice (suc k) n (b ∷ s) =
    let e : suc k + n ≡ suc (k + n) = omega arith in rw e (ap (◌∷◌ b) (take-slice k n s))

module _ (client : Client) (chain : Chain) (f : SectionFeed) (s buf : List ℕ) (k p count : ℕ)
    (log : List Delivery) (part : Partial f s k) where
  -- With a header received, the packet only adds to the section.
  continuation_known :
      continuation client chain buf p count true f log
      ≡ continue_section client chain buf p count f log
  unfolding continuation
  continuation_known = ground arith

  abbrev longer : SectionFeed
  longer = record f { secbuf = memcpy f.secbuf k (slice buf p count); secbufp = k + count }

  -- A packet that does not reach the end of the section.
  continue_more :
      k + count < length s → continue_section client chain buf p count f log ≡ (pos 0, longer, log)
  unfolding continue_section
  continue_more short = ground arith

  longer-Partial :
      k + count < length s
      → p + count ≤ length buf
      → slice buf p count ≡ slice s k count
      → Partial longer s (k + count)
  longer-Partial short inside same =
      let n : length (slice buf p count) ≡ count = length-slice buf p count inside in
      let stored = take-memcpy f.secbuf k (slice buf p count) (omega arith) in
      record {
        room = omega (arith, length-memcpy f.secbuf k (slice buf p count));
        fits = part.fits;
        header = omega arith;
        more = short;
        seclen_is = part.seclen_is;
        secbufp_is = refl;
        bytes = (rw n at stored) ∙ cc (part.bytes, same, take-slice k count s);
      }

  abbrev full : SectionFeed
  full = record f { secbuf = memcpy f.secbuf k (drop k s); secbufp = length s }

  -- The packet with the end of the section.
  continue_last :
      length s ≤ k + count
      → slice buf p (length s - k) ≡ drop k s
      → let (_, fed, log') = section_feed client chain full log in
        continue_section client chain buf p count f log ≡ (pos 0, fed, log')
  unfolding continue_section
  continue_last long same = ground arith

  full-Complete : Complete full s
  full-Complete =
      let n : k + length (drop k s) ≡ length s = omega (arith, length-drop k s) in
      let stored = take-memcpy f.secbuf k (drop k s) (omega arith) in
      record {
        seclen_is = part.seclen_is;
        secbufp_is = refl;
        bytes = (rw n at stored) ∙ cc (part.bytes, take-append-drop k s);
      }

-- The packets of one PID, given to a feed one after the other.
pub run_packets :
    Client → ℕ → Chain → DemuxFeed → List (List ℕ) → List Delivery → DemuxFeed × List Delivery
run_packets client index chain feed [] log = (feed, log)
run_packets client index chain feed (pk ∷ rest) log =
    let (feed', log') = packet_type client index chain feed pk log in
    run_packets client index chain feed' rest log'

-- A packet without a unit start, with payload, whose continuity counter follows `counter`.
abbrev pub NextPacket : List ℕ → ℕ → Type 0
NextPacket pk counter =
    (length pk ≡ 188)
    × (bit (get_or pk 1 0) 6 ≡ false)
    × (payload pk ≢ 0)
    × (get_or pk 3 0 % 16 ≡ (counter + 1) % 16)

-- The packets carry the section s from byte k on, and only the last reaches its end.
abbrev pub Carries : List (List ℕ) → List ℕ → ℕ → ℕ → Type 0
Carries [] s k counter = ⊥
Carries (pk ∷ []) s k counter =
    NextPacket pk counter
    × (length s ≤ k + payload pk)
    × (slice pk (188 - payload pk) (length s - k) ≡ drop k s)
Carries (pk ∷ (next ∷ rest)) s k counter =
    NextPacket pk counter
    × (k + payload pk < length s)
    × (slice pk (188 - payload pk) (payload pk) ≡ slice s k (payload pk))
    × Carries (next ∷ rest) s (k + payload pk) ((counter + 1) % 16)

-- The feed takes sections, and has the first k bytes of s.
pub record Receiving (feed : DemuxFeed) (s : List ℕ) (k counter : ℕ) : Type 0 where
  pub is_sec : feed.type ≡ sec
  pub on : feed.is_filtering ≡ true
  pub cc_is : feed.cc % 16 ≡ counter % 16
  pub part : Partial feed.section s k

module _ (client : Client) (index : ℕ) (chain : Chain) where
  abbrev step_result : DemuxFeed → ℕ → Outcome SectionFeed → DemuxFeed × List Delivery
  step_result feed counter (ret, f, log) = (record feed { section = f; cc = counter }, log)

  -- A packet goes to `continuation`, and its result is kept.
  step_lem :
      (feed : DemuxFeed) (s pk : List ℕ) (k counter : ℕ) (f : SectionFeed)
      (log log' : List Delivery)
      → Receiving feed s k counter
      → NextPacket pk counter
      → continuation client chain pk (188 - payload pk) (payload pk) true feed.section log
        ≡ (pos 0, f, log')
      → packet_type client index chain feed pk log
        ≡ (record feed { section = f; cc = get_or pk 3 0 % 16 }, log')
  unfolding packet_type by_type section_packet
  step_lem feed s pk k counter f log log' r nextp result = ground arith

  pub run_packets_step :
      (feed : DemuxFeed) (pk : List ℕ) (rest : List (List ℕ)) (log : List Delivery)
      {feed' : DemuxFeed} {log' : List Delivery}
      → packet_type client index chain feed pk log ≡ (feed', log')
      → run_packets client index chain feed (pk ∷ rest) log
        ≡ run_packets client index chain feed' rest log'
  unfolding run_packets
  run_packets_step feed pk rest log e = ground (arith, e)

  -- A feed for sections that is filtering and has the first k bytes, at least three, of a section
  -- of at most 4096 bytes; packets without a unit start, with payload and consecutive continuity
  -- counters, that carry the rest of it: then dvb_dmx_swfilter_section_feed is called once, by the
  -- last packet, with exactly the bytes of the section in the buffer and their number as both
  -- counts, and what the feed delivers and keeps is what that call delivers and keeps.
  pub run_packets-Complete :
      (feed : DemuxFeed) (packets : List (List ℕ)) (s : List ℕ) (k counter : ℕ)
      (log : List Delivery)
      → Receiving feed s k counter
      → Carries packets s k counter
      → (whole : SectionFeed) × Complete whole s
        × (whole.is_filtering ≡ true)
        × (whole.check_crc ≡ feed.check_crc)
        × (whole.crc_val ≡ feed.crc_val)
        × ((run_packets client index chain feed packets log).1
            ≡ (section_feed client chain whole log).2)
        × ((run_packets client index chain feed packets log).0.section
            ≡ (section_feed client chain whole log).1)
  unfolding run_packets
  run_packets-Complete feed [] s k counter log r c = elim c [ ]
  run_packets-Complete feed (pk ∷ []) s k counter log r (nextp, long, same) =
      let f = feed.section in
      let p = 188 - payload pk in
      let whole = full client chain f s pk k p (payload pk) log r.part in
      let fed = section_feed client chain whole log in
      let reached =
        continuation_known client chain f s pk k p (payload pk) log r.part
        ∙ continue_last client chain f s pk k p (payload pk) log r.part long same in
      let stepped = step_lem feed s pk k counter fed.1 log fed.2 r nextp reached in
      (
        whole,
        full-Complete client chain f s pk k p (payload pk) log r.part,
        r.on,
        refl,
        refl,
        ap (λ z. z.1) stepped,
        ap (λ z. z.0.section) stepped,
      )
  run_packets-Complete feed (pk ∷ (next ∷ rest)) s k counter log r (nextp, short, same, more) =
      let f = feed.section in
      let p = 188 - payload pk in
      let more_f = longer client chain f s pk k p (payload pk) log r.part in
      let reached =
        continuation_known client chain f s pk k p (payload pk) log r.part
        ∙ continue_more client chain f s pk k p (payload pk) log r.part short in
      let stepped = step_lem feed s pk k counter more_f log log r nextp reached in
      let feed' = record feed { section = more_f; cc = get_or pk 3 0 % 16 } in
      let r' : Receiving feed' s (k + payload pk) ((counter + 1) % 16) = record {
        is_sec = r.is_sec;
        on = r.on;
        cc_is = omega arith;
        part =
            longer-Partial client chain f s pk k p (payload pk) log r.part short
              (omega (arith, payload-le pk)) same;
      } in
      rw (run_packets_step feed pk (next ∷ rest) log stepped) (
        run_packets-Complete feed' (next ∷ rest) s (k + payload pk) ((counter + 1) % 16) log r'
          more)
