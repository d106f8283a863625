-- ===== src/Demux/Section/Hits.antt =====
-- What section_feed delivers when a section is complete.
use tuxbox_git_driver.Common.{
  ℕ, ◌≡◌, sym, ap, List, [], ◌∷◌, ◌++◌, true, false, if◌then◌else◌, arith, get_or, slice, memcpy,
  replicate, append_assoc, append-nil, inl, inr, Bool-cases, Bool, not, ◌&&◌, ◌||◌, ◌==◌,
}
use tuxbox_git_driver.Common.Int.{ℤ, pos, ltb_ℤ}
use tuxbox_git_driver.Demux.Types.{DemuxFilter, SectionFeed, Client, Delivery, to_sec}
use tuxbox_git_driver.Demux.Packet.{bit}
use tuxbox_git_driver.Demux.Filter.{passes, sectionfilter, mask_max}
use tuxbox_git_driver.Demux.Section.{Chain, section_feed, deliver, deliver_all, crc32, failed}

-- The calls of the callbacks of those filters that pass the section, in the order of the chain.
pub hits : Chain → List ℕ → List ℕ → List Delivery
hits [] secbuf bytes = []
hits ((i, f) ∷ chain) secbuf bytes =
    if passes f secbuf then to_sec i bytes ∷ hits chain secbuf bytes else hits chain secbuf bytes

-- No callback fails or stops the feed.
abbrev pub Quiet : Client → Type 0
Quiet client =
    (log : List Delivery) (i : ℕ) (bytes : List ℕ)
    → (ltb_ℤ (client.cb_sec log i bytes).0 (pos 0) ≡ false) × ((client.cb_sec log i bytes).1 ≡ true)

module _ (client : Client) (quiet : Quiet client) where
  passed :
      (i : ℕ) (f : DemuxFilter) (sec : SectionFeed) (log : List Delivery)
      → sec.is_filtering ≡ true
      → passes f sec.secbuf ≡ true
      → let bytes = slice sec.secbuf 0 sec.seclen in
        sectionfilter client i f sec log
        ≡ ((client.cb_sec log i bytes).0, sec, log ++ to_sec i bytes ∷ [])
  unfolding sectionfilter
  passed i f sec log on hit = ground (arith, quiet log i (slice sec.secbuf 0 sec.seclen))

  not_passed :
      (i : ℕ) (f : DemuxFilter) (sec : SectionFeed) (log : List Delivery)
      → passes f sec.secbuf ≡ false
      → sectionfilter client i f sec log ≡ (pos 0, sec, log)
  unfolding sectionfilter
  not_passed i f sec log miss = ground arith

  -- The loop over the filters gives the section to each filter that passes it.
  deliver_lem :
      (chain : Chain) (sec : SectionFeed) (log : List Delivery)
      → sec.is_filtering ≡ true
      → deliver client chain sec log
        ≡ (pos 0, sec, log ++ hits chain sec.secbuf (slice sec.secbuf 0 sec.seclen))
  unfolding deliver hits
  deliver_lem [] sec log on = ap (λ l. (pos 0, sec, l)) (sym (append-nil log))
  deliver_lem ((i, f) ∷ chain) sec log on =
      let bytes = slice sec.secbuf 0 sec.seclen in
      elim (Bool-cases (passes f sec.secbuf)) [
        | inl hit ↦ ground (
          arith,
          passed i f sec log on hit,
          quiet log i bytes,
          deliver_lem chain sec (log ++ to_sec i bytes ∷ []) on,
          append_assoc log (to_sec i bytes ∷ []) (hits chain sec.secbuf bytes),
        )
        | inr miss ↦ ground (arith, not_passed i f sec log miss, deliver_lem chain sec log on)
      ]

-- Whether the section in the buffer may be given to the filters: it is complete, the feed is filtering,
-- and either nothing is to be checked, or the section has no checksum, or the checksum is right.
abbrev pub is_good : Client → SectionFeed → Bool
is_good client sec =
    let sum = client.crc32_be sec.crc_val (slice sec.secbuf 0 sec.seclen) in
    (sec.secbufp == sec.seclen)
    && sec.is_filtering
    && (not sec.check_crc || not (bit (get_or sec.secbuf 1 0) 7) || (sum == 0))

-- The result where the section is not given on: 0 on a complete section of a feed that does not filter.
abbrev pub refusal : SectionFeed → ℤ
refusal sec = if (sec.secbufp == sec.seclen) && not sec.is_filtering then pos 0 else failed

-- With callbacks that neither fail nor stop the feed, on a feed with a filter, whatever its state: a
-- section is given to the filters that pass it, and the feed made ready for the next one, exactly where
-- it is complete, the feed is filtering, and the checksum is right or not asked for, which it is not
-- without the section syntax indicator either. Everything else is given to nobody and leaves the counts
-- and the buffer; it is an error, but for a complete section on a feed that does not filter.
pub section_feed_every :
    (client : Client)
    → Quiet client
    → (first : ℕ × DemuxFilter) (chain : Chain) (sec : SectionFeed) (log : List Delivery)
    → let (ret, sec', log') = section_feed client (first ∷ chain) sec log in
      let given = hits (first ∷ chain) sec.secbuf (slice sec.secbuf 0 sec.seclen) in
      (ret ≡ (if is_good client sec then pos 0 else refusal sec))
      × (log' ≡ (if is_good client sec then log ++ given else log))
      × (sec'.secbufp ≡ (if is_good client sec then 0 else sec.secbufp))
      × (sec'.seclen ≡ (if is_good client sec then 0 else sec.seclen))
      × (sec'.secbuf
          ≡ (if is_good client sec then memcpy sec.secbuf 0 (replicate mask_max 0) else sec.secbuf))
unfolding section_feed deliver_all crc32
section_feed_every client quiet first chain sec log =
    let checked = record sec {
      crc_val = client.crc32_be sec.crc_val (slice sec.secbuf 0 sec.seclen);
    } in
    elim (Bool-cases sec.is_filtering) [
      | inl on ↦ ground (
        arith,
        deliver_lem client quiet (first ∷ chain) sec log on,
        deliver_lem client quiet (first ∷ chain) checked log on,
      )
      | inr off ↦ ground arith
    ]
