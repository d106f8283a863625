-- ===== src/Demux/Filter.antt =====
-- The section filters: dvb_dmx_swfilter_sectionfilter, and prepare_secfilters, which computes the
-- masks that it tests with.
pub mod Matches
use tuxbox_git_driver.Common.{
  ℕ, zero, suc, ◌+◌, List, [], ◌∷◌, ◌++◌, Bool, true, false, not, ◌&&◌, Option, none, some, ltb,
  ◌==◌, if◌then◌else◌, get_or, slice, bit_and, bit_or, bit_xor,
}
use tuxbox_git_driver.Common.Int.{ℤ, pos}
use tuxbox_git_driver.Demux.Types.{DemuxFilter, SectionFeed, Client, Delivery, to_sec}

-- DVB_DEMUX_MASK_MAX
abbrev pub mask_max : ℕ
mask_max = 18

-- The loop over the bytes: `none` for its `return 0`, else the value of `neq` behind it.
unfoldable pub match_loop : ℕ → ℕ → DemuxFilter → List ℕ → ℕ → Option ℕ
match_loop zero i f secbuf neq = some neq
match_loop (suc n) i f secbuf neq =
    let xor = bit_xor (get_or f.filter_value i 0) (get_or secbuf i 0) in
    let rest =
      match_loop n (i + 1) f secbuf (bit_or neq (bit_and (get_or f.maskandnotmode i 0) xor)) in
    if ltb 0 (bit_and (get_or f.maskandmode i 0) xor) then none else rest

-- Whether the filter passes the section to its callback.
unfoldable pub passes : DemuxFilter → List ℕ → Bool
passes f secbuf = elim (match_loop mask_max 0 f secbuf 0) [
  | none ↦ false
  | some neq ↦ not (f.doneq && (neq == 0))
]

-- `feed->cb.sec(feed->feed.sec.secbuf, feed->feed.sec.seclen, …)`: result, flag, and what was
-- delivered so far.
unfoldable pub sectionfilter :
    Client → ℕ → DemuxFilter → SectionFeed → List Delivery → ℤ × SectionFeed × List Delivery
sectionfilter client index f sec log =
    let bytes = slice sec.secbuf 0 sec.seclen in
    let (ret, filtering) = client.cb_sec log index bytes in
    if passes f sec.secbuf
    then (ret, record sec { is_filtering = filtering }, log ++ to_sec index bytes ∷ [])
    else (pos 0, sec, log)

-- The inner loop of prepare_secfilters over the bytes: `mask & mode`, `mask & ~mode` and `doneq`.
unfoldable pub prepare_loop : ℕ → ℕ → DemuxFilter → List ℕ × List ℕ × ℕ
prepare_loop zero i f = ([], [], 0)
prepare_loop (suc n) i f =
    let mode = get_or f.filter_mode i 0 in
    let mask = get_or f.filter_mask i 0 in
    let (ands, nots, doneq) = prepare_loop n (i + 1) f in
    let notmode = bit_and mask (bit_xor mode 0xff) in
    (bit_and mask mode ∷ ands, notmode ∷ nots, bit_or notmode doneq)

-- The outer loop's body, for one filter of the feed.
unfoldable pub prepare_filter : DemuxFilter → DemuxFilter
prepare_filter f =
    let (ands, nots, doneq) = prepare_loop mask_max 0 f in
    record f { maskandmode = ands; maskandnotmode = nots; doneq = ltb 0 doneq }
