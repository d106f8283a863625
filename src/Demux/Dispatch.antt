-- ===== src/Demux/Dispatch.antt =====
-- To which feeds a packet goes, and what each does with it: dvb_dmx_swfilter_payload,
-- dvb_dmx_swfilter_packet_type and dvb_dmx_swfilter_packet.
use tuxbox_git_driver.Common.{
  ℕ, ◌+◌, ◌-◌, ◌%◌, ◌^◌, List, [], ◌∷◌, ◌++◌, none, some, ◌&&◌, ◌==◌, if◌then◌else◌, get_or,
  get_elem?, set, slice,
}
use tuxbox_git_driver.Common.Int.{pos, ltb_ℤ}
use tuxbox_git_driver.Demux.Types.{
  DemuxFilter, DemuxFeed, Demux, FeedType, ts, sec, Client, Delivery, to_ts, to_decoder,
}
use tuxbox_git_driver.Demux.Packet.{bit, ts_pid, payload}
use tuxbox_git_driver.Demux.Section.{Chain, section_packet}

abbrev pub packet_size : ℕ
packet_size = 188

-- The filters of a feed, as they stand in the array.
unfoldable pub chain_of : List DemuxFilter → List ℕ → Chain
chain_of filters [] = []
chain_of filters (i ∷ is) = elim (get_elem? filters i) [
  | none ↦ chain_of filters is
  | some f ↦ (i, f) ∷ chain_of filters is
]

unfoldable pub swfilter_payload : ℕ → DemuxFeed → List ℕ → List Delivery → DemuxFeed × List Delivery
swfilter_payload index feed buf log =
    let count = payload buf in
    let p = 188 - count in
    let start = if bit (get_or buf 1 0) 6 then 0xfffa else feed.peslen in
    if count == 0 then (feed, log) else (
      record feed { peslen = (start + count) % 2 ^ 16 },
      log ++ to_ts index (slice buf p count) ∷ [],
    )

module _ (client : Client) where
  -- The switch on the type of the feed.
  unfoldable pub by_type :
      FeedType → ℕ → Chain → DemuxFeed → List ℕ → List Delivery → DemuxFeed × List Delivery
  unfolding swfilter_payload
  by_type ts index chain feed buf log =
      let (feed', log') =
        if bit feed.ts_type 0
        then (if bit feed.ts_type 1
            then swfilter_payload index feed buf log
            else (feed, log ++ to_ts index buf ∷ []))
        else (feed, log) in
      let log'' =
        if bit feed.ts_type 2 && client.has_decoder
        then log' ++ to_decoder index buf ∷ []
        else log' in
      if feed.is_filtering then (feed', log'') else (feed, log)
  by_type sec index chain feed buf log =
      let (ret, feed', log') = section_packet client chain feed buf log in
      let reset = record feed' { section = record feed'.section { secbufp = 0; seclen = 0 } } in
      if feed.is_filtering
      then (if ltb_ℤ ret (pos 0) then (reset, log') else (feed', log'))
      else (feed, log)

  unfoldable pub packet_type :
      ℕ → Chain → DemuxFeed → List ℕ → List Delivery → DemuxFeed × List Delivery
  unfolding by_type
  packet_type index chain feed buf log = by_type feed.type index chain feed buf log

  -- The body of the loop of dvb_dmx_swfilter_packet, for one feed.
  unfoldable pub one_feed :
      ℕ → ℕ → Chain → DemuxFeed → List ℕ → List Delivery → DemuxFeed × List Delivery
  one_feed pid index chain feed buf log =
      let (feed', log') =
        if feed.pid == pid then packet_type index chain feed buf log else (feed, log) in
      (feed', if feed'.pid == 0x2000 then log' ++ to_ts index buf ∷ [] else log')

  unfoldable pub each_feed : ℕ → List ℕ → Demux → List ℕ → List Delivery → Demux × List Delivery
  each_feed pid [] demux buf log = (demux, log)
  each_feed pid (index ∷ rest) demux buf log = elim (get_elem? demux.feed index) [
    | none ↦ each_feed pid rest demux buf log
    | some feed ↦
        let (feed', log') = one_feed pid index (chain_of demux.filter feed.filter) feed buf log in
        each_feed pid rest (record demux { feed = set demux.feed index feed' }) buf log'
  ]

  unfoldable pub swfilter_packet : Demux × List Delivery → List ℕ → Demux × List Delivery
  swfilter_packet (demux, log) buf = each_feed (ts_pid buf) demux.feed_list demux buf log
