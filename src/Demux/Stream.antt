-- ===== src/Demux/Stream.antt =====
-- How packets are cut from the bytes that arrive: dvb_dmx_swfilter_packets, dvb_dmx_swfilter and
-- dvb_dmx_swfilter_204. The last two are the same text but for the size of a packet, the first bytes
-- that are accepted, and what is done to a packet; these are the parameters of a section here. The
-- spinlock is left out.
pub mod Chunks
pub mod Swfilter
mod Tests
use tuxbox_git_driver.Common.{
  ℕ, zero, suc, ◌+◌, ◌-◌, List, [], ◌∷◌, ◌++◌, Bool, ◌||◌, ltb, leb, ◌==◌, if◌then◌else◌, length,
  get_or, take, drop, memcpy,
}
use tuxbox_git_driver.Demux.Types.{Demux, Client, Delivery}
use tuxbox_git_driver.Demux.Dispatch.{packet_size, swfilter_packet}

-- `tsbuf` and `tsbufp` of struct dvb_demux: the start of a packet that has not all arrived.
pub record Pending : Type 0 where
  pub tsbuf : List ℕ
  pub tsbufp : ℕ

module _ {S : Type 0} (size : ℕ) (sync : ℕ → Bool) (pass : S → List ℕ → S) where
  -- The loop `while (p < count)`, on the bytes from p on.
  unfoldable pub scan : ℕ → List ℕ → Pending → S → Pending × S
  scan zero bytes pending s = (pending, s)
  scan (suc fuel) [] pending s = (pending, s)
  scan (suc fuel) (b ∷ rest) pending s =
      let bytes = b ∷ rest in
      let packet_taken = scan fuel (drop size bytes) pending (pass s (take size bytes)) in
      let skipped = scan fuel rest pending s in
      if sync b
      then (if leb size (length bytes)
          then packet_taken
          else (record { tsbuf = memcpy pending.tsbuf 0 bytes; tsbufp = length bytes }, s))
      else skipped

  -- The whole call. `count < (j = size - i)` is a comparison of unsigned numbers, which holds where
  -- i is above the size.
  unfoldable pub feed_bytes : List ℕ → Pending → S → Pending × S
  feed_bytes buf pending s =
      let i = pending.tsbufp in
      let j = size - i in
      let count = length buf in
      let filled = memcpy pending.tsbuf i (take j buf) in
      let s' = if sync (get_or filled 0 0) then pass s (take size filled) else s in
      let after = scan count (drop j buf) (record { tsbuf = filled; tsbufp = 0 }) s' in
      if i == 0
      then scan count buf pending s
      else if ltb size i || ltb count j
      then (record { tsbuf = memcpy pending.tsbuf i buf; tsbufp = i + count }, s)
      else after

-- The sync bytes: 0x47, and 0xB8 in its place at every eighth packet of a 204-byte stream.
abbrev pub is_sync : ℕ → Bool
is_sync b = b == 0x47

abbrev pub is_sync_204 : ℕ → Bool
is_sync_204 b = b == 0x47 || b == 0xB8

-- `tmppack`: the first 188 bytes, with the plain sync byte.
abbrev pub plain_sync : List ℕ → List ℕ
plain_sync [] = []
plain_sync (b ∷ rest) = (if b == 0xB8 then 0x47 else b) ∷ rest

module _ (client : Client) where
  unfoldable pub swfilter :
      List ℕ → Pending → Demux × List Delivery → Pending × (Demux × List Delivery)
  unfolding feed_bytes
  swfilter = feed_bytes packet_size is_sync (swfilter_packet client)

  unfoldable pub swfilter_204 :
      List ℕ → Pending → Demux × List Delivery → Pending × (Demux × List Delivery)
  unfolding feed_bytes
  swfilter_204 =
      feed_bytes 204 is_sync_204
        λ s pack. swfilter_packet client s (plain_sync (take packet_size pack))

  -- dvb_dmx_swfilter_packets, for `count` packets at `buf`.
  unfoldable pub swfilter_packets : ℕ → List ℕ → Demux × List Delivery → Demux × List Delivery
  swfilter_packets zero buf s = s
  swfilter_packets (suc count) buf s =
      let s' =
        if is_sync (get_or buf 0 0) then swfilter_packet client s (take packet_size buf) else s in
      swfilter_packets count (drop packet_size buf) s'
