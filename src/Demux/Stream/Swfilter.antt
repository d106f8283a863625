-- ===== src/Demux/Stream/Swfilter.antt =====
-- dvb_dmx_swfilter, dvb_dmx_swfilter_204 and dvb_dmx_swfilter_packets against the reference cutting.
use tuxbox_git_driver.Common.{
  ℕ, zero, suc, ◌≤◌, ◌≡◌, refl, List, [], ◌∷◌, ◌++◌, arith, length, get_or, take, drop, length-drop,
  sym, ◌∙◌, ap,
}
use tuxbox_git_driver.Demux.Types.{Demux, Client, Delivery}
use tuxbox_git_driver.Demux.Dispatch.{packet_size, swfilter_packet}
use tuxbox_git_driver.Demux.Stream.{
  Pending, is_sync, is_sync_204, plain_sync, swfilter, swfilter_204, swfilter_packets,
}
use tuxbox_git_driver.Demux.Stream.Chunks.{
  IsValid, pending_bytes, cut, cut_packet, reference, feed_bytes_lem, feed_bytes-append,
}

module _ (client : Client) where
  -- From a well-formed pending packet, one call of dvb_dmx_swfilter hands to
  -- dvb_dmx_swfilter_packet exactly the packets that the reference cuts from the pending bytes and
  -- the new ones, keeps what the reference leaves, and keeps the pending packet well formed.
  pub swfilter_refines :
      (buf : List ℕ) (p : Pending) (s : Demux × List Delivery)
      → IsValid packet_size is_sync p
      → let (p', s') = swfilter client buf p s in
        let (left, t) =
          reference packet_size is_sync (swfilter_packet client) (pending_bytes p ++ buf) s in
        (pending_bytes p' ≡ left) × (s' ≡ t) × IsValid packet_size is_sync p'
  unfolding swfilter
  swfilter_refines buf p s v =
      feed_bytes_lem packet_size is_sync (swfilter_packet client) (omega arith) buf p s v

  -- From a well-formed pending packet, the same stream given to dvb_dmx_swfilter at once or in two
  -- pieces, cut anywhere, leaves the same feeds, deliveries and pending bytes.
  pub swfilter-append :
      (xs ys : List ℕ) (p : Pending) (s : Demux × List Delivery)
      → IsValid packet_size is_sync p
      → let (p₁, s₁) = swfilter client xs p s in
        let (p₂, s₂) = swfilter client ys p₁ s₁ in
        let (p', s') = swfilter client (xs ++ ys) p s in
        (pending_bytes p₂ ≡ pending_bytes p') × (s₂ ≡ s')
  unfolding swfilter
  swfilter-append xs ys p s v =
      feed_bytes-append packet_size is_sync (swfilter_packet client) (omega arith) xs ys p s v

  -- From a well-formed pending packet of 204 bytes, the same stream given to dvb_dmx_swfilter_204
  -- at once or in two pieces, cut anywhere, leaves the same feeds, deliveries and pending bytes.
  pub swfilter_204-append :
      (xs ys : List ℕ) (p : Pending) (s : Demux × List Delivery)
      → IsValid 204 is_sync_204 p
      → let (p₁, s₁) = swfilter_204 client xs p s in
        let (p₂, s₂) = swfilter_204 client ys p₁ s₁ in
        let (p', s') = swfilter_204 client (xs ++ ys) p s in
        (pending_bytes p₂ ≡ pending_bytes p') × (s₂ ≡ s')
  unfolding swfilter_204
  swfilter_204-append xs ys p s v =
      feed_bytes-append 204 is_sync_204
        (λ s pack. swfilter_packet client s (plain_sync (take packet_size pack))) (omega arith) xs
        ys p s v

  -- `count` packets of 188 bytes, each with its sync byte.
  abbrev pub Aligned : ℕ → List ℕ → Type 0
  Aligned zero buf = length buf ≡ 0
  Aligned (suc count) buf =
      (packet_size ≤ length buf) × (get_or buf 0 0 ≡ 0x47) × Aligned count (drop packet_size buf)

  aligned_step :
      (b : ℕ) (rest : List ℕ) (f : ℕ) (s : Demux × List Delivery)
      → packet_size ≤ length (b ∷ rest)
      → b ≡ 0x47
      → cut packet_size is_sync (swfilter_packet client) (suc f) (b ∷ rest) s
        ≡ cut packet_size is_sync
            (swfilter_packet client)
            f
            (drop packet_size (b ∷ rest))
            (swfilter_packet client s (take packet_size (b ∷ rest)))
  aligned_step b rest f s h e =
      cut_packet packet_size is_sync (swfilter_packet client) b rest f s (ground arith) h

  packets_step :
      (count b : ℕ) (rest : List ℕ) (s : Demux × List Delivery)
      → b ≡ 0x47
      → swfilter_packets client (suc count) (b ∷ rest) s
        ≡ swfilter_packets client count
            (drop packet_size (b ∷ rest))
            (swfilter_packet client s (take packet_size (b ∷ rest)))
  unfolding swfilter_packets
  packets_step count b rest s e = ground arith

  cut-packets :
      (count f : ℕ) (buf : List ℕ) (s : Demux × List Delivery)
      → Aligned count buf
      → length buf ≤ f
      → cut packet_size is_sync (swfilter_packet client) f buf s
        ≡ ([], swfilter_packets client count buf s)
  unfolding cut swfilter_packets
  cut-packets zero zero [] s a h = refl
  cut-packets zero (suc f) [] s a h = refl
  cut-packets zero f (b ∷ rest) s a h = absurd (omega arith)
  cut-packets (suc count) f [] s a h = absurd (omega arith)
  cut-packets (suc count) zero (b ∷ rest) s a h = absurd (omega arith)
  cut-packets (suc count) (suc f) (b ∷ rest) s a h =
      let next =
        cut-packets count f (drop packet_size (b ∷ rest))
          (swfilter_packet client s (take packet_size (b ∷ rest))) a.2
          (omega (arith, length-drop packet_size (b ∷ rest))) in
      aligned_step b rest f s a.0 a.1
      ∙ next
      ∙ ap (λ z. ([], z)) (sym (packets_step count b rest s a.1))

  -- On whole packets, each with its sync byte, with nothing pending, dvb_dmx_swfilter leaves the
  -- feeds and deliveries that dvb_dmx_swfilter_packets leaves, and nothing pending.
  pub swfilter-packets :
      (count : ℕ) (buf : List ℕ) (p : Pending) (s : Demux × List Delivery)
      → IsValid packet_size is_sync p
      → p.tsbufp ≡ 0
      → Aligned count buf
      → let (p', s') = swfilter client buf p s in
        (s' ≡ swfilter_packets client count buf s) × (pending_bytes p' ≡ [])
  unfolding reference
  swfilter-packets count buf p s v none a =
      let (left, t, _) = swfilter_refines buf p s v in
      let all = cut-packets count (length buf) buf s a (omega arith) in
      let nothing : pending_bytes p ≡ [] = ap (λ n. take n p.tsbuf) none in
      let together : reference packet_size is_sync (swfilter_packet client) (pending_bytes p ++ buf)
            s
          ≡ ([], swfilter_packets client count buf s) =
        rw nothing all in
      (cc (t, together), cc (left, together))
