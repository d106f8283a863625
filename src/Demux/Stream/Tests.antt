-- ===== src/Demux/Stream/Tests.antt =====
-- The theorems on streams at concrete bytes.
use tuxbox_git_driver.Common.{
  ℕ, ◌≡◌, inl, inr, refl, List, [], ◌∷◌, ◌++◌, true, false, arith, none, length, replicate,
  length-replicate,
}
use tuxbox_git_driver.Common.Int.{pos}
use tuxbox_git_driver.Demux.Types.{DemuxFeed, Demux, Client, Delivery, to_ts, ts, go}
use tuxbox_git_driver.Demux.Packet.{ts_pid}
use tuxbox_git_driver.Demux.Dispatch.{
  packet_size, swfilter_packet, each_feed, one_feed, packet_type, by_type, swfilter_payload,
  chain_of,
}
use tuxbox_git_driver.Demux.Stream.{Pending, is_sync, is_sync_204, swfilter}
use tuxbox_git_driver.Demux.Stream.Chunks.{IsValid, pending_bytes, reference}
use tuxbox_git_driver.Demux.Stream.Swfilter.{swfilter_refines, swfilter-append}

abbrev client : Client
client = record {
  cb_sec = λ log i bytes. (pos 0, true);
  crc32_be = λ seed bytes. 0;
  has_decoder = false;
}

-- A feed that wants the packets of PID 0x100.
abbrev feed : DemuxFeed
feed = record {
  section = record {
    is_filtering = true;
    check_crc = false;
    crc_val = 0;
    secbuf = [];
    secbufp = 0;
    seclen = 0;
  };
  type = ts;
  state = go;
  pid = 0x100;
  buffer_size = 0;
  descramble = false;
  timeout = 0;
  filter = [];
  cb_length = 0;
  ts_type = 1;
  pes_type = 0;
  cc = 0;
  peslen = 0;
}

abbrev demux : Demux
demux = record {
  filter = [];
  feed = feed ∷ [];
  feed_list = 0 ∷ [];
  pesfilter = [];
  pids = [];
  users = 1;
  frontend = none;
  frontend_list = [];
  mutex = 1;
}

abbrev packet : List ℕ
packet = 0x47 ∷ 1 ∷ 0 ∷ 0x10 ∷ replicate 184 9

packet_size_ok : length packet ≡ 188
packet_size_ok = omega (arith, length-replicate {A = ℕ} 184 9)

-- nothing pending
abbrev fresh : Pending
fresh = record { tsbuf = replicate 204 0; tsbufp = 0 }

abbrev fresh-IsValid : IsValid packet_size is_sync fresh
fresh-IsValid = record {
  room = omega (arith, length-replicate {A = ℕ} 204 0);
  partial = omega arith;
  synced = inl refl;
}

abbrev fresh-IsValid_204 : IsValid 204 is_sync_204 fresh
fresh-IsValid_204 = record {
  room = omega (arith, length-replicate {A = ℕ} 204 0);
  partial = omega arith;
  synced = inl refl;
}

-- the start of a packet pending
abbrev begun : Pending
begun = record { tsbuf = 0x47 ∷ 1 ∷ replicate 186 0; tsbufp = 2 }

abbrev begun-IsValid : IsValid packet_size is_sync begun
begun-IsValid = record {
  room = omega (arith, length-replicate {A = ℕ} 186 0);
  partial = omega arith;
  synced = inr refl;
}

abbrev start : Demux × List Delivery
start = (demux, [])

swfilter_packet_runs : (swfilter_packet client start packet).1 ≡ to_ts 0 packet ∷ []
unfolding swfilter_packet each_feed one_feed packet_type by_type swfilter_payload chain_of ts_pid
swfilter_packet_runs = refl

swfilter_refines_example :
    let (p', s') = swfilter client (0 ∷ 0x10 ∷ (replicate 184 9 ++ packet)) begun start in
    let (left, t) =
      reference packet_size is_sync
        (swfilter_packet client)
        (pending_bytes begun ++ 0 ∷ 0x10 ∷ (replicate 184 9 ++ packet))
        start in
    (pending_bytes p' ≡ left) × (s' ≡ t) × IsValid packet_size is_sync p'
swfilter_refines_example =
    swfilter_refines client (0 ∷ 0x10 ∷ (replicate 184 9 ++ packet)) begun start begun-IsValid

swfilter-append_example :
    let (p₁, s₁) = swfilter client (0 ∷ 0x10 ∷ []) begun start in
    let (p₂, s₂) = swfilter client (replicate 184 9) p₁ s₁ in
    let (p', s') = swfilter client (0 ∷ 0x10 ∷ replicate 184 9) begun start in
    (pending_bytes p₂ ≡ pending_bytes p') × (s₂ ≡ s')
swfilter-append_example =
    swfilter-append client (0 ∷ 0x10 ∷ []) (replicate 184 9) begun start begun-IsValid
