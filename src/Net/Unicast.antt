-- ===== src/Net/Unicast.antt =====
-- The filter of dvb_net_filter_set together with the demultiplexer: what passes it is for this address.
use tuxbox_git_driver.Common.{
  ℕ, ◌+◌, ◌-◌, ◌≤◌, ◌<◌, ◌≡◌, refl, ap, sym, ◌∙◌, List, [], ◌∷◌, Bool, true, some, arith, length,
  get_or, ◌++◌, slice, length-slice,
}
use tuxbox_git_driver.Common.Bits.{same_bits}
use tuxbox_git_driver.Demux.Types.{DemuxFilter}
use tuxbox_git_driver.Demux.Filter.{mask_max, passes, prepare_filter}
use tuxbox_git_driver.Demux.Filter.Matches.{positive, passes-Matches}
use tuxbox_git_driver.Net.{NetDeviceStats, mask_normal, frame_of, net_sec, filter_set}

-- All the bytes of a section are bytes.
abbrev pub Bytes : List ℕ → Type 0
Bytes bytes = (i : ℕ) → get_or bytes i 0 ≤ 255

module _ (mac : List ℕ) (f : DemuxFilter) (pkt : List ℕ) (m : Bytes mac) (b : Bytes pkt)
    (p : passes (prepare_filter (filter_set mac mask_normal f)) pkt ≡ true) where
  -- A byte of the filter's value that is compared in full is the section's.
  compared :
      (i : ℕ)
      → i < mask_max
      → positive (filter_set mac mask_normal f) i ≡ 255
      → get_or (filter_set mac mask_normal f).filter_value i 0 ≤ 255
      → get_or (filter_set mac mask_normal f).filter_value i 0 ≡ get_or pkt i 0
  compared i h full small =
      let v = (passes-Matches (filter_set mac mask_normal f) pkt).0 p in
      same_bits 8 _ (get_or pkt i 0) small (b i) (rw full at (v.same i h))

  passed :
      (get_or pkt 0 0 ≡ 0x3e)
      × (get_or pkt 11 0 ≡ get_or mac 0 0)
      × (get_or pkt 10 0 ≡ get_or mac 1 0)
      × (get_or pkt 9 0 ≡ get_or mac 2 0)
      × (get_or pkt 8 0 ≡ get_or mac 3 0)
      × (get_or pkt 4 0 ≡ get_or mac 4 0)
      × (get_or pkt 3 0 ≡ get_or mac 5 0)
  unfolding filter_set
  passed = (
    sym (compared 0 (omega arith) refl (omega arith)),
    sym (compared 11 (omega arith) refl (m 0)),
    sym (compared 10 (omega arith) refl (m 1)),
    sym (compared 9 (omega arith) refl (m 2)),
    sym (compared 8 (omega arith) refl (m 3)),
    sym (compared 4 (omega arith) refl (m 4)),
    sym (compared 3 (omega arith) refl (m 5)),
  )

six_bytes :
    (mac : List ℕ)
    → length mac ≡ 6
    → mac
      ≡ get_or mac 0 0
        ∷ get_or mac 1 0
        ∷ get_or mac 2 0
        ∷ get_or mac 3 0
        ∷ get_or mac 4 0
        ∷ get_or mac 5 0
        ∷ []
six_bytes (a ∷ b ∷ c ∷ d ∷ e ∷ f ∷ []) h = refl
six_bytes [] h = absurd (omega arith)
six_bytes (a ∷ []) h = absurd (omega arith)
six_bytes (a ∷ b ∷ []) h = absurd (omega arith)
six_bytes (a ∷ b ∷ c ∷ []) h = absurd (omega arith)
six_bytes (a ∷ b ∷ c ∷ d ∷ []) h = absurd (omega arith)
six_bytes (a ∷ b ∷ c ∷ d ∷ e ∷ []) h = absurd (omega arith)
six_bytes (a ∷ b ∷ c ∷ d ∷ e ∷ f ∷ g ∷ mac) h = absurd (omega arith)

frame_lem :
    (memory : Bool) (pkt : List ℕ) (stats : NetDeviceStats) (frame : List ℕ)
    → (net_sec memory pkt stats).0 ≡ some frame
    → (frame ≡ frame_of pkt) × (16 ≤ length pkt)
unfolding net_sec
frame_lem memory pkt stats frame h = ground (arith, h)

-- A section that passes the filter of dvb_net_filter_set for the interface's address in the demultiplexer,
-- and that dvb_net_sec makes a frame of, is a datagram section; the frame is for this address, from no
-- address, with the type of IP, and carries the bytes of the section behind its header of twelve bytes
-- and before the four of its checksum. Addresses and sections are of bytes.
pub net_sec_unicast :
    (mac : List ℕ) (f : DemuxFilter) (pkt : List ℕ) (memory : Bool) (stats : NetDeviceStats)
    (frame : List ℕ)
    → Bytes mac
    → Bytes pkt
    → length mac ≡ 6
    → passes (prepare_filter (filter_set mac mask_normal f)) pkt ≡ true
    → (net_sec memory pkt stats).0 ≡ some frame
    → (get_or pkt 0 0 ≡ 0x3e)
      × (frame ≡ mac ++ 0 ∷ 0 ∷ 0 ∷ 0 ∷ 0 ∷ 0 ∷ 8 ∷ 0 ∷ slice pkt 12 (length pkt - 16))
      × (length frame + 2 ≡ length pkt)
unfolding frame_of
net_sec_unicast mac f pkt memory stats frame m b six p h =
    let (table, m0, m1, m2, m3, m4, m5) = passed mac f pkt m b p in
    let (same, long) = frame_lem memory pkt stats frame h in
    let addressed = six_bytes mac six in
    let payload = length-slice pkt 12 (length pkt - 16) (omega arith) in
    (
      table,
      same
          ∙ rw (m0, m1, m2, m3, m4, m5)
              (ap (λ l. l ++ 0 ∷ 0 ∷ 0 ∷ 0 ∷ 0 ∷ 0 ∷ 8 ∷ 0 ∷ slice pkt 12 (length pkt - 16))
                (sym addressed)),
      omega (arith, ap length same, payload),
    )
