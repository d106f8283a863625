-- ===== src/Demux/Stream/Chunks.antt =====
-- The loop of dvb_dmx_swfilter and dvb_dmx_swfilter_204 against a reference that cuts packets from all
-- the bytes at once, and streams that arrive in pieces.
use tuxbox_git_driver.Common.{
  ℕ, zero, suc, ◌+◌, ◌-◌, ◌≤◌, ◌<◌, ◌≡◌, refl, sym, ◌∙◌, ◌⊎◌, ◌≢◌, List, [], ◌∷◌, ◌++◌, Bool, true,
  leb, if◌then◌else◌, arith, length, get_or, take, drop, memcpy, append_assoc, length-append,
  length-take, length-drop, length-memcpy, get_or-take, get_or-append_left, get_or-memcpy_in,
  get_or-memcpy_below, take-append_le, drop-append_le, take-memcpy, take-append_ge, drop-append_ge,
  ℕ_discrete, dec_lt,
}
use tuxbox_git_driver.Demux.Stream.{Pending, scan, feed_bytes}

-- The bytes of the packet that has not all arrived.
abbrev pub pending_bytes : Pending → List ℕ
pending_bytes p = take p.tsbufp p.tsbuf

-- A packet is pending only from its sync byte on, and fits `tsbuf`.
pub record IsValid (size : ℕ) (sync : ℕ → Bool) (p : Pending) : Type 0 where
  pub room : size ≤ length p.tsbuf
  pub partial : p.tsbufp < size
  pub synced : (p.tsbufp ≡ 0) ⊎ (sync (get_or p.tsbuf 0 0) ≡ true)

module _ {S : Type 0} (size : ℕ) (sync : ℕ → Bool) (pass : S → List ℕ → S) where
  -- The reference: a packet is the next `size` bytes from a sync byte on, other bytes are skipped. What
  -- is left at the end starts with the sync byte of an incomplete packet, or is empty.
  unfoldable pub cut : ℕ → List ℕ → S → List ℕ × S
  cut zero bytes s = (bytes, s)
  cut (suc fuel) [] s = ([], s)
  cut (suc fuel) (b ∷ rest) s =
      let bytes = b ∷ rest in
      let packet_taken = cut fuel (drop size bytes) (pass s (take size bytes)) in
      let skipped = cut fuel rest s in
      if sync b then (if leb size (length bytes) then packet_taken else (bytes, s)) else skipped

  unfoldable pub reference : List ℕ → S → List ℕ × S
  reference bytes s = cut (length bytes) bytes s

  pub cut_packet :
      (b : ℕ) (rest : List ℕ) (f : ℕ) (s : S)
      → sync b ≡ true
      → size ≤ length (b ∷ rest)
      → cut (suc f) (b ∷ rest) s ≡ cut f (drop size (b ∷ rest)) (pass s (take size (b ∷ rest)))
  unfolding cut
  cut_packet b rest f s e h = ground arith

  module _ (positive : 0 < size) where
    pub cut-fuel :
        (f g : ℕ) (bytes : List ℕ) (s : S)
        → length bytes ≤ f
        → length bytes ≤ g
        → cut f bytes s ≡ cut g bytes s
    unfolding cut
    cut-fuel zero zero bytes s hf hg = refl
    cut-fuel zero (suc g) [] s hf hg = refl
    cut-fuel zero (suc g) (b ∷ rest) s hf hg = absurd (omega arith)
    cut-fuel (suc f) zero [] s hf hg = refl
    cut-fuel (suc f) zero (b ∷ rest) s hf hg = absurd (omega arith)
    cut-fuel (suc f) (suc g) [] s hf hg = refl
    cut-fuel (suc f) (suc g) (b ∷ rest) s hf hg = ground (
      arith,
      length-drop size (b ∷ rest),
      cut-fuel f g rest s,
      cut-fuel f g (drop size (b ∷ rest)) (pass s (take size (b ∷ rest))),
    )

    -- An incomplete packet stays; a complete one is handed on.
    cut_short :
        (bytes : List ℕ) (s : S)
        → sync (get_or bytes 0 0) ≡ true
        → 0 < length bytes
        → length bytes < size
        → reference bytes s ≡ (bytes, s)
    unfolding cut reference
    cut_short [] s e pos short = absurd (omega arith)
    cut_short (b ∷ rest) s e pos short = ground arith

    cut_complete :
        (bytes : List ℕ) (s : S)
        → sync (get_or bytes 0 0) ≡ true
        → size ≤ length bytes
        → reference bytes s ≡ reference (drop size bytes) (pass s (take size bytes))
    unfolding cut reference
    cut_complete [] s e h = absurd (omega arith)
    cut_complete (b ∷ rest) s e h = ground (
      arith,
      length-drop size (b ∷ rest),
      cut-fuel (length rest) (length (drop size (b ∷ rest))) (drop size (b ∷ rest))
          (pass s (take size (b ∷ rest))),
    )

    -- Cutting in two pieces is cutting what the first piece left, with the second behind it.
    cut-append :
        (f g : ℕ) (xs ys : List ℕ) (s : S)
        → length xs ≤ f
        → length xs + length ys ≤ g
        → cut g (xs ++ ys) s ≡ reference ((cut f xs s).0 ++ ys) (cut f xs s).1
    unfolding cut reference
    cut-append zero g [] ys s h k = cut-fuel g (length ys) ys s (omega arith) (omega arith)
    cut-append (suc f) g [] ys s h k = cut-fuel g (length ys) ys s (omega arith) (omega arith)
    cut-append zero g (b ∷ rest) ys s h k = absurd (omega arith)
    cut-append (suc f) zero (b ∷ rest) ys s h k = absurd (omega arith)
    cut-append (suc f) (suc g) (b ∷ rest) ys s h k = ground (
      arith,
      length-append (b ∷ rest) ys,
      length-append rest ys,
      length-drop size (b ∷ rest),
      take-append_le size (b ∷ rest) ys,
      drop-append_le size (b ∷ rest) ys,
      cut-append f g rest ys s,
      cut-append f g (drop size (b ∷ rest)) ys (pass s (take size (b ∷ rest))),
      cut-fuel (suc g) (length ((b ∷ rest) ++ ys)) ((b ∷ rest) ++ ys) s,
    )

    reference-append :
        (xs ys : List ℕ) (s : S)
        → reference (xs ++ ys) s ≡ reference ((reference xs s).0 ++ ys) (reference xs s).1
    unfolding reference
    reference-append xs ys s =
        cut-append (length xs) (length (xs ++ ys)) xs ys s (omega arith)
          (omega (arith, length-append xs ys))

    -- The loop of the code leaves in `tsbuf` what the reference leaves, and hands on the same packets.
    scan-cut :
        (f : ℕ) (bytes : List ℕ) (p : Pending) (s : S)
        → size ≤ length p.tsbuf
        → p.tsbufp ≡ 0
        → length bytes ≤ f
        → let (p', s') = scan size sync pass f bytes p s in
          (pending_bytes p' ≡ (cut f bytes s).0) × (s' ≡ (cut f bytes s).1) × IsValid size sync p'
    unfolding cut scan
    scan-cut zero [] p s room none h = (ground arith, refl, ground arith)
    scan-cut zero (b ∷ rest) p s room none h = absurd (omega arith)
    scan-cut (suc f) [] p s room none h = (ground arith, refl, ground arith)
    scan-cut (suc f) (b ∷ rest) p s room none h = ground (
      arith,
      length-drop size (b ∷ rest),
      length-memcpy p.tsbuf 0 (b ∷ rest),
      take-memcpy p.tsbuf 0 (b ∷ rest),
      get_or-memcpy_in 0 p.tsbuf 0 (b ∷ rest) 0,
      scan-cut f rest p s room none,
      scan-cut f (drop size (b ∷ rest)) p (pass s (take size (b ∷ rest))) room none,
    )

    -- While a packet is pending.
    module _ (buf : List ℕ) (p : Pending) (v : IsValid size sync p) (ne : p.tsbufp ≢ 0) where
      abbrev both : List ℕ
      both = pending_bytes p ++ buf

      length-pending : length (pending_bytes p) ≡ p.tsbufp
      length-pending = omega (arith, length-take p.tsbufp p.tsbuf, v.room, v.partial)

      head-both : get_or both 0 0 ≡ get_or p.tsbuf 0 0
      head-both =
          get_or-append_left 0 (pending_bytes p) buf 0 (omega (arith, length-pending))
          ∙ get_or-take 0 p.tsbufp p.tsbuf 0 (omega arith)

      sync-both : sync (get_or both 0 0) ≡ true
      sync-both = rw head-both (ground arith)

      length-both : length both ≡ p.tsbufp + length buf
      length-both = omega (arith, length-append (pending_bytes p) buf, length-pending)

      filled_lem :
          size ≤ p.tsbufp + length buf
          → take size (memcpy p.tsbuf p.tsbufp (take (size - p.tsbufp) buf)) ≡ take size both
      filled_lem h =
          let part : length (take (size - p.tsbufp) buf) ≡ size - p.tsbufp =
            omega (arith, length-take (size - p.tsbufp) buf) in
          let all : p.tsbufp + length (take (size - p.tsbufp) buf) ≡ size = omega arith in
          let stored = take-memcpy p.tsbuf p.tsbufp (take (size - p.tsbufp) buf) (omega arith) in
          let direct = take-append_ge size (pending_bytes p) buf (omega (arith, length-pending)) in
          (rw all at stored) ∙ sym (rw length-pending at direct)

      head-filled :
          get_or (memcpy p.tsbuf p.tsbufp (take (size - p.tsbufp) buf)) 0 0 ≡ get_or p.tsbuf 0 0
      head-filled =
          get_or-memcpy_below 0 p.tsbuf p.tsbufp (take (size - p.tsbufp) buf) 0 (omega arith)

      rest-both : drop size both ≡ drop (size - p.tsbufp) buf
      rest-both =
          rw length-pending at
            (drop-append_ge size (pending_bytes p) buf (omega (arith, length-pending)))

      complete_lem :
          (s : S)
          → size ≤ p.tsbufp + length buf
          → reference both s
            ≡ cut (length buf) (drop (size - p.tsbufp) buf) (pass s (take size both))
      unfolding reference
      complete_lem s h =
          cut_complete both s sync-both (omega (arith, length-both))
          ∙ rw rest-both (
              cut-fuel (length (drop (size - p.tsbufp) buf)) (length buf)
                (drop (size - p.tsbufp) buf) (pass s (take size both)) (omega arith)
                (omega (arith, length-drop (size - p.tsbufp) buf)))

      -- The call, where it completes the pending packet.
      feed_complete :
          (s : S)
          → size ≤ p.tsbufp + length buf
          → let filled = memcpy p.tsbuf p.tsbufp (take (size - p.tsbufp) buf) in
            feed_bytes size sync pass buf p s
            ≡ scan size sync pass
                (length buf)
                (drop (size - p.tsbufp) buf)
                (record { tsbuf = filled; tsbufp = 0 })
                (pass s (take size both))
      unfolding feed_bytes
      feed_complete s h = ground (arith, head-filled, sync-both, head-both, filled_lem h)

    abbrev Agrees : Pending × S → List ℕ × S → Type 0
    Agrees (p', s') (left, t) = (pending_bytes p' ≡ left) × (s' ≡ t) × IsValid size sync p'

    feed_none :
        (buf : List ℕ) (p : Pending) (s : S)
        → IsValid size sync p
        → p.tsbufp ≡ 0
        → Agrees (feed_bytes size sync pass buf p s) (reference (pending_bytes p ++ buf) s)
    unfolding feed_bytes reference
    feed_none buf p s v none = ground (arith, scan-cut (length buf) buf p s v.room none)

    feed_short :
        (buf : List ℕ) (p : Pending) (s : S)
        → IsValid size sync p
        → p.tsbufp ≢ 0
        → p.tsbufp + length buf < size
        → Agrees (feed_bytes size sync pass buf p s) (reference (pending_bytes p ++ buf) s)
    unfolding feed_bytes
    feed_short buf p s v ne short = ground (
      arith,
      length-both buf p v ne,
      sync-both buf p v ne,
      cut_short (pending_bytes p ++ buf) s,
      take-memcpy p.tsbuf p.tsbufp buf,
      length-memcpy p.tsbuf p.tsbufp buf,
      get_or-memcpy_below 0 p.tsbuf p.tsbufp buf 0,
    )

    -- What a call does is what the reference does to the pending bytes and the new ones together.
    pub feed_bytes_lem :
        (buf : List ℕ) (p : Pending) (s : S)
        → IsValid size sync p
        → let (p', s') = feed_bytes size sync pass buf p s in
          (pending_bytes p' ≡ (reference (pending_bytes p ++ buf) s).0)
          × (s' ≡ (reference (pending_bytes p ++ buf) s).1)
          × IsValid size sync p'
    feed_bytes_lem buf p s v = elim (ℕ_discrete p.tsbufp 0) [
      | yes none ↦ feed_none buf p s v none
      | no some_pending ↦ elim (dec_lt (p.tsbufp + length buf) size) [
        | yes short ↦ feed_short buf p s v some_pending short
        | no complete ↦
            let enough : size ≤ p.tsbufp + length buf = omega arith in
            let filled = memcpy p.tsbuf p.tsbufp (take (size - p.tsbufp) buf) in
            rw
              (
                feed_complete buf p v some_pending s enough,
                complete_lem buf p v some_pending s enough,
              )
              (scan-cut (length buf) (drop (size - p.tsbufp) buf)
                (record { tsbuf = filled; tsbufp = 0 })
                (pass s (take size (pending_bytes p ++ buf)))
                (omega (arith, length-memcpy p.tsbuf p.tsbufp (take (size - p.tsbufp) buf))) refl
                (omega (arith, length-drop (size - p.tsbufp) buf)))
      ]
    ]

    -- The same bytes in one piece or in two give the same packets, and leave the same bytes pending.
    pub feed_bytes-append :
        (xs ys : List ℕ) (p : Pending) (s : S)
        → IsValid size sync p
        → let (p₁, s₁) = feed_bytes size sync pass xs p s in
          let (p₂, s₂) = feed_bytes size sync pass ys p₁ s₁ in
          let (p', s') = feed_bytes size sync pass (xs ++ ys) p s in
          (pending_bytes p₂ ≡ pending_bytes p') × (s₂ ≡ s')
    feed_bytes-append xs ys p s v =
        let (e₁, t₁, v₁) = feed_bytes_lem xs p s v in
        let (p₁, s₁) = feed_bytes size sync pass xs p s in
        let (e₂, t₂, v₂) = feed_bytes_lem ys p₁ s₁ v₁ in
        let (e', t', v') = feed_bytes_lem (xs ++ ys) p s v in
        let joined = reference-append (pending_bytes p ++ xs) ys s in
        let assoc = append_assoc (pending_bytes p) xs ys in
        (cc (e₁, t₁, e₂, e', joined, assoc), cc (e₁, t₁, t₂, t', joined, assoc))
