-- ===== src/Demux/Section/Start.antt =====
-- The packet in which a section starts: the loop over the sections of a packet.
use tuxbox_git_driver.Common.{
  ℕ, zero, suc, ◌+◌, ◌-◌, ◌≤◌, ◌<◌, ◌≡◌, List, arith, drop, slice, memcpy, ◌⊎◌,
}
use tuxbox_git_driver.Common.Int.{pos}
use tuxbox_git_driver.Demux.Types.{SectionFeed, Client, Delivery}
use tuxbox_git_driver.Demux.Packet.{section_length}
use tuxbox_git_driver.Demux.Section.{
  Chain, start_sections, timed, whole_section, next_count, partial_section, crc_start,
}

section_length_ge : (buf : List ℕ) → 3 ≤ section_length buf
unfolding section_length
section_length_ge buf = omega arith

module _ (client : Client) where
  next_count_cases : (buf : List ℕ) (p : ℕ) → (next_count buf p ≡ 0) ⊎ (next_count buf p ≡ 188 - p)
  unfolding next_count
  next_count_cases buf p = ground arith

  -- The loop over the sections of a packet does the same with every fuel above the count of bytes
  -- left, where that count is 0 or the rest of the packet.
  pub start_sections-fuel :
      (f g : ℕ) (chain : Chain) (buf : List ℕ) (p count : ℕ) (sec : SectionFeed)
      (log : List Delivery)
      → count < f
      → count < g
      → (count ≡ 0) ⊎ (p + count ≡ 188)
      → start_sections client f chain buf p count sec log
        ≡ start_sections client g chain buf p count sec log
  unfolding start_sections
  start_sections-fuel zero g chain buf p count sec log hf hg h = absurd (omega arith)
  start_sections-fuel (suc f) zero chain buf p count sec log hf hg h = absurd (omega arith)
  start_sections-fuel (suc f) (suc g) chain buf p count sec log hf hg h =
      let len = section_length (drop p buf) in
      let fed = whole_section client chain (slice buf p len) (timed count len sec) log in
      ground (
        arith,
        section_length_ge (drop p buf),
        next_count_cases buf (p + len),
        start_sections-fuel f g chain buf (p + len) (next_count buf (p + len)) fed.1 fed.2,
      )

  -- A section of which at least three bytes and not all are left in the packet: the bytes are put at the
  -- start of `secbuf`, but `secbufp` is increased by their number, not set to it, and the length from the
  -- header is kept without a test against the size of `secbuf`.
  pub start_sections_partial :
      (f : ℕ) (chain : Chain) (buf : List ℕ) (p count : ℕ) (sec : SectionFeed) (log : List Delivery)
      → 2 < count
      → count < section_length (drop p buf)
      → start_sections client (suc f) chain buf p count sec log ≡ (
        pos 0,
        record sec {
          crc_val = crc_start;
          seclen = section_length (drop p buf);
          secbufp = sec.secbufp + count;
          secbuf = memcpy sec.secbuf 0 (slice buf p count);
        },
        log,
      )
  unfolding start_sections timed partial_section
  start_sections_partial f chain buf p count sec log enough long = ground arith
