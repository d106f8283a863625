-- ===== src/Demux/Packet.antt =====
-- The header fields of sections and transport stream packets, `x & (2^k - 1)` written as a remainder
-- and `x << k` as a product.
use tuxbox_git_driver.Common.{
  ℕ, ◌+◌, ◌-◌, ◌*◌, ◌/◌, ◌%◌, ◌^◌, ◌≤◌, ◌<◌, Bool, List, arith, ltb, ◌==◌, if◌then◌else◌, get_or,
}

-- Bit k of a byte is set.
abbrev pub bit : ℕ → ℕ → Bool
bit x k = (x / 2 ^ k) % 2 == 1

unfoldable pub section_length : List ℕ → ℕ
section_length buf = 3 + (get_or buf 1 0 % 16) * 256 + get_or buf 2 0

unfoldable pub ts_pid : List ℕ → ℕ
ts_pid buf = (get_or buf 1 0 % 32) * 256 + get_or buf 2 0

-- The number of payload bytes, which are the last ones of the packet.
unfoldable pub payload : List ℕ → ℕ
payload tsp =
    let flags = get_or tsp 3 0 in
    let adaptation = get_or tsp 4 0 in
    if bit flags 4
    then (if bit flags 5 then (if ltb 183 adaptation then 0 else 184 - 1 - adaptation) else 184)
    else 0

-- A section header gives a length of at least 3, and of at most 4098 where its bytes are bytes.
pub section_length_bounds :
    (buf : List ℕ) → get_or buf 2 0 < 256 → (3 ≤ section_length buf) × (section_length buf ≤ 4098)
unfolding section_length
section_length_bounds buf h = omega arith

-- The payload of a packet lies inside it, behind the four bytes of the header.
pub payload-le : (tsp : List ℕ) → payload tsp ≤ 184
unfolding payload
payload-le tsp = ground arith
