-- ===== src/Tcp/Segment.antt =====
-- tcp/tcp_packet.go: the bytes of a segment that were not captured, as `ParsePacket` counts them.
-- Header lengths are counted in words of four bytes and kept in 8 bits, lengths in 16 bits.
use goreplay.Base.{ℕ, ◌+◌, ◌-◌, ◌*◌, ◌%◌, ◌^◌, ◌≤◌, ◌<◌, ◌≡◌, arith}

pub data IpHeader : Type 0 where
  ipv4 : ℕ → ℕ → IpHeader
  ipv6 : ℕ → IpHeader

-- `IHL` and `Length`
unfoldable pub ihl : IpHeader → ℕ
ihl (ipv4 words len) = words * 4 % 2 ^ 8
ihl (ipv6 len) = 40

unfoldable pub total_length : IpHeader → ℕ
total_length (ipv4 words len) = len
total_length (ipv6 len) = len

-- `headerSize`, from the data offset in words.
unfoldable pub header_size : IpHeader → ℕ → ℕ
header_size (ipv4 words len) data_offset = data_offset * 4 % 2 ^ 8 + ihl (ipv4 words len)
header_size (ipv6 len) data_offset = data_offset * 4 % 2 ^ 8 + ihl (ipv6 len) - 40

unfoldable pub lost : IpHeader → ℕ → ℕ → ℕ
lost header data_offset payload_len =
    (total_length header + 2 ^ 16 - (header_size header data_offset + payload_len) % 2 ^ 16)
    % 2 ^ 16

-- What a header says of the bytes behind the TCP header.
abbrev pub Carries : IpHeader → ℕ → ℕ → Type 0
Carries (ipv4 words len) data_offset n = (words ≤ 15) × (len ≡ words * 4 + data_offset * 4 + n)
Carries (ipv6 len) data_offset n = len ≡ data_offset * 4 + n

-- When a header announces `n` bytes of data and no more than these were captured, `Lost` is the
-- number of those that are missing, for both versions of IP.
pub lost_missing :
    (header : IpHeader) (data_offset n captured : ℕ)
    → Carries header data_offset n
    → data_offset ≤ 15
    → total_length header < 2 ^ 16
    → captured ≤ n
    → lost header data_offset captured ≡ n - captured
unfolding lost header_size ihl total_length
lost_missing (ipv4 words len) data_offset n captured (w, e) d fits h = omega arith
lost_missing (ipv6 len) data_offset n captured e d fits h = omega arith
