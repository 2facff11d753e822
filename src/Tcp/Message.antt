-- ===== src/Tcp/Message.antt =====
-- tcp/tcp_message.go: `Stats`, `Message` and its methods, and the parts of `Packet` in
-- tcp/tcp_packet.go that they read. A packet's sockets are the texts of `Src` and `Dst`, and a time
-- is a number. `m.done` stands in the pool's model, as the states of the goroutines that use it.
pub mod Laws
use goreplay.Base.{
  ℕ, ◌+◌, Bool, true, false, Bytes, List, [], ◌∷◌, ◌++◌, length, leb, if◌then◌else◌,
}

pub record Packet : Type 0 where
  pub src : Bytes
  pub dst : Bytes
  pub version : ℕ
  pub seq : ℕ
  pub syn : Bool
  pub ack : Bool
  pub fin : Bool
  pub rst : Bool
  pub payload : Bytes
  pub lost : ℕ
  pub timestamp : ℕ

-- `arrived` lists the packets as they came, before any was cut; the code does not keep them.
pub record Message : Type 0 where
  pub packets : List Packet
  pub content : Bytes
  pub lost_data : ℕ
  pub size : ℕ
  pub start_time : ℕ
  pub end_time : ℕ
  pub src_addr : Bytes
  pub dst_addr : Bytes
  pub is_incoming : Bool
  pub timed_out : Bool
  pub truncated : Bool
  pub ip_version : ℕ
  pub arrived : List Packet

unfoldable pub new_message : Bytes → Bytes → ℕ → Message
new_message src dst version = record {
  packets = [];
  content = [];
  lost_data = 0;
  size = 0;
  start_time = 0;
  end_time = 0;
  src_addr = src;
  dst_addr = dst;
  is_incoming = false;
  timed_out = false;
  truncated = false;
  ip_version = version;
  arrived = [];
}

-- `UUID`, with SHA-1 and the hexadecimal coding of its sum as `digest`.
unfoldable pub uuid : (Bytes → Bytes) → Message → Bytes
uuid digest m =
    if m.is_incoming then digest (m.src_addr ++ m.dst_addr) else digest (m.dst_addr ++ m.src_addr)

unfoldable pub add : Message → Packet → Message
add m p = record m {
  size = m.size + length p.payload;
  lost_data = m.lost_data + p.lost;
  packets = m.packets ++ (p ∷ []);
  content = m.content ++ p.payload;
  end_time = p.timestamp;
}

-- `sort.SliceStable` by the sequence number: a packet goes in front of the later ones that are
-- not below it.
unfoldable pub place : Packet → List Packet → List Packet
place p [] = p ∷ []
place p (q ∷ qs) = let rest = place p qs in if leb p.seq q.seq then p ∷ (q ∷ qs) else q ∷ rest

unfoldable pub sort_packets : List Packet → List Packet
sort_packets [] = []
sort_packets (p ∷ ps) = place p (sort_packets ps)

unfoldable pub sort : Message → Message
sort m = record m { packets = sort_packets m.packets }
