-- ===== src/RawInput.antt =====
-- input_raw.go: `Read` of a message that the pool has put together, the hints that the pool asks for, and
-- the statistics. The capture itself is outside.
pub mod Reads
pub mod Examples
use goreplay.Base.{
  ℕ, ◌+◌, ◌-◌, Bool, true, false, not, ◌&&◌, Bytes, Outcome, done, ◌>>=◌, List, [], ◌∷◌, ◌++◌,
  length, take, ltb, leb, if◌then◌else◌,
}
use goreplay.Text.Ints.{pos, sub_ℕ}
use goreplay.Modifier.{is_nil}
use goreplay.Proto.Headers.{set_header}
use goreplay.Proto.Title.{has_request_title, has_response_title}
use goreplay.Proto.Payload.{has_full_payload}
use goreplay.Tcp.Message.{Packet, Message, uuid}
use goreplay.Protocol.{payload_header, request_payload, response_payload}

-- The bytes of the message, with its source (address and port) in a header if the options name one.
unfoldable pub with_real_ip : Bytes → Message → Outcome Bytes
with_real_ip real_ip m =
    if m.is_incoming && not (is_nil real_ip)
    then set_header m.content real_ip m.src_addr
    else done m.content

abbrev pub type_of : Message → ℕ
type_of m = if m.is_incoming then request_payload else response_payload

unfoldable pub header_of : (Bytes → Bytes) → Message → Bytes
header_of digest m =
    payload_header (type_of m) (uuid digest m) (pos m.start_time) (sub_ℕ m.end_time m.start_time)

-- What the two copies leave in a buffer.
unfoldable pub copied : ℕ → Bytes → Bytes → Bytes
copied capacity head payload =
    take capacity head
    ++ (if ltb (length head) capacity then take (capacity - length head) payload else [])

-- `Read`
unfoldable pub read_raw : (Bytes → Bytes) → Bytes → ℕ → Message → Outcome Bytes
read_raw digest real_ip capacity m = do
  payload ← with_real_ip real_ip m
  done (copied capacity (header_of digest m) payload)

-- `startHint`
unfoldable pub start_hint : Packet → Outcome (Bool × Bool)
start_hint p = do
  request ← has_request_title p.payload
  response ← has_response_title p.payload
  done (request, response)

-- `endHint`
unfoldable pub end_hint : Message → Outcome Bool
end_hint m = has_full_payload m.content

-- `addStats`, with the statistics of the messages read so far.
unfoldable pub add_stats : Bool → List Message → Message → List Message
add_stats stats seen m =
    if not stats then seen else if leb 10000 (length seen) then m ∷ [] else seen ++ (m ∷ [])
