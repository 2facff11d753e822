-- ===== src/RawInput/Examples.antt =====
-- The theorem on a message at a concrete request.
use goreplay.Base.{◌≡◌, refl, Bytes, codes, done, true, false, [], ◌∷◌, arith}
use goreplay.Text.Decimal.{format_int, format_ℕ, digits}
use goreplay.Proto.Headers.{equal_fold}
use goreplay.Proto.Headers.Fields.{message, set_field}
use goreplay.Proto.Examples.{get_title, two_fields, two_fields-IsMessage}
use goreplay.Tcp.Message.{Message, uuid}
use goreplay.Protocol.{payload_meta, payload_body, payload_header}
use goreplay.RawInput.{read_raw, header_of}
use goreplay.RawInput.Reads.{read_raw-message}

abbrev caught : Message
caught = record {
  packets = [];
  content = message get_title two_fields [];
  lost_data = 0;
  size = 60;
  start_time = 100;
  end_time = 130;
  src_addr = codes "10.0.0.1:5000";
  dst_addr = codes "10.0.0.2:80";
  is_incoming = true;
  timed_out = false;
  truncated = false;
  ip_version = 4;
  arrived = [];
}

abbrev with_address : Bytes
with_address =
    message get_title (set_field (codes "X-Real-IP") (codes "10.0.0.1:5000") two_fields) []

read_raw-message_example :
    (text : Bytes) × (read_raw (λ s. codes "f4") (codes "X-Real-IP") 500 caught ≡ done text)
    × (payload_meta text ≡ codes "1" ∷ codes "f4" ∷ codes "100" ∷ codes "30" ∷ [])
    × (payload_body text ≡ with_address)
unfolding uuid header_of payload_header format_int format_ℕ digits equal_fold
read_raw-message_example =
    read_raw-message (λ s. codes "f4") b'X' (codes "-Real-IP") 500 caught get_title two_fields []
      refl refl two_fields-IsMessage (omega arith, omega arith) (omega arith)
