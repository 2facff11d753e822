-- ===== src/Kafka.antt =====
-- kafka.go: the text of a message, and the message of a record in output_kafka.go. The fields of a
-- header are a list, in the order in which `Dump` meets them; JSON and the brokers are outside.
pub mod Dump
use goreplay.Base.{
  Bytes, codes, Outcome, done, panic, ◌>>=◌, Option, none, some, List, [], ◌∷◌, ◌++◌,
}
use goreplay.Proto.Title.{method}
use goreplay.Proto.Path.{path}
use goreplay.Proto.Payload.{body}
use goreplay.Protocol.{payload_meta, payload_body}

pub record KafkaMessage : Type 0 where
  pub req_url : Bytes
  pub req_type : Bytes
  pub req_id : Bytes
  pub req_ts : Bytes
  pub req_method : Bytes
  pub req_body : Bytes
  pub req_headers : List (Bytes × Bytes)

unfoldable pub dump_headers : List (Bytes × Bytes) → Bytes → Bytes
dump_headers [] rest = rest
dump_headers ((key, value) ∷ more) rest =
    key ++ (b':' ∷ b' ' ∷ (value ++ (b'\r' ∷ b'\n' ∷ dump_headers more rest)))

-- `Dump`
unfoldable pub dump : KafkaMessage → Bytes
dump m =
    m.req_type
    ++ (b' '
        ∷ (m.req_id
            ++ (b' '
                ∷ (m.req_ts
                    ++ (b'\n'
                        ∷ (m.req_method
                            ++ (b' '
                                ∷ (m.req_url
                                    ++ (codes " HTTP/1.1"
                                        ++ (b'\r'
                                            ∷ b'\n'
                                            ∷ dump_headers m.req_headers
                                                (b'\r' ∷ b'\n' ∷ m.req_body)))))))))))

-- The message that `Write` makes of a record, with what `proto.ParseHeaders` gives.
unfoldable pub message_of : (Bytes → List (Bytes × Bytes)) → Bytes → Outcome KafkaMessage
message_of parse_headers payload =
    let req = payload_body payload in
    elim (payload_meta payload) [
      | a ∷ (id ∷ (ts ∷ more)) ↦ do
        url ← path req
        text ← body req
        word ← method req
        done (record {
          req_url = url;
          req_type = a;
          req_id = id;
          req_ts = ts;
          req_method = word;
          req_body = text;
          req_headers = parse_headers payload;
        })
      | _ ↦ panic
    ]
