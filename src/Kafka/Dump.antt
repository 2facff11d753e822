-- ===== src/Kafka/Dump.antt =====
-- What the inputs read of the text of a message.
use goreplay.Base.{
  ℕ, ◌+◌, ◌≡◌, refl, sym, ap, ◌∙◌, Bytes, codes, done, some, List, [], ◌∷◌, ◌++◌, append_assoc, map,
  Lacks, length, length-append, drop, drop-append, index_byte, index_byte-append, arith,
}
use goreplay.Proto.Headers.Fields.{Field, message, render}
use goreplay.Proto.Headers.Refine.{IsMessage}
use goreplay.Proto.Payload.{body}
use goreplay.Proto.Payload.EndPos.{body-message}
use goreplay.Proto.Title.Requests.{title}
use goreplay.Protocol.{payload_body}
use goreplay.Kafka.{KafkaMessage, dump_headers, dump}

abbrev field_of : Bytes × Bytes → Field
field_of (key, value) = record { name = key; lead = b' ' ∷ []; value = value; trail = [] }

abbrev words : KafkaMessage → Bytes
words m = m.req_type ++ (b' ' ∷ (m.req_id ++ (b' ' ∷ m.req_ts)))

-- The title and the fields that a message has in its text.
abbrev pub title_of : KafkaMessage → Bytes
title_of m = title m.req_method m.req_url (codes "HTTP/1.1")

abbrev pub fields_of : KafkaMessage → List Field
fields_of m = map field_of m.req_headers

dump_headers-render :
    (hs : List (Bytes × Bytes)) (rest : Bytes)
    → dump_headers hs rest ≡ render (map field_of hs) rest
unfolding dump_headers
dump_headers-render [] rest = refl
dump_headers-render ((key, value) ∷ hs) rest =
    ap (λ u. key ++ (b':' ∷ (b' ' ∷ u)))
      (ap (λ u. value ++ (b'\r' ∷ (b'\n' ∷ u))) (dump_headers-render hs rest)
        ∙ sym (append_assoc value (b'\r' ∷ []) (b'\n' ∷ render (map field_of hs) rest)))

dump-shape :
    (m : KafkaMessage) → dump m ≡ words m ++ (b'\n' ∷ message (title_of m) (fields_of m) m.req_body)
unfolding dump
dump-shape m =
    simp (append_assoc {A = ℕ}, dump_headers-render m.req_headers (b'\r' ∷ (b'\n' ∷ m.req_body)))
      refl

-- The text of a message is a record whose payload is the request with its fields, and the body is read
-- back from it, if the words of the header hold no line feed.
pub body-dump :
    (m : KafkaMessage)
    → Lacks b'\n' (words m)
    → IsMessage (title_of m) (fields_of m)
    → (payload_body (dump m) ≡ message (title_of m) (fields_of m) m.req_body)
      × (body (payload_body (dump m)) ≡ done m.req_body)
unfolding payload_body
body-dump m h w = (behind, ap body behind ∙ body-message (title_of m) (fields_of m) m.req_body w)
  where
    rest : Bytes
    rest = message (title_of m) (fields_of m) m.req_body

    line_end : index_byte (dump m) b'\n' ≡ some (length (words m))
    line_end =
        ap (λ u. index_byte u b'\n') (dump-shape m) ∙ index_byte-append (words m) rest b'\n' h

    behind : payload_body (dump m) ≡ rest
    behind =
        rw (line_end, payload_body)
          (ap (drop (length (words m) + 1))
              (dump-shape m ∙ sym (append_assoc (words m) (b'\n' ∷ []) rest))
            ∙ drop-append (words m ++ (b'\n' ∷ [])) rest _
                (omega (arith, length-append (words m) (b'\n' ∷ []))))
