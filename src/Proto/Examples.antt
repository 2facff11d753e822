-- ===== src/Proto/Examples.antt =====
-- Header lookups and edits at concrete payloads.
use goreplay.Base.{
  ◌≡◌, refl, inl, inr, Bytes, codes, List, done, panic, arith, [], ◌∷◌, index, index_byte,
}
use goreplay.Proto.Headers.{
  header, header_value, add_header, set_header, delete_header, find_line, locate, trim_start,
  trim_end, equal_fold, mime_headers_start_pos,
}
use goreplay.Proto.Headers.Fields.{
  Field, IsField, message, add_field, set_field, delete_field, value_of,
}
use goreplay.Proto.Headers.Refine.{IsMessage}
use goreplay.Proto.Headers.Edits.{operations-message}
use goreplay.Proto.Headers.Faults.{header_value-panics}

abbrev pub get_title : Bytes
get_title = codes "GET / HTTP/1.1"

abbrev pub host : Field
host = record { name = codes "Host"; lead = codes " "; value = codes "a.b"; trail = [] }

abbrev empty_cookie : Field
empty_cookie = record { name = codes "Cookie"; lead = []; value = []; trail = [] }

abbrev pub content_length : Bytes → Field
content_length n = record {
  name = codes "Content-Length";
  lead = codes " ";
  value = n;
  trail = codes " ";
}

pub host-IsField : IsField host
host-IsField = record {
  name_no_colon = omega arith;
  name_no_newline = omega arith;
  lead_blank = omega arith;
  value_no_newline = omega arith;
  trail_blank = tt;
  trimmed = inr (record {
    first = b'a';
    behind = codes ".b";
    last = b'b';
    before = codes "a.";
    starts = refl;
    ends = refl;
    first_solid = omega arith;
    last_solid = omega arith;
  });
}

cookie-IsField : IsField empty_cookie
cookie-IsField = record {
  name_no_colon = omega arith;
  name_no_newline = omega arith;
  lead_blank = tt;
  value_no_newline = tt;
  trail_blank = tt;
  trimmed = inl (refl, refl, refl);
}

abbrev pub two_fields : List Field
two_fields = empty_cookie ∷ host ∷ []

pub two_fields-IsMessage : IsMessage get_title two_fields
two_fields-IsMessage = record {
  title_no_newline = omega arith;
  fields = (cookie-IsField, (host-IsField, tt));
}

message_test :
    message get_title two_fields (codes "xy")
    ≡ codes "GET / HTTP/1.1\r\nCookie:\r\nHost: a.b\r\n\r\nxy"
message_test = refl

operations-message_example :
    (header_value (message get_title two_fields []) (codes "Cookie")
      ≡ done (value_of (codes "Cookie") two_fields))
    × (set_header (message get_title two_fields []) (codes "Cookie") (codes "k=v")
        ≡ done (message get_title (set_field (codes "Cookie") (codes "k=v") two_fields) []))
    × (add_header (message get_title two_fields []) (codes "Cookie") (codes "k=v")
        ≡ done (message get_title (add_field (codes "Cookie") (codes "k=v") two_fields) []))
    × (delete_header (message get_title two_fields []) (codes "Cookie")
        ≡ done (message get_title (delete_field (codes "Cookie") two_fields) []))
operations-message_example =
    operations-message get_title two_fields [] two_fields-IsMessage (codes "Cookie") (codes "k=v")

header_value-panics_example :
    header_value (codes "GET / HTTP/1.1\r\nHost:\nA: b\r\n\r\n") (codes "host") ≡ panic
header_value-panics_example =
    header_value-panics get_title (codes "Host") (codes "A: b\r\n\r\n") (omega arith) (omega arith)
      (omega arith) (codes "host") (unfold equal_fold in refl)

-- A line that ends with a bare line feed also loses the last byte of its value.
bare_line_feed_test :
    header_value (codes "GET / HTTP/1.1\r\nA: bc\nB: d\r\n\r\n") (codes "A") ≡ done (codes "b")
unfolding header_value header find_line locate trim_start trim_end equal_fold mime_headers_start_pos
    index index_byte
bare_line_feed_test = refl

-- A value of one blank is not trimmed.
one_blank_test : header_value (codes "GET / HTTP/1.1\r\nA: \r\n\r\n") (codes "A") ≡ done (codes " ")
unfolding header_value header find_line locate trim_start trim_end equal_fold mime_headers_start_pos
    index index_byte
one_blank_test = refl
