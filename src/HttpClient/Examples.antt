-- ===== src/HttpClient/Examples.antt =====
-- The client at concrete responses.
use goreplay.Base.{
  ◌≡◌, refl, inr, true, false, Bytes, codes, none, some, done, List, [], ◌∷◌, take, drop, arith,
  equal, has_prefix,
}
use goreplay.Text.Ints.{negsuc}
use goreplay.Text.Numbers.{int_of, parse_signed, read_uint}
use goreplay.Proto.Headers.{equal_fold}
use goreplay.Text.Split.{has_suffix}
use goreplay.Proto.Headers.Fields.{Field, IsField, message}
use goreplay.Proto.Headers.Refine.{IsMessage}
use goreplay.Proto.Title.{parse_status}
use goreplay.Proto.Title.Status.{status_text}
use goreplay.Proto.Title.Responses.{status_line}
use goreplay.HttpClient.{Config, Conn, Client, opened, connect, prepare, for_proxy, send}
use goreplay.HttpClient.Receive.{fine, Answer, initial, receive}
use goreplay.HttpClient.Delivery.{IsResponse, send-IsResponse}
use goreplay.HttpClient.ChunkedEnd.{receive-EndsLast}

abbrev two_bytes : Field
two_bytes = record {
  name = codes "Content-Length";
  lead = codes " ";
  value = codes "2";
  trail = [];
}

two_bytes-IsField : IsField two_bytes
two_bytes-IsField = record {
  name_no_colon = omega arith;
  name_no_newline = omega arith;
  lead_blank = omega arith;
  value_no_newline = omega arith;
  trail_blank = tt;
  trimmed = inr (record {
    first = b'2';
    behind = [];
    last = b'2';
    before = [];
    starts = refl;
    ends = refl;
    first_solid = omega arith;
    last_solid = omega arith;
  });
}

ok-IsResponse : IsResponse b'2' b'0' b'0' (codes "OK") (two_bytes ∷ []) 2
unfolding parse_status status_text int_of parse_signed read_uint equal equal_fold
ok-IsResponse = record {
  standard = record { status = 200; parsed = refl; known = refl; plain = omega arith };
  well_formed = record { title_no_newline = omega arith; fields = (two_bytes-IsField, tt) };
  is_final = refl;
  has_body = refl;
  not_chunked = refl;
  given = refl;
  length_is = refl;
}

abbrev plain_config : Config
plain_config = record { follow_redirects = 2; original_host = true; response_buffer_size = 1000 }

abbrev ok_response : Bytes
ok_response = message (status_line (codes "200") (codes "OK")) (two_bytes ∷ []) (codes "hi")

abbrev answering : List Answer → Conn
answering answers = record { answers = answers; refuses = false }

abbrev new_client : Client
new_client = record {
  base_url = codes "http://a.b";
  scheme = codes "http";
  host = codes "a.b";
  auth = [];
  is_proxy = false;
  proxy_auth = [];
  conn = none;
  redirects_count = 0;
  dials =
      some (
        answering
          ((take 20 ok_response, fine) ∷ (drop 20 ok_response, fine) ∷ (codes "HTTP", fine) ∷ []))
      ∷ [];
  sent = [];
}

send-IsResponse_example :
    send 1 plain_config [] new_client (codes "GET / HTTP/1.1\r\n\r\n")
    ≡ done (record {
      client = record new_client {
        conn = some (answering ((codes "HTTP", fine) ∷ []));
        dials = [];
        sent = codes "GET / HTTP/1.1\r\n\r\n" ∷ [];
      };
      response = ok_response;
      ok = true;
    })
unfolding opened connect prepare for_proxy has_prefix equal
send-IsResponse_example =
    send-IsResponse b'2' b'0' b'0' (codes "OK") (two_bytes ∷ []) 2 ok-IsResponse plain_config
      (codes "hi") ((codes "HTTP", fine) ∷ []) refl (omega arith) (omega arith) 0 []
      (codes "GET / HTTP/1.1\r\n\r\n") (codes "GET / HTTP/1.1\r\n\r\n") new_client
      (record new_client {
        conn = some (
            answering (
              (take 20 ok_response, fine)
              ∷ (drop 20 ok_response, fine)
              ∷ (codes "HTTP", fine)
              ∷ []));
        dials = [];
      })
      (take 20 ok_response ∷ drop 20 ok_response ∷ []) refl refl refl ((λ e. cc), ((λ e. cc), tt))
      refl

abbrev chunked_coding : Field
chunked_coding = record {
  name = codes "Transfer-Encoding";
  lead = codes " ";
  value = codes "chunked";
  trail = [];
}

chunked-IsMessage : IsMessage (codes "HTTP/1.1 200 OK") (chunked_coding ∷ [])
chunked-IsMessage = record {
  title_no_newline = omega arith;
  fields = (
    record {
      name_no_colon = omega arith;
      name_no_newline = omega arith;
      lead_blank = omega arith;
      value_no_newline = omega arith;
      trail_blank = tt;
      trimmed = inr (record {
        first = b'c';
        behind = codes "hunked";
        last = b'd';
        before = codes "chunke";
        starts = refl;
        ends = refl;
        first_solid = omega arith;
        last_solid = omega arith;
      });
    },
    tt,
  );
}

-- The first chunk, of 16 bytes, ends as a last chunk does: the rest of it and the last chunk stay on the connection.
receive-EndsLast_example :
    receive 2 1000 (initial []) (
      (message (codes "HTTP/1.1 200 OK") (chunked_coding ∷ []) (codes "10\r\nabc"), fine)
      ∷ (codes "0\r\n\r\n", fine)
      ∷ (codes "12345678\r\n0\r\n\r\n", fine)
      ∷ [])
    ≡ done (
      record {
        text = message (codes "HTTP/1.1 200 OK") (chunked_coding ∷ []) (codes "10\r\nabc0\r\n\r\n");
        received = 59;
        chunked = true;
        content_length = negsuc 0;
        current = 12;
      },
      fine,
      false,
      (codes "12345678\r\n0\r\n\r\n", fine) ∷ [],
    )
unfolding has_suffix equal_fold has_prefix
receive-EndsLast_example =
    receive-EndsLast (codes "HTTP/1.1 200 OK") (chunked_coding ∷ []) chunked-IsMessage refl 1000
      ((codes "12345678\r\n0\r\n\r\n", fine) ∷ []) 1 (codes "10\r\nabc") (codes "0\r\n\r\n" ∷ [])
      ((λ e. cc), tt) (refl, refl) (omega arith) (omega arith) (omega arith)
