-- ===== src/Emitter/Examples.antt =====
-- Runs of `CopyMulty`, and its theorems at concrete records.
use goreplay.Base.{
  ◌≡◌, refl, ap, ◌∙◌, ℕ, Bytes, codes, done, some, none, List, [], ◌∷◌, ◌++◌, true, false, length,
  arith, index_byte, index, equal,
}
use goreplay.Text.Ints.{pos}
use goreplay.Text.Split.{split_byte}
use goreplay.Proto.Title.{
  has_request_title, method, count_byte, one_of, request_version, parse_http_version,
}
use goreplay.Tcp.Store.{lookup}
use goreplay.Modifier.{Config, method_allowed, any_of, rewrite}
use goreplay.Protocol.{payload_header, payload_meta, request_payload, response_payload}
use goreplay.Emitter.{Options, start, copy_multy}
use goreplay.Emitter.Dispatch.{never}
use goreplay.Emitter.Simulation.{IsOther}
use goreplay.Emitter.Delayed.{copy_multy-pair}

abbrev split : Options
split = record {
  modifier = none;
  prettify = none;
  split_output = true;
  recognize_sessions = false;
  is_pro = false;
  hash = length;
}

abbrev three_reads : List (ℕ × Bytes)
three_reads = (5, codes "1 a 2\nx") ∷ ((6, codes "2 a 3\n") ∷ ((7, codes "1 b 4\n") ∷ []))

abbrev get_only : Config
get_only = record {
  codecs = record { hash = length; decode = λ s. s };
  url_negative_regexps = [];
  url_regexps = [];
  url_rewrites = [];
  header_rewrites = [];
  header_filters = [];
  header_negative_filters = [];
  basic_auth_filters = [];
  header_hash_filters = [];
  param_hash_filters = [];
  params = [];
  headers = [];
  methods = codes "GET" ∷ [];
}

abbrev post : Bytes
post = codes "POST / HTTP/1.1\r\n\r\n"

post_dropped : rewrite get_only post ≡ done []
unfolding rewrite method_allowed any_of has_request_title method count_byte one_of request_version
    parse_http_version index index_byte equal
post_dropped = refl

abbrev second : List Bytes → Bytes
second (a ∷ (b ∷ more)) = b
second _ = []

two_b-IsOther : IsOther (codes "id") (codes "2 b 3\n")
unfolding payload_meta split_byte index_byte
two_b-IsOther a id b more e same = let different : codes "b" ≡ codes "id" = ap second e ∙ same in cc

copy_multy-pair_example :
    copy_multy
      (record split { modifier = some get_only })
      never
      2
      (start 5)
      ((6, payload_header request_payload (codes "id") (pos 1) (pos 2) ++ post)
        ∷ ((6, codes "2 b 3\n")
            ∷ ((
              7,
              payload_header response_payload (codes "id") (pos 3) (pos 4)
                  ++ codes "HTTP/1.1 200 OK",
            )
                ∷ [])))
    ≡ copy_multy
        (record split { modifier = some get_only })
        never
        2
        (start 5)
        ((6, codes "2 b 3\n") ∷ [])
unfolding lookup
copy_multy-pair_example =
    copy_multy-pair (record split { modifier = some get_only }) never 2 get_only (codes "id")
      (start 5) 6 7 response_payload (pos 1) (pos 3) (pos 2) (pos 4) post (codes "HTTP/1.1 200 OK")
      ((6, codes "2 b 3\n") ∷ []) [] refl (omega arith, omega arith) post_dropped refl
      ((λ e. omega arith), (λ e. omega arith)) (λ e. omega arith) ((omega arith, two_b-IsOther), tt)
