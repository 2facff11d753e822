-- ===== src/Proto/Payload/Examples.antt =====
-- `HasFullPayload` at concrete payloads.
use goreplay.Base.{◌≡◌, refl, inr, true, Bytes, codes, List, done, arith, [], ◌∷◌, index}
use goreplay.Proto.Headers.{equal_fold}
use goreplay.Proto.Headers.Fields.{Field, IsField, message}
use goreplay.Proto.Chunked.Encoding.{encode}
use goreplay.Proto.Payload.{has_full_payload}
use goreplay.Proto.Payload.Complete.{has_full_payload-encode}
use goreplay.Proto.Examples.{get_title, host, content_length}
use goreplay.Proto.Chunked.Examples.{hello, last_chunk, hello-IsChunk, last-IsChunk}

abbrev with_length : Bytes → List Field
with_length n = host ∷ content_length n ∷ []

abbrev coding : Field
coding = record {
  name = codes "Transfer-Encoding";
  lead = codes " ";
  value = codes "chunked";
  trail = [];
}

coding-IsField : IsField coding
coding-IsField = record {
  name_no_colon = omega arith;
  name_no_newline = omega arith;
  lead_blank = omega arith;
  value_no_newline = omega arith;
  trail_blank = tt;
  trimmed = inr (record {
    first = b'c';
    behind = codes "hunked";
    last = b'd';
    before = codes "chunke";
    starts = refl;
    ends = refl;
    first_solid = omega arith;
    last_solid = omega arith;
  });
}

has_full_payload-encode_example :
    has_full_payload (message get_title (coding ∷ []) (encode (hello ∷ []) last_chunk []))
    ≡ done true
unfolding equal_fold index
has_full_payload-encode_example =
    has_full_payload-encode get_title (coding ∷ []) (hello ∷ []) last_chunk []
      (record { title_no_newline = omega arith; fields = (coding-IsField, tt) }) refl refl
      (hello-IsChunk, tt) ((λ e. cc), tt) last-IsChunk refl (omega arith)
