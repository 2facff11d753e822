-- ===== src/Elasticsearch.antt =====
-- elasticsearch.go: the index of a URI, and the record that is indexed of a request and its response. url.Parse gives
-- the host and the path, or an error; the bulk indexer and JSON are outside.
pub mod Fields
use goreplay.Base.{
  ℕ, Bool, true, false, ◌||◌, Bytes, codes, Outcome, done, ◌>>=◌, Option, none, some, List, [], ◌∷◌,
  if◌then◌else◌,
}
use goreplay.Modifier.{is_nil}
use goreplay.Text.Split.{split_byte}
use goreplay.Protocol.{payload_body}
use goreplay.Proto.Headers.{header_value}
use goreplay.Proto.Path.{path}
use goreplay.Proto.Title.{method}

abbrev pub last_of : Bytes → List Bytes → Bytes
last_of p [] = p
last_of p (q ∷ more) = last_of q more

-- `parseURI`, of the host and the path: the index, and whether the URI has a host and an index.
unfoldable pub parse_uri : Option (Bytes × Bytes) → Bytes × Bool
parse_uri none = ([], false)
parse_uri (some (host, uri_path)) =
    let index = last_of [] (split_byte uri_path b'/') in
    (index, if is_nil host || is_nil index then false else true)

-- `ESRequestResponse` without its times.
pub record Indexed : Type 0 where
  pub req_url : Bytes
  pub req_method : Bytes
  pub req_headers : List Bytes
  pub resp_status : Bytes
  pub resp_status_code : Bytes
  pub resp_proto : Bytes
  pub resp_headers : List Bytes

abbrev pub request_names : List Bytes
request_names =
    codes "User-Agent"
    ∷ codes "Accept-Language"
    ∷ codes "Accept"
    ∷ codes "Accept-Encoding"
    ∷ codes "If-Modified-Since"
    ∷ codes "Connection"
    ∷ codes "Cookie"
    ∷ []

abbrev pub response_names : List Bytes
response_names =
    codes "Content-Length"
    ∷ codes "Content-Type"
    ∷ codes "Transfer-Encoding"
    ∷ codes "Content-Encoding"
    ∷ codes "Expires"
    ∷ codes "Cache-Control"
    ∷ codes "Vary"
    ∷ codes "Set-Cookie"
    ∷ []

unfoldable pub header_values : Bytes → List Bytes → Outcome (List Bytes)
header_values payload [] = done []
header_values payload (name ∷ more) = do
  v ← header_value payload name
  vs ← header_values payload more
  done (v ∷ vs)

-- `ResponseAnalyze`: nothing is indexed of an empty response.
unfoldable pub response_analyze : Bytes → Bytes → Outcome (Option Indexed)
response_analyze req resp = if is_nil resp then done none else (do
  let request = payload_body req
  url ← path request
  verb ← method request
  req_headers ← header_values request request_names
  status ← path resp
  proto ← method resp
  resp_headers ← header_values resp response_names
  done (
      some (record {
        req_url = url;
        req_method = verb;
        req_headers = req_headers;
        resp_status = status;
        resp_status_code = status;
        resp_proto = proto;
        resp_headers = resp_headers;
      })))
