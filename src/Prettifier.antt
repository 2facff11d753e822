-- ===== src/Prettifier.antt =====
-- http_prettifier.go: `prettifyHTTP`, with `ParseHeaders` of proto/proto.go. ReadMIMEHeader of net/textproto, the
-- reader of chunked bodies of net/http and gzip are arguments.
pub mod Sections
pub mod Plain
pub mod Examples
use goreplay.Base.{
  ℕ, ◌+◌, ◌-◌, Bool, true, false, ◌&&◌, ◌||◌, Bytes, codes, Outcome, done, ◌>>=◌, Option, none,
  some, List, [], ◌∷◌, ◌++◌, length, take, drop, ltb, if◌then◌else◌, equal, index_byte,
}
use goreplay.Modifier.{is_nil}
use goreplay.Text.Decimal.{format_ℕ}
use goreplay.Proto.Title.{has_title}
use goreplay.Proto.Headers.{
  equal_fold, mime_headers_start_pos, mime_headers_end_pos, set_header, delete_header,
}

-- What the code calls: the fields of a header section, none where ReadMIMEHeader fails, the bytes of a chunked body,
-- and those of a gzip stream, none where gzip.NewReader fails.
pub record Readers : Type 0 where
  pub read_mime : Bytes → Option (List (Bytes × Bytes))
  pub dechunk : Bytes → Bytes
  pub gunzip : Bytes → Option Bytes

-- The payload behind its title; none if nothing is behind it.
unfoldable pub behind_title : Bytes → Outcome (Option Bytes)
behind_title p = do
  titled ← has_title p
  done (
      if titled
      then elim (mime_headers_start_pos p) [
        | none ↦ some p
        | some start ↦ if ltb (length p - 1) start then none else some (drop start p)
      ]
      else some p)

-- A header section up to its empty line, if there is one.
unfoldable pub header_section : Bytes → Bytes
header_section p = elim (mime_headers_end_pos p) [ none ↦ p | some pos ↦ take pos p ]

-- `ParseHeaders` of one payload: the fields that its callback is called with.
unfoldable pub parse_headers :
    (Bytes → Option (List (Bytes × Bytes))) → Bytes → Outcome (List (Bytes × Bytes))
parse_headers read_mime p = do
  section ← behind_title p
  done (elim section [
    | none ↦ []
    | some s ↦ elim (read_mime (header_section s)) [ none ↦ [] | some fields ↦ fields ]
  ])

-- The callback of `ParseHeaders`: the last value of that name.
unfoldable pub coding_of : Bytes → List (Bytes × Bytes) → Bytes → Bytes
coding_of name [] found = found
coding_of name ((header, value) ∷ more) found =
    coding_of name more (if equal_fold header name then value else found)

-- The headers without the coding, and with the length of the new content.
unfoldable pub recoded : Bytes → Bytes → Bytes → Outcome Bytes
recoded coding headers content = do
  rest ← delete_header headers coding
  set_header rest (codes "Content-Length") (format_ℕ (length content))

unfoldable pub unchunked : Readers → Bytes → Bytes → Bytes → Outcome (Bytes × Bytes)
unchunked r coding headers content =
    if equal coding (codes "chunked")
    then (do
      new ← recoded (codes "Transfer-Encoding") headers (r.dechunk content)
      done (new, r.dechunk content))
    else done (headers, content)

-- What `append` makes of the head, the headers and the content; nothing if the stream is no gzip.
unfoldable pub unzipped : Readers → Bytes → Bytes → Bytes → Bytes → Outcome Bytes
unzipped r coding head headers content =
    if equal coding (codes "gzip")
    then elim (r.gunzip content) [
      | none ↦ done []
      | some plain ↦ do
        new ← recoded (codes "Content-Encoding") headers plain
        done (head ++ (new ++ plain))
    ]
    else done (head ++ (headers ++ content))

-- Behind the head, the headers and the content apart; a message with no coding stays as it is.
unfoldable pub prettify_coded :
    Readers → Bytes → Bytes → Bytes → Bytes → Bytes → Bytes → Outcome Bytes
prettify_coded r payload head headers content transfer encoding =
    if is_nil transfer && is_nil encoding then done payload else (do
      (new, plain) ← unchunked r transfer headers content
      unzipped r encoding head new plain)

unfoldable pub prettify_parts : Readers → Bytes → Bytes → Bytes → Bytes → Outcome Bytes
prettify_parts r payload head headers content = do
  fields ← parse_headers r.read_mime headers
  prettify_coded r payload head headers content (coding_of (codes "Transfer-Encoding") fields [])
      (coding_of (codes "Content-Encoding") fields [])

abbrev pub head_line_size : Bytes → ℕ
head_line_size payload = elim (index_byte payload b'\n') [ none ↦ 0 | some i ↦ i + 1 ]

-- Behind the head line; a payload whose headers have no end stays as it is.
unfoldable pub prettify_body : Readers → Bytes → Bytes → Bytes → Outcome Bytes
prettify_body r payload head body = elim (mime_headers_end_pos body) [
  | none ↦ done payload
  | some pos ↦
      if ltb pos 5 || ltb (length body) pos
      then done payload
      else prettify_parts r payload head (take pos body) (drop pos body)
]

unfoldable pub prettify_http : Readers → Bytes → Outcome Bytes
prettify_http r payload =
    prettify_body r payload (take (head_line_size payload) payload)
      (drop (head_line_size payload) payload)
