-- ===== src/Proto/Payload.antt =====
-- proto/proto.go: `Body` and `HasFullPayload`.
pub mod EndPos
pub mod Complete
pub mod Examples
use goreplay.Base.{
  ℕ, ◌+◌, Bool, true, false, Bytes, codes, Outcome, done, ◌>>=◌, Option, none, some, [], slice_from,
  length, ltb, ◌==◌, if◌then◌else◌, index,
}
use goreplay.Proto.Chunked.{atoi, check_chunked}
use goreplay.Proto.Headers.{mime_headers_end_pos, header_value}

abbrev is_some {ℓ} : {A : Type ℓ} → Option A → Bool
is_some none = false
is_some (some a) = true

-- `bytes.Contains`
abbrev pub contains : Bytes → Bytes → Bool
contains s sub = is_some (index s sub)

unfoldable pub body : Bytes → Outcome Bytes
body payload = elim (mime_headers_end_pos payload) [
  | none ↦ done []
  | some pos ↦ slice_from payload pos
]

-- Whether the headers of a payload say that its body is in the chunked coding.
abbrev pub chunked : Bytes
chunked = codes "chunked"

-- `HasFullPayload` on a body in the chunked coding.
unfoldable pub has_full_chunks : Bytes → Bytes → Outcome Bool
has_full_chunks payload body = if ltb (length body) 1 then done false else (do
  checked ← check_chunked body
  elim checked [
    | none ↦ done false
    | some chunk_end ↦ if ltb chunk_end 1 then done false else (do
      trailer ← header_value payload (codes "Trailer")
      if ltb (length trailer) 1
          then done true
          else (if ltb chunk_end (length body)
              then (do rest ← slice_from body chunk_end; done (is_some (mime_headers_end_pos rest)))
              else done false))
  ])

-- `HasFullPayload` on any other body. The number is compared as a 64-bit pattern.
unfoldable pub has_full_length : Bytes → Bytes → Outcome Bool
has_full_length payload body = do
  len ← header_value payload (codes "Content-Length")
  if ltb 1 (length len)
      then done (elim (atoi len 10) [ none ↦ false | some num ↦ num == length body ])
      else done (is_some (mime_headers_end_pos payload))

unfoldable pub has_full_payload : Bytes → Outcome Bool
has_full_payload payload = do
  rest ← body payload
  coding ← header_value payload (codes "Transfer-Encoding")
  if contains coding chunked then has_full_chunks payload rest else has_full_length payload rest
