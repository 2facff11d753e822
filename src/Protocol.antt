-- ===== src/Protocol.antt =====
-- protocol.go: the records that inputs and outputs exchange, a header line and a payload behind it.
pub mod Records
pub mod Stream
pub mod Lines
pub mod Examples
use goreplay.Base.{
  ℕ, zero, suc, ◌+◌, Bool, true, false, ◌&&◌, ◌||◌, Bytes, Outcome, done, panic, timeout, ◌>>=◌,
  Option, none, some, List, [], ◌∷◌, ◌++◌, length, take, drop, replicate, ltb, leb, ◌==◌,
  if◌then◌else◌, index, index_byte,
}
use goreplay.Text.Ints.{ℤ}
use goreplay.Text.Decimal.{format_int}
use goreplay.Text.Hex.{hex_encode, hex_decode}
use goreplay.Text.Split.{split_byte}

abbrev pub request_payload : ℕ
request_payload = b'1'

abbrev pub response_payload : ℕ
response_payload = b'2'

abbrev pub replayed_response_payload : ℕ
replayed_response_payload = b'3'

-- The UTF-8 bytes of the separator: a line feed, three monkeys and a line feed.
abbrev pub payload_separator : Bytes
payload_separator =
    10 ∷ 240 ∷ 159 ∷ 144 ∷ 181 ∷ 240 ∷ 159 ∷ 153 ∷ 136 ∷ 240 ∷ 159 ∷ 153 ∷ 137 ∷ 10 ∷ []

-- `payloadScanner`: how far the scanner advances, and the token if there is one.
unfoldable pub payload_scanner : Bytes → Bool → ℕ × Option Bytes
payload_scanner s at_eof =
    if at_eof && length s == 0 then (0, none) else elim (index s payload_separator) [
      | some i ↦ (i + length payload_separator, some (take i s))
      | none ↦ if at_eof then (length s, some s) else (0, none)
    ]

-- `payloadHeader`: the type and the identifier, and two numbers in decimal.
unfoldable pub payload_header : ℕ → Bytes → ℤ → ℤ → Bytes
payload_header payload_type uuid timing latency =
    payload_type
    ∷ (b' '
        ∷ (uuid ++ (b' ' ∷ (format_int timing ++ (b' ' ∷ (format_int latency ++ (b'\n' ∷ [])))))))

-- With no line feed `headerSize` is -1, and the slice starts at 0.
unfoldable pub payload_body : Bytes → Bytes
payload_body payload = elim (index_byte payload b'\n') [
  | none ↦ payload
  | some i ↦ drop (i + 1) payload
]

unfoldable pub payload_meta : Bytes → List Bytes
payload_meta payload = elim (index_byte payload b'\n') [
  | none ↦ []
  | some i ↦ split_byte (take i payload) b' '
]

-- `hex.Decode` into the 20 bytes that `make` gives: a longer identifier is out of range.
unfoldable pub decode_id : Bytes → Outcome Bytes
decode_id text =
    let id = (hex_decode text).0 in
    if ltb 20 (length id) then panic else done (id ++ drop (length id) (replicate 20 0))

unfoldable pub payload_id : Bytes → Outcome Bytes
payload_id payload = elim (payload_meta payload) [
  | [] ↦ done []
  | a ∷ rest ↦ elim rest [ [] ↦ done [] | id ∷ more ↦ decode_id id ]
]

unfoldable pub is_origin_payload : Bytes → Outcome Bool
is_origin_payload [] = panic
is_origin_payload (c ∷ s) = done (c == request_payload || c == response_payload)

unfoldable pub is_request_payload : Bytes → Outcome Bool
is_request_payload [] = panic
is_request_payload (c ∷ s) = done (c == request_payload)

-- `randByte` on the bytes that `rand.Read` gives, and `uuid`: 24 hexadecimal digits of 12 bytes.
unfoldable pub rand_byte : Bytes → Bytes
rand_byte random = hex_encode random
