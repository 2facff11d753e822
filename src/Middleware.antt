-- ===== src/Middleware.antt =====
-- middleware.go: the lines of hexadecimal digits that the middleware's process reads and writes.
-- `prettifyHTTP` of http_prettifier.go is a parameter, and the process is the two streams.
pub mod Lines
pub mod Examples
use goreplay.Base.{
  ℕ, zero, suc, ◌+◌, ◌-◌, ◌*◌, ◌/◌, Bool, true, false, ◌||◌, Bytes, Outcome, done, panic, timeout,
  ◌>>=◌, Option, none, some, List, [], ◌∷◌, ◌++◌, length, take, drop, replicate, ltb, leb, ◌==◌,
  if◌then◌else◌,
}
use goreplay.Text.Hex.{hex_encode, hex_decode}
use goreplay.Protocol.Stream.{read_line}

abbrev pub buffer_size : ℕ
buffer_size = 5 * 1024 * 1024

-- The line of a payload: the buffer for it holds four times as many bytes as that for the reads. The
-- last panic comes behind the write, from the debugging output's slice of the buffer for the reads.
unfoldable pub hex_line : Bytes → Outcome (Option Bytes)
hex_line payload =
    if leb (buffer_size * 4) (length payload * 2)
    then panic
    else if ltb buffer_size (length payload)
    then panic
    else done (some (hex_encode payload ++ (b'\n' ∷ [])))

-- The line that `copy` writes for the `nr` bytes of one read; `none` where it continues without one.
-- With `PrettifyHTTP` the payload is rewritten twice, and only the first result is measured.
unfoldable pub copy_line : Option (Bytes → Outcome Bytes) → Bytes → Outcome (Option Bytes)
copy_line prettify payload =
    if length payload == 0 || ltb buffer_size (length payload) then done none else elim prettify [
      | none ↦ hex_line payload
      | some f ↦ do
        first ← f payload
        (if ltb (buffer_size * 4) (length first * 2)
            then done none
            else (do second ← f first; hex_line second))
    ]

unfoldable pub copy : Option (Bytes → Outcome Bytes) → List Bytes → Outcome Bytes
copy prettify [] = done []
copy prettify (p ∷ ps) = do
  line ← copy_line prettify p
  rest ← copy prettify ps
  done (elim line [ none ↦ rest | some l ↦ l ++ rest ])

-- `hex.Decode` of a line without its line feed, into half as many bytes as the line has; on a fault
-- the bytes behind it stay 0, and the payload is sent on all the same.
unfoldable pub decode_line : Bytes → Bytes
decode_line line =
    let size = length line / 2 in
    let decoded = (hex_decode (take (length line - 1) line)).0 in
    decoded ++ replicate (size - length decoded) 0

-- `read`: the payloads of the lines of a stream. At its end the loop asks again for ever.
unfoldable pub read : ℕ → Bytes → Outcome (List Bytes)
read zero s = timeout
read (suc fuel) s = elim (read_line s) [
  | none ↦ done []
  | some (line, rest) ↦ do more ← read fuel rest; done (decode_line line ∷ more)
]

-- `Read` of a payload into a buffer: what does not fit is lost.
unfoldable pub read_into : ℕ → Bytes → Bytes
read_into capacity payload = take capacity payload
