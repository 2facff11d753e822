-- ===== src/Proto/Chunked.antt =====
-- proto/proto.go: `atoI` and `CheckChunked`. An `int` is kept as its 64-bit pattern where it can
-- wrap: a pattern of 2 ^ 63 or more stands for a negative number. Each round of `CheckChunked`
-- takes one unit of fuel.
pub mod Encoding
pub mod SizeLine
pub mod RoundTrip
pub mod Faults
pub mod Examples
use goreplay.Base.{
  ℕ, zero, suc, ◌+◌, ◌-◌, ◌*◌, ◌%◌, ◌^◌, Bool, true, false, not, ◌&&◌, Bytes, Outcome, done, panic,
  timeout, ◌>>=◌, Option, none, some, [], ◌∷◌, slice_from, slice, length, ltb, leb, ◌==◌,
  if◌then◌else◌, index_byte, equal,
}
use goreplay.Proto.Headers.{crlf}

abbrev pub word : ℕ
word = 2 ^ 64

abbrev pub sign : ℕ
sign = 2 ^ 63

-- `hexTable`: 0 for every byte that is no hexadecimal digit.
abbrev pub hex_value : ℕ → ℕ
hex_value c =
    if leb b'0' c && leb c b'9'
    then c - b'0'
    else if leb b'A' c && leb c b'F'
    then c - b'A' + 10
    else if leb b'a' c && leb c b'f'
    then c - b'a' + 10
    else 0

unfoldable pub atoi_from : ℕ → Bytes → ℕ → Option ℕ
atoi_from num [] base = some num
atoi_from num (c ∷ s) base =
    let rest = atoi_from ((num * base + hex_value c) % word) s base in
    if ltb 127 c then none else if leb base (hex_value c) then none else rest

abbrev pub atoi : Bytes → ℕ → Option ℕ
atoi s base = atoi_from 0 s base

-- `len(buf[chunkEnd:]) < chkLen+7` for signed numbers.
abbrev pub too_short : ℕ → ℕ → Bool
too_short remaining chk_len =
    let bound = (chk_len + 7) % word in if ltb bound sign then ltb remaining bound else false

-- `chunkEnd += chkLen`; a negative position panics in the slice that follows.
abbrev pub advance : ℕ → ℕ → Outcome ℕ
advance chunk_end chk_len =
    if ltb chk_len sign
    then done (chunk_end + chk_len)
    else if leb word (chunk_end + chk_len)
    then done (chunk_end + chk_len - word)
    else panic

-- The test that a line end stands at a position.
abbrev pub ends_line : Bytes → ℕ → Outcome Bool
ends_line buf pos = do two ← slice buf pos (pos + 2); done (equal two crlf)

-- What one round reads of the size line at `chunkEnd`: where the line ends, and the size.
unfoldable pub size_line : Bytes → ℕ → Outcome (Option (ℕ × ℕ))
size_line buf chunk_end = do
  rest ← slice_from buf chunk_end
  elim (index_byte rest b'\r') [
    | none ↦ done none
    | some sz ↦ if ltb sz 1 then done none else (do
      text ← slice buf chunk_end (chunk_end + sz)
      let ext : ℕ = elim (index_byte text b';') [ none ↦ sz | some k ↦ k ]
      digits ← slice buf chunk_end (chunk_end + ext)
      elim (atoi digits 16) [
        | none ↦ done none
        | some chk_len ↦ done (some (chunk_end + (sz + 2), chk_len))
      ])
  ]

-- What one round does behind the size line: the next `chunkEnd`, or the end of the loop.
pub data Round : Type 0 where
  again : ℕ → Round
  stop : Option ℕ → Round

unfoldable pub chunk_round : Bytes → ℕ → ℕ → Outcome Round
chunk_round buf chunk_end chk_len =
    let last : Outcome Round = do
      end ← ends_line buf chunk_end
      done (stop (if end then some (chunk_end + 2) else none))
    in let more : Outcome Round = do
      rest ← slice_from buf chunk_end
      if too_short (length rest) chk_len then done (stop none) else (do
        next ← advance chunk_end chk_len
        end ← ends_line buf next
        done (if end then again (next + 2) else stop none))
      in if chk_len == 0 then last else more

unfoldable pub check_from : ℕ → Bytes → ℕ → Outcome (Option ℕ)
check_from zero buf chunk_end = timeout
check_from (suc fuel) buf chunk_end = do
  sized ← size_line buf chunk_end
  elim sized [
    | none ↦ done none
    | some (pos, chk_len) ↦ do
      round ← chunk_round buf pos chk_len
      elim round [ again next ↦ check_from fuel buf next | stop r ↦ done r ]
  ]

unfoldable pub check_chunked : Bytes → Outcome (Option ℕ)
check_chunked buf = check_from (suc (length buf)) buf 0
