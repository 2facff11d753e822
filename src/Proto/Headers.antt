-- ===== src/Proto/Headers.antt =====
-- proto/proto.go: the header section of a payload: positions, lookup, and the edits built on it.
-- A position of -1 is `none`; the search loops take fuel, one round more than the payload is long.
pub mod Fields
pub mod Trim
pub mod Scan
pub mod Locate
pub mod Refine
pub mod Splits
pub mod Edits
pub mod Faults
use goreplay.Base.{
  ℕ, zero, suc, ◌+◌, ◌-◌, Bool, true, false, ◌&&◌, Bytes, Outcome, done, panic, timeout, ◌>>=◌,
  Option, none, some, [], ◌∷◌, ◌++◌, slice_from, slice, length, get_elem?, ltb, leb, ◌==◌,
  if◌then◌else◌, index, index_byte, replicate,
}
use goreplay.ByteUtils.{cut, insert, replace, copy_from}

abbrev pub crlf : Bytes
crlf = b'\r' ∷ b'\n' ∷ []

abbrev pub empty_line : Bytes
empty_line = b'\r' ∷ b'\n' ∷ b'\r' ∷ b'\n' ∷ []

abbrev pub header_delim : Bytes
header_delim = b':' ∷ b' ' ∷ []

unfoldable pub mime_headers_end_pos : Bytes → Option ℕ
mime_headers_end_pos payload = elim (index payload empty_line) [
  | none ↦ none
  | some pos ↦ some (pos + 4)
]

unfoldable pub mime_headers_start_pos : Bytes → Option ℕ
mime_headers_start_pos payload = elim (index payload crlf) [
  | none ↦ none
  | some pos ↦ some (pos + 2)
]

-- `bytes.EqualFold` on ASCII text.
abbrev pub to_lower : ℕ → ℕ
to_lower c = if leb b'A' c && leb c b'Z' then c + 32 else c

unfoldable pub equal_fold : Bytes → Bytes → Bool
equal_fold [] [] = true
equal_fold (x ∷ xs) (y ∷ ys) = to_lower x == to_lower y && equal_fold xs ys
equal_fold _ _ = false

-- What `header` returns when the header is there.
pub record Found : Type 0 where
  pub value : Bytes
  pub header_start : ℕ
  pub header_end : ℕ
  pub value_start : ℕ
  pub value_end : ℕ

-- The first loop of `header`: the start of the header's line, its end, and the colon.
unfoldable pub find_line : ℕ → Bytes → Bytes → ℕ → Outcome (Option (ℕ × ℕ × ℕ))
find_line zero payload name header_start = timeout
find_line (suc fuel) payload name header_start =
    let visit : Outcome (Option (ℕ × ℕ × ℕ)) = do
      rest ← slice_from payload header_start
      elim (index_byte rest b'\n') [
        | none ↦ done none
        | some n ↦ do
          text ← slice payload header_start (header_start + n)
          elim (index_byte text b':') [
            | none ↦ done none
            | some k ↦ do
              label ← slice payload header_start (header_start + k)
              let next = find_line fuel payload name (header_start + n + 1)
              if equal_fold label name
                  then done (some (header_start, header_start + n, header_start + k))
                  else next
          ]
      ]
    in if ltb header_start (length payload) then visit else done none

-- The second loop: blanks behind the colon.
unfoldable pub trim_start : ℕ → Bytes → ℕ → ℕ → Outcome ℕ
trim_start zero payload value_start value_end = timeout
trim_start (suc fuel) payload value_start value_end =
    let next = trim_start fuel payload (value_start + 1) value_end in
    if ltb value_start value_end
    then elim (get_elem? payload value_start) [
      | none ↦ panic
      | some c ↦ if ltb c 0x21 then next else done value_start
    ]
    else done value_start

-- The third loop: blanks at the end of the value.
unfoldable pub trim_end : ℕ → Bytes → ℕ → ℕ → Outcome ℕ
trim_end zero payload value_start value_end = timeout
trim_end (suc fuel) payload value_start value_end =
    let next = trim_end fuel payload value_start (value_end - 1) in
    if ltb value_start value_end
    then elim (get_elem? payload value_end) [
      | none ↦ panic
      | some c ↦ if ltb c 0x21 then next else done value_end
    ]
    else done value_end

-- The part of `header` behind the search. The line holds a colon and stands behind the first
-- line's end, so `header_end` is at least 3 and `header_end - 2` does not go below zero.
unfoldable pub locate : Bytes → ℕ × ℕ × ℕ → Outcome Found
locate payload (header_start, header_end, colon) = do
  value_start ← trim_start (suc (length payload)) payload (colon + 1) (header_end - 2)
  value_end ← trim_end (suc (length payload)) payload value_start (header_end - 2)
  value ← slice payload value_start (value_end + 1)
  done (record {
    value = value;
    header_start = header_start;
    header_end = header_end;
    value_start = value_start;
    value_end = value_end;
  })

unfoldable pub header : Bytes → Bytes → Outcome (Option Found)
header payload name = elim (mime_headers_start_pos payload) [
  | none ↦ done none
  | some start ↦ do
    line ← find_line (suc (length payload)) payload name start
    elim line [ none ↦ done none | some at ↦ do found ← locate payload at; done (some found) ]
]

-- `Header`: blank if the header is not there.
unfoldable pub header_value : Bytes → Bytes → Outcome Bytes
header_value payload name = do
  found ← header payload name
  elim found [ none ↦ done [] | some h ↦ done h.value ]

-- The four copies of `AddHeader` into its fresh buffer.
unfoldable pub header_line : Bytes → Bytes → Outcome Bytes
header_line name value = do
  let buf = replicate (length name + 2 + length value + 2) 0
  a ← copy_from buf 0 name
  b ← copy_from a (length name) header_delim
  c ← copy_from b (length name + 2) value
  copy_from c (length c - 2) crlf

-- With no line end in the payload the position is -1, and the insertion there panics.
unfoldable pub add_header : Bytes → Bytes → Bytes → Outcome Bytes
add_header payload name value = do
  line ← header_line name value
  elim (mime_headers_start_pos payload) [ none ↦ panic | some start ↦ insert payload start line ]

unfoldable pub set_header : Bytes → Bytes → Bytes → Outcome Bytes
set_header payload name value = do
  found ← header payload name
  elim found [
    | none ↦ add_header payload name value
    | some h ↦ replace payload h.value_start (h.value_end + 1) value
  ]

unfoldable pub delete_header : Bytes → Bytes → Outcome Bytes
delete_header payload name = do
  found ← header payload name
  elim found [ none ↦ done payload | some h ↦ cut payload h.header_start (h.header_end + 1) ]
