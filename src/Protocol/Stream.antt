-- ===== src/Protocol/Stream.antt =====
-- input_tcp.go: `handleConnection`, and the loop that it shares with `parseNext` of input_file.go: lines
-- are gathered until one is the separator without its leading line feed. A stream is the bytes that
-- are still to be read. Each round takes a unit of fuel, and passes a line.
use goreplay.Base.{
  ℕ, zero, suc, ◌+◌, ◌-◌, Bytes, Outcome, done, panic, timeout, ◌>>=◌, Option, none, some, List, [],
  ◌∷◌, ◌++◌, length, take, drop, ◌==◌, if◌then◌else◌, index_byte, equal,
}
use goreplay.Protocol.{payload_separator}

-- `payloadSeparatorAsBytes[1:]`
abbrev pub separator_line : Bytes
separator_line = drop 1 payload_separator

-- `ReadBytes('\n')`, with `none` at the end of the stream: what stands behind the last line feed is
-- given with an error, and the code drops it.
unfoldable pub read_line : Bytes → Option (Bytes × Bytes)
read_line s = elim (index_byte s b'\n') [
  | none ↦ none
  | some i ↦ some (take (i + 1) s, drop (i + 1) s)
]

-- The lines in front of the next separator, and the stream behind it.
unfoldable pub read_record : ℕ → Bytes → Bytes → Outcome (Option (Bytes × Bytes))
read_record zero buffer s = timeout
read_record (suc fuel) buffer s = elim (read_line s) [
  | none ↦ done none
  | some (line, rest) ↦
      let more = read_record fuel (buffer ++ line) rest in
      if equal line separator_line then done (some (buffer, rest)) else more
]

-- `handleConnection`: the payloads that it sends on.
unfoldable pub handle_connection : ℕ → Bytes → Outcome (List Bytes)
handle_connection zero s = timeout
handle_connection (suc fuel) s = do
  next ← read_record (suc (length s)) [] s
  elim next [
    | none ↦ done []
    | some (buffer, rest) ↦
        let later = handle_connection fuel rest in
        if length buffer == 0
        then panic
        else (do payloads ← later; done (take (length buffer - 1) buffer ∷ payloads))
  ]

-- The two writes of `worker` in output_tcp.go, and of `Write` in output_file.go.
unfoldable pub write_record : Bytes → Bytes
write_record payload = payload ++ payload_separator

abbrev pub write_records : List Bytes → Bytes
write_records [] = []
write_records (r ∷ rs) = write_record r ++ write_records rs
