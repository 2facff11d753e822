-- ===== src/Prettifier/Examples.antt =====
-- The prettifier at a concrete chunked response.
use goreplay.Base.{◌-◌, codes, none, some, [], ◌∷◌, take, drop}
use goreplay.Proto.Headers.Fields.{Field}
use goreplay.Proto.Chunked.Encoding.{Chunk}
use goreplay.Text.Decimal.{digits}
use goreplay.Text.Split.{split_two, trim_space}
use goreplay.Prettifier.{Readers}

abbrev chunked_field : Field
chunked_field = record {
  name = codes "Transfer-Encoding";
  lead = codes " ";
  value = codes "chunked";
  trail = [];
}

abbrev hello : Chunk
hello = record { digits = codes "5"; extension = []; content = codes "hello" }

abbrev last_chunk : Chunk
last_chunk = record { digits = codes "0"; extension = []; content = [] }

-- Readers of sections with one field, and of contents with one chunk below ten bytes.
abbrev small_readers : Readers
small_readers = record {
  read_mime = λ section. elim (split_two section b':') [
    | none ↦ none
    | some (name, rest) ↦ some ((name, trim_space rest) ∷ [])
  ];
  dechunk = λ content. elim content [ [] ↦ [] | digit ∷ rest ↦ take (digit - b'0') (drop 2 rest) ];
  gunzip = λ content. none;
}
