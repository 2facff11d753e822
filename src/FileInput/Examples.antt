-- ===== src/FileInput/Examples.antt =====
-- The theorem on the file input at two files.
use goreplay.Base.{
  ◌≡◌, refl, false, codes, done, some, List, [], ◌∷◌, arith, equal, index_byte, All, map,
}
use goreplay.Text.Split.{split_byte}
use goreplay.Text.Numbers.{int_of, parse_signed, read_uint}
use goreplay.Protocol.{payload_meta}
use goreplay.Text.Ints.{pos, negsuc}
use goreplay.FileInput.{Input, file_input, stamp_of}
use goreplay.FileInput.Reads.{Entry, IsEntry, file_of}
use goreplay.FileInput.Order.{Merged, paused}
use goreplay.FileInput.Sorted.{IsSorted, file_input-Merged}

abbrev once : Input
once = record { loop = false; initial = []; pace = λ d. d }

abbrev two_files : List (List Entry)
two_files =
    (record { time = pos 10; text = codes "1 a 10\nGET /a" }
      ∷ (record { time = pos 30; text = codes "1 b 30\nGET /b" } ∷ []))
    ∷ ((record { time = pos 20; text = codes "1 c 20\nGET /c" } ∷ []) ∷ [])

two_files-IsEntry : All (All IsEntry) two_files
unfolding split_byte equal stamp_of payload_meta int_of parse_signed read_uint index_byte
two_files-IsEntry = (
  (((refl, (refl, tt)), refl), (((refl, (refl, tt)), refl), tt)),
  ((((refl, (refl, tt)), refl), tt), tt),
)

file_input-Merged_example :
    (out : List Entry) × (file_input 4 once (map (λ es. some (file_of es)) two_files)
      ≡ done (paused once (negsuc 0) out))
    × Merged two_files out
    × IsSorted out
file_input-Merged_example =
    file_input-Merged 4 once two_files refl two_files-IsEntry
      (((omega arith, tt), (tt, tt)), ((tt, tt), tt)) (omega arith)
