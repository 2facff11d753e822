-- ===== src/FileOutput/Examples.antt =====
-- The theorems on the file output at concrete inputs, and tests.
use goreplay.Base.{
  ℕ, ◌≡◌, refl, Bool, true, false, Bytes, Outcome, done, Option, none, some, [], ◌∷◌, ◌++◌,
  if◌then◌else◌, arith, length, codes,
}
use goreplay.Text.Ints.{pos}
use goreplay.FileOutput.{
  get_file_index, set_file_index, Config, Output, new_output, write_file, write_named, note_meta,
  open_file, close_file, naming, ended, here, next, wakes,
}
use goreplay.Protocol.Stream.{write_record}
use goreplay.FileOutput.Names.{get_file_index-set}
use goreplay.FileOutput.Closing.{write_file-chunk_size}

get_index : get_file_index (codes "/tmp/req_12.gor") ≡ pos 12
unfolding get_file_index goreplay.FileOutput.split_index goreplay.Text.Split.last_index
    goreplay.FileOutput.without_ext goreplay.FileOutput.ext goreplay.Base.index_byte
    goreplay.Text.Decimal.parse_int goreplay.Text.Decimal.read_digits
get_index = refl

get_file_index-set_example :
    (get_file_index (set_file_index (codes "/tmp/req_3" ++ (b'.' ∷ codes "gz")) (pos 7)) ≡ pos 7)
    × (set_file_index (set_file_index (codes "/tmp/req_3" ++ (b'.' ∷ codes "gz")) (pos 7)) (pos 8)
        ≡ set_file_index (codes "/tmp/req_3" ++ (b'.' ∷ codes "gz")) (pos 8))
get_file_index-set_example =
    get_file_index-set (codes "/tmp/req_3") (codes "gz") 7 8
      ((omega arith, (omega arith, tt)), (omega arith, (omega arith, tt))) (omega arith)

abbrev small : Config
small = record { size_limit = 10; max_file_size = 0; queue_limit = 0; appends = false }

abbrev name_zero : Bytes
name_zero = codes "req_0.gor"

abbrev record_one : Bytes
record_one = codes "1 a 1\nGET / HTTP/1.1"

abbrev wrote_one : Output
wrote_one = (write_named small (new_output false name_zero) name_zero (write_record record_one)).0

abbrev woken : Output
woken = record wrote_one { flusher = if wrote_one.closed then ended else naming }

write_file-chunk_size_example : (woken.closed ≡ true) × (woken.chunk_size ≡ 0)
unfolding write_file note_meta write_named open_file close_file new_output
write_file-chunk_size_example =
    write_file-chunk_size {c = small} false name_zero {o = new_output false name_zero}
      {q = wrote_one} {r = woken} (λ o. name_zero) record_one (length (write_record record_one))
      false here refl refl (next here (wakes refl refl))
