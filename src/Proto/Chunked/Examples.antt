-- ===== src/Proto/Chunked/Examples.antt =====
-- `CheckChunked` at concrete bodies.
use goreplay.Base.{
  ◌≡◌, refl, inl, inr, codes, some, none, done, panic, timeout, arith, [], ◌∷◌, index_byte, equal,
}
use goreplay.Proto.Chunked.{check_chunked, check_from, atoi_from, size_line, chunk_round}
use goreplay.Proto.Chunked.Encoding.{Chunk, IsChunk, IsSizeLine, encode, encoded_length}
use goreplay.Proto.Chunked.RoundTrip.{check_chunked-encode}
use goreplay.Proto.Chunked.Faults.{check_from-loops, check_chunked-panics}

-- A chunk of eleven bytes with an extension, and the last chunk.
abbrev pub hello : Chunk
hello = record { digits = codes "b"; extension = codes ";x=1"; content = codes "hello world" }

abbrev pub last_chunk : Chunk
last_chunk = record { digits = codes "0"; extension = []; content = [] }

pub hello-IsChunk : IsChunk hello
hello-IsChunk = record {
  size_line_fits = record {
    has_digits = λ e. cc;
    hexadecimal = omega arith;
    extension_fits = inr (codes "x=1", refl, omega arith);
  };
  size = refl;
}

last-IsSizeLine : IsSizeLine last_chunk
last-IsSizeLine = record {
  has_digits = λ e. cc;
  hexadecimal = omega arith;
  extension_fits = inl refl;
}

pub last-IsChunk : IsChunk last_chunk
last-IsChunk = record { size_line_fits = last-IsSizeLine; size = refl }

encode_test :
    encode (hello ∷ []) last_chunk (codes "z") ≡ codes "b;x=1\r\nhello world\r\n0\r\n\r\nz"
encode_test = refl

check_chunked-encode_example :
    check_chunked (encode (hello ∷ []) last_chunk (codes "z"))
    ≡ done (some (encoded_length (hello ∷ []) last_chunk))
check_chunked-encode_example =
    check_chunked-encode (hello ∷ []) last_chunk (codes "z") (hello-IsChunk, tt) ((λ e. cc), tt)
      last-IsChunk refl (omega arith)

check_chunked_test : check_chunked (codes "5\r\nhello\r\n0\r\n\r\n") ≡ done (some 15)
unfolding check_chunked check_from size_line chunk_round atoi_from index_byte equal
check_chunked_test = refl

check_chunked_bad : check_chunked (codes "5\r\nhello!\r\n0\r\n\r\n") ≡ done none
unfolding check_chunked check_from size_line chunk_round atoi_from index_byte equal
check_chunked_bad = refl

-- A size line that spells -20.
abbrev minus_twenty : Chunk
minus_twenty = record { digits = codes "FFFFFFFFFFFFFFEC"; extension = []; content = [] }

minus_twenty-IsSizeLine : IsSizeLine minus_twenty
minus_twenty-IsSizeLine = record {
  has_digits = λ e. cc;
  hexadecimal = omega arith;
  extension_fits = inl refl;
}

check_from-loops_example :
    check_from 1000 (codes "1\r\nA\r\nFFFFFFFFFFFFFFEC\r\n0\r\n\r\n") 6 ≡ timeout
check_from-loops_example =
    check_from-loops (codes "1\r\nA") (codes "0\r\n\r\n") minus_twenty minus_twenty-IsSizeLine refl
      (omega arith) (omega arith) (omega arith) 1000

check_chunked-panics_example : check_chunked (codes "b;x=1\r") ≡ panic
check_chunked-panics_example =
    check_chunked-panics hello hello-IsChunk.size_line_fits (omega arith) (omega arith)
