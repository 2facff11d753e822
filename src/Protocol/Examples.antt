-- ===== src/Protocol/Examples.antt =====
-- Records at concrete payloads.
use goreplay.Base.{◌≡◌, refl, codes, done, panic, some, [], ◌∷◌, ◌++◌, false, arith, equal, index}
use goreplay.Text.Ints.{pos, negsuc}
use goreplay.Text.Decimal.{format_int, format_ℕ, digits}
use goreplay.Text.Split.{split_byte}
use goreplay.Protocol.{payload_header, payload_scanner, request_payload}
use goreplay.Protocol.Stream.{separator_line, handle_connection, write_record, write_records}
use goreplay.Protocol.Lines.{handle_connection-write, handle_connection-panics}

header_test :
    payload_header request_payload (codes "f4") (pos 139) (negsuc 0) ≡ codes "1 f4 139 -1\n"
unfolding payload_header format_int format_ℕ digits
header_test = refl

scanner_test : payload_scanner (write_records (codes "ab" ∷ [])) false ≡ (16, some (codes "ab"))
unfolding payload_scanner index write_record
scanner_test = refl

handle_connection-write_example :
    handle_connection 3
      (write_records (codes "1 a 2\nGET /\n" ∷ (codes "2 a 3\n" ∷ [])) ++ codes "1 b")
    ≡ done (codes "1 a 2\nGET /\n" ∷ (codes "2 a 3\n" ∷ []))
unfolding split_byte equal
handle_connection-write_example =
    handle_connection-write (codes "1 a 2\nGET /\n" ∷ (codes "2 a 3\n" ∷ [])) (codes "1 b") 3
      ((refl, (refl, (refl, tt))), ((refl, (refl, tt)), tt)) (omega arith) (omega arith)

handle_connection-panics_example : handle_connection 5 (separator_line ++ codes "1 a 2\n") ≡ panic
handle_connection-panics_example = handle_connection-panics 4 (codes "1 a 2\n")
