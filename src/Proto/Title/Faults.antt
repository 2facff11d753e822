-- ===== src/Proto/Title/Faults.antt =====
-- Response lines with no reason phrase.
use goreplay.Base.{
  ℕ, ◌≤◌, ◌≡◌, Bytes, codes, panic, some, [], ◌∷◌, ◌++◌, Lacks, length, arith, le→ltb, equal,
}
use goreplay.Proto.Headers.Scan.{index-crlf}
use goreplay.Proto.Title.{parse_status, parse_http_version, has_response_title}
use goreplay.Proto.Title.Status.{status_text}

-- A status line that ends behind the status code.
abbrev pub bare_status : Bytes → Bytes
bare_status digits = codes "HTTP/1.1 " ++ digits

-- For every status with a text, the title ends before the position of the reason phrase, and the
-- slice of the phrase panics.
pub has_response_title-panics :
    (a b c : ℕ) (rest text : Bytes) (status : ℕ)
    → parse_status (a ∷ b ∷ c ∷ []) ≡ some status
    → status_text status ≡ some text
    → Lacks b'\n' (a ∷ b ∷ c ∷ [])
    → 3 ≤ length rest
    → has_response_title (bare_status (a ∷ b ∷ c ∷ []) ++ (b'\r' ∷ b'\n' ∷ rest)) ≡ panic
unfolding has_response_title parse_http_version equal
has_response_title-panics a b c rest text status parsed known no_newline room =
    rw (le→ltb (length (bare_status (a ∷ b ∷ c ∷ []) ++ (b'\r' ∷ b'\n' ∷ rest))) 17 (omega arith)) (
      rw (index-crlf (bare_status (a ∷ b ∷ c ∷ [])) rest (omega arith))
        (ground (arith, parsed, known)))
