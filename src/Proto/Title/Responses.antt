-- ===== src/Proto/Title/Responses.antt =====
-- Status lines that the code recognises.
use goreplay.Base.{
  ℕ, ◌+◌, ◌≤◌, ◌==◌, ◌≡◌, ◌≢◌, refl, ap, Bool-cases, inl, inr, true, false, Bytes, codes, done,
  some, [], ◌∷◌, ◌++◌, All-append, Lacks, length, length-append, arith, le→ltb, equal, equal_iff,
  slice, slice-append, slice_to-append, slice_from-append, index_byte, index_byte-append, ◌>>=◌,
}
use goreplay.Proto.Headers.Scan.{index-crlf}
use goreplay.Proto.Title.{
  method, one_of, count_byte, parse_status, parse_http_version, has_request_title,
  has_response_title, has_title,
}
use goreplay.Proto.Title.Status.{status_text}
use goreplay.Proto.Path.{path, path_start, path_end}

abbrev pub status_line : Bytes → Bytes → Bytes
status_line digits text = codes "HTTP/1.1 " ++ (digits ++ (b' ' ∷ text))

-- Three digits of a status that has a text.
pub record IsStatus (digits text : Bytes) : Type 0 where
  pub status : ℕ
  pub parsed : parse_status digits ≡ some status
  pub known : status_text status ≡ some text
  pub plain : Lacks b'\n' text

module _ (a b c : ℕ) (text rest : Bytes) (w : IsStatus (a ∷ b ∷ c ∷ []) text)
    (room : 2 ≤ length rest) where
  abbrev digits : Bytes
  digits = a ∷ b ∷ c ∷ []

  abbrev payload : Bytes
  payload = status_line digits text ++ (b'\r' ∷ b'\n' ∷ rest)

  -- What stands behind the version.
  abbrev after : Bytes
  after = digits ++ (b' ' ∷ (text ++ (b'\r' ∷ (b'\n' ∷ rest))))

  digits_plain : (a ≢ b'\n') × (b ≢ b'\n') × (c ≢ b'\n') × (a ≢ b' ') × (b ≢ b' ') × (c ≢ b' ')
  unfolding parse_status
  digits_plain = ground (arith, w.parsed)

  title_plain : Lacks b'\n' (status_line digits text)
  title_plain =
      All-append _ (codes "HTTP/1.1 ") (digits ++ (b' ' ∷ text)) (omega arith)
        (digits_plain.0, (digits_plain.1, (digits_plain.2, ((λ e. omega arith), w.plain))))

  enough : 17 ≤ length payload
  enough = omega (arith, length-append text (b'\r' ∷ (b'\n' ∷ rest)))

  no_request : has_request_title payload ≡ done false
  unfolding has_request_title method one_of equal index_byte
  no_request = rw (le→ltb (length payload) 16 (omega (arith, enough))) (
      rw (index-crlf (status_line digits text) rest title_plain) (
        rw (slice_to-append (status_line digits text) (b'\r' ∷ (b'\n' ∷ rest)) _ refl)
          (elim (Bool-cases (count_byte (status_line digits text) b' ' == 2)) [
            | inl e ↦ rw e (rw (slice_to-append (codes "HTTP/1.1") (b' ' ∷ after) 8 refl) refl)
            | inr e ↦ rw e refl
          ])))

  reason : slice payload 13 (length (status_line digits text)) ≡ done text
  reason =
      slice-append (codes "HTTP/1.1 " ++ (digits ++ (b' ' ∷ []))) text (b'\r' ∷ (b'\n' ∷ rest)) 13 _
        refl (omega arith)

  version_slice : slice payload 0 8 ≡ done (codes "HTTP/1.1")
  version_slice = slice-append [] (codes "HTTP/1.1") (b' ' ∷ after) 0 8 refl refl

  digits_slice : slice payload 9 12 ≡ done digits
  digits_slice =
      slice-append (codes "HTTP/1.1 ") digits (b' ' ∷ (text ++ (b'\r' ∷ (b'\n' ∷ rest)))) 9 12 refl
        refl

  fits : length (status_line digits text) + 2 ≤ length payload
  fits = omega (arith, length-append text (b'\r' ∷ (b'\n' ∷ rest)))

  pub has_response_title-status : has_response_title payload ≡ done true
  unfolding has_response_title parse_http_version equal
  has_response_title-status = rw (le→ltb (length payload) 17 (omega (arith, enough))) (
      rw (index-crlf (status_line digits text) rest title_plain) (
        rw version_slice (
          rw digits_slice (
            rw (w.parsed, ◌>>=◌)
              (rw w.known (
                rw (le→ltb (length payload) (length (status_line digits text) + 2) fits)
                  (rw reason (ap done ((equal_iff text text).1 refl)))))))))

  titled : has_title payload ≡ done true
  unfolding has_title
  titled = rw no_request has_response_title-status

  digits_words : Lacks b' ' digits
  digits_words = (digits_plain.3, (digits_plain.4, (digits_plain.5, tt)))

  digits_end : path_end payload ≡ done 12
  unfolding path_end path_start index_byte
  digits_end = rw (slice_from-append (codes "HTTP/1.1 ") after 9 refl) (
      rw (index_byte-append digits (text ++ (b'\r' ∷ (b'\n' ∷ rest))) b' ' digits_words, ◌>>=◌)
        refl)

  pub path-status : path payload ≡ done digits
  unfolding path path_end path_start index_byte
  path-status = rw (titled, path) (rw digits_end digits_slice)
