-- ===== src/Proto/Payload/Complete.antt =====
-- When `HasFullPayload` calls a payload complete.
use goreplay.Base.{
  ℕ, ◌+◌, ◌-◌, ◌*◌, ◌%◌, ◌≤◌, ◌<◌, ◌≡◌, ◌≢◌, refl, ◌∙◌, true, false, Bytes, codes, List, some, done,
  [], ◌∷◌, All, length, arith, le→ltb, lt→leb,
}
use goreplay.Proto.Chunked.{word, sign, hex_value, atoi_from}
use goreplay.Proto.Chunked.Encoding.{Chunk, IsChunk, encode, encoded_length}
use goreplay.Proto.Chunked.RoundTrip.{check_chunked-encode, encode-room}
use goreplay.Proto.Headers.Edits.{header_value-message}
use goreplay.Proto.Headers.Fields.{Field, message, value_of}
use goreplay.Proto.Headers.Refine.{IsMessage}
use goreplay.Proto.Payload.{contains, chunked, has_full_chunks, has_full_length, has_full_payload}
use goreplay.Proto.Payload.EndPos.{mime_headers_end_pos-message, body-message}

abbrev pub IsDecimalDigit : ℕ → Type 0
IsDecimalDigit c = (b'0' ≤ c) × (c ≤ b'9')

-- The number that decimal digits spell behind `n`, with no bound.
abbrev pub decimal : ℕ → Bytes → ℕ
decimal n [] = n
decimal n (c ∷ s) = decimal (n * 10 + (c - b'0')) s

le-decimal : (n : ℕ) (s : Bytes) → n ≤ decimal n s
le-decimal n [] = omega arith
le-decimal n (c ∷ s) = omega (arith, le-decimal (n * 10 + (c - b'0')) s)

hex_value-decimal : (c : ℕ) → IsDecimalDigit c → hex_value c ≡ c - b'0'
hex_value-decimal c h = ground arith

-- `atoI` reads decimal digits exactly, as long as their number fits the word.
pub atoi_from-decimal :
    (n : ℕ) (s : Bytes)
    → All IsDecimalDigit s
    → decimal n s < word
    → atoi_from n s 10 ≡ some (decimal n s)
unfolding atoi_from
atoi_from-decimal n [] h fits = refl
atoi_from-decimal n (c ∷ s) (d, h) fits =
    let next = n * 10 + (c - b'0') in
    let bound : next < word = omega (arith, le-decimal next s) in
    let wrap : next % word ≡ next = omega arith in
    let v : hex_value c ≡ c - b'0' = hex_value-decimal c d in
    rw (v, le→ltb 127 c (omega (arith, d)), lt→leb 10 (c - b'0') (omega (arith, d)), wrap)
      (atoi_from-decimal next s h fits)

-- No header asks for the chunked coding.
abbrev pub IsPlain : List Field → Type 0
IsPlain fs = contains (value_of (codes "Transfer-Encoding") fs) chunked ≡ false

module _ (title : Bytes) (fs : List Field) (rest : Bytes) (w : IsMessage title fs) where
  abbrev payload : Bytes
  payload = message title fs rest

  plain : IsPlain fs → has_full_payload payload ≡ has_full_length payload rest
  unfolding has_full_payload
  plain h =
      rw (body-message title fs rest w)
        (rw (header_value-message title fs rest w (codes "Transfer-Encoding"), h))

  -- A length of one digit is not read: the payload counts as complete, whatever its body holds.
  pub has_full_payload-one_digit :
      (d : ℕ)
      → IsPlain fs
      → value_of (codes "Content-Length") fs ≡ d ∷ []
      → has_full_payload payload ≡ done true
  unfolding has_full_length
  has_full_payload-one_digit d h e =
      plain h
      ∙ rw (header_value-message title fs rest w (codes "Content-Length"), has_full_length)
          (rw e (rw (mime_headers_end_pos-message title fs rest w)))

-- A chunked body with no trailer is complete when its last chunk has come.
pub has_full_payload-encode :
    (title : Bytes) (fs : List Field) (cs : List Chunk) (last : Chunk) (more : Bytes)
    → IsMessage title fs
    → contains (value_of (codes "Transfer-Encoding") fs) chunked ≡ true
    → value_of (codes "Trailer") fs ≡ []
    → All IsChunk cs
    → All (λ c. c.content ≢ []) cs
    → IsChunk last
    → last.content ≡ []
    → length (encode cs last more) < sign
    → has_full_payload (message title fs (encode cs last more)) ≡ done true
unfolding has_full_payload has_full_chunks
has_full_payload-encode title fs cs last more w coding trailer ws ne wl none_left small =
    rw (body-message title fs (encode cs last more) w) (
      rw (header_value-message title fs (encode cs last more) w (codes "Transfer-Encoding")) (
        rw coding (
          rw (le→ltb (length (encode cs last more)) 1 room) (
            rw (check_chunked-encode cs last more ws ne wl none_left small) (
              rw (le→ltb (encoded_length cs last) 1 far) (
                rw (header_value-message title fs (encode cs last more) w (codes "Trailer"))
                  (rw trailer)))))))
  where
    room : 1 ≤ length (encode cs last more)
    room = omega (arith, encode-room cs last more wl)

    positive : (cs : List Chunk) → 1 ≤ encoded_length cs last
    positive [] = omega arith
    positive (c ∷ cs) = omega arith

    far : 1 ≤ encoded_length cs last
    far = positive cs
