-- ===== src/Middleware/Lines.antt =====
-- What one side writes the other side reads.
use goreplay.Base.{
  ℕ, zero, suc, ◌+◌, ◌-◌, ◌*◌, ◌/◌, ◌≤◌, ◌<◌, ◌≡◌, refl, ap, ◌∙◌, false, Bytes, done, ◌>>=◌, none,
  some, List, [], ◌∷◌, ◌++◌, append-nil, All, Lacks, length, length-append, take, take-append,
  replicate, arith, ltb, leb, le→ltb, lt→leb, ◌==◌,
}
use goreplay.Text.Hex.{
  hex_encode, hex_decode, IsByte, IsHexDigit, hex_decode-encode, hex_encode-IsHexDigit,
  length-hex_encode,
}
use goreplay.Protocol.Lines.{with_end, read_line-append, read_line-end}
use goreplay.Middleware.{buffer_size, hex_line, copy_line, copy, decode_line, read}

-- A payload of one read: bytes, at least one, and no more than the buffer holds.
pub record IsPayload (p : Bytes) : Type 0 where
  pub bytes : All IsByte p
  pub some_byte : 0 < length p
  pub fits : length p ≤ buffer_size

Lacks-IsHexDigit : (s : Bytes) → All IsHexDigit s → Lacks b'\n' s
Lacks-IsHexDigit [] h = tt
Lacks-IsHexDigit (c ∷ s) (hc, h) = ((λ e. omega arith), Lacks-IsHexDigit s h)

copy_line-plain :
    (p : Bytes) → IsPayload p → copy_line none p ≡ done (some (with_end (hex_encode p)))
unfolding copy_line hex_line
copy_line-plain p w =
    let busy : (length p == 0) ≡ false = ground arith in
    let fits : ltb buffer_size (length p) ≡ false = le→ltb buffer_size (length p) w.fits in
    let short : leb (buffer_size * 4) (length p * 2) ≡ false =
      lt→leb (buffer_size * 4) (length p * 2) (omega (arith, w.fits, w.some_byte)) in
    rw (busy, copy_line) (rw (fits, copy_line) (rw (short, hex_line) refl))

-- The lines of payloads.
abbrev lines : List Bytes → Bytes
lines [] = []
lines (p ∷ ps) = with_end (hex_encode p) ++ lines ps

copy-plain : (ps : List Bytes) → All IsPayload ps → copy none ps ≡ done (lines ps)
unfolding copy
copy-plain [] h = refl
copy-plain (p ∷ ps) (hp, h) = rw (copy_line-plain p hp, copy) (rw (copy-plain ps h, ◌>>=◌) refl)

decode_line-encode : (p : Bytes) → All IsByte p → decode_line (with_end (hex_encode p)) ≡ p
unfolding decode_line
decode_line-encode p h =
    ap (λ u. u ++ replicate (length line / 2 - length u) 0) decoded
    ∙ ap (λ n. p ++ replicate n 0) zeros
    ∙ append-nil p
  where
    line : Bytes
    line = with_end (hex_encode p)

    size : length line ≡ 2 * length p + 1
    size = omega (arith, length-append (hex_encode p) (b'\n' ∷ []), length-hex_encode p)

    digits_taken : take (length line - 1) line ≡ hex_encode p
    digits_taken =
        take-append (hex_encode p) (b'\n' ∷ []) (length line - 1)
          (omega (arith, size, length-hex_encode p))

    decoded : (hex_decode (take (length line - 1) line)).0 ≡ p
    decoded = ap (λ u. (hex_decode u).0) digits_taken ∙ ap (λ r. r.0) (hex_decode-encode p h)

    zeros : length line / 2 - length p ≡ 0
    zeros = omega (arith, size)

read-lines :
    (ps : List Bytes) (fuel : ℕ)
    → All IsPayload ps
    → length ps < fuel
    → read fuel (lines ps) ≡ done ps
unfolding read
read-lines ps zero h k = absurd (omega arith)
read-lines [] (suc fuel) h k = rw (read_line-end [] tt, read) refl
read-lines (p ∷ ps) (suc fuel) (hp, h) k =
    rw
      (
        read_line-append (hex_encode p) (lines ps)
            (Lacks-IsHexDigit (hex_encode p) (hex_encode-IsHexDigit p hp.bytes)),
        read,
      )
      (rw (read-lines ps fuel h (omega arith), ◌>>=◌)
        (ap (λ q. done (q ∷ ps)) (decode_line-encode p hp.bytes)))

-- Without PrettifyHTTP, `copy` writes the payloads that go to the process as lines without a panic,
-- if each has at least one byte and fits the buffer, and from these lines `read` gets the same
-- payloads in order, with more fuel than there are payloads.
pub read-copy :
    (ps : List Bytes) (fuel : ℕ)
    → All IsPayload ps
    → length ps < fuel
    → (text : Bytes) × (copy none ps ≡ done text) × (read fuel text ≡ done ps)
read-copy ps fuel h k = (lines ps, copy-plain ps h, read-lines ps fuel h k)
