-- ===== src/Proto/Chunked/RoundTrip.antt =====
-- `CheckChunked` accepts every encoded body, and says where it ends.
use goreplay.Base.{
  ℕ, zero, suc, ◌+◌, ◌%◌, ◌≤◌, ◌<◌, ◌≡◌, ◌≢◌, refl, sym, ap, ◌∙◌, subst, true, false, Bytes, List,
  some, done, [], ◌∷◌, ◌++◌, All, length, length-append, arith, append_assoc, slice_from-append,
  slice-append, ltb, ◌==◌, lt→ltb, le→ltb, equal, length-pos,
}
use goreplay.Proto.Chunked.{
  word, sign, too_short, ends_line, again, stop, chunk_round, check_from, check_chunked,
}
use goreplay.Proto.Chunked.Encoding.{Chunk, number, IsChunk, encode_line, encode, encoded_length}
use goreplay.Proto.Chunked.SizeLine.{size_line-line}

-- A line end at a position is seen.
pub ends_line-append :
    (p rest : Bytes) (i : ℕ) → i ≡ length p → ends_line (p ++ (b'\r' ∷ b'\n' ∷ rest)) i ≡ done true
ends_line-append p rest i e =
    rw (slice-append p (b'\r' ∷ b'\n' ∷ []) rest i (i + 2) e (omega arith)) (unfold equal in refl)

-- The round at the last chunk stops behind the empty line.
chunk_round-last :
    (p rest : Bytes) (i : ℕ)
    → i ≡ length p
    → chunk_round (p ++ (b'\r' ∷ b'\n' ∷ rest)) i 0 ≡ done (stop (some (i + 2)))
unfolding chunk_round
chunk_round-last p rest i e = rw (ends_line-append p rest i e)

-- The round at a chunk that holds bytes goes on behind its line end.
chunk_round-more :
    (p content rest : Bytes) (i : ℕ)
    → i ≡ length p
    → content ≢ []
    → 5 ≤ length rest
    → length (p ++ (content ++ (b'\r' ∷ b'\n' ∷ rest))) < sign
    → chunk_round (p ++ (content ++ (b'\r' ∷ b'\n' ∷ rest))) i (length content)
      ≡ done (again (i + length content + 2))
unfolding chunk_round
chunk_round-more p content rest i e ne room small =
    rw nonzero (rw (slice_from-append p tail i e) (rw fits (rw below (rw ended))))
  where
    tail : Bytes
    tail = content ++ (b'\r' ∷ b'\n' ∷ rest)

    size : length tail ≡ length content + 2 + length rest
    size = omega (arith, length-append content (b'\r' ∷ b'\n' ∷ rest))

    limit : length content + 7 < sign
    limit = omega (arith, size, small, length-append p tail)

    nonzero : (length content == 0) ≡ false
    nonzero = let h = length-pos content ne in ground arith

    fits : too_short (length tail) (length content) ≡ false
    fits =
        let wrap : (length content + 7) % word ≡ length content + 7 = omega (arith, limit) in
        rw wrap (
          rw (
            lt→ltb (length content + 7) sign limit,
            le→ltb (length tail) (length content + 7) (omega (arith, size)),
          ))

    below : ltb (length content) sign ≡ true
    below = lt→ltb (length content) sign (omega (arith, limit))

    ended : ends_line (p ++ tail) (i + length content) ≡ done true
    ended =
        ap (λ u. ends_line u (i + length content))
          (sym (append_assoc p content (b'\r' ∷ b'\n' ∷ rest)))
        ∙ ends_line-append (p ++ content) rest _ (omega (arith, length-append p content))

-- The shortest that can follow a chunk is the last chunk.
pub encode-room :
    (cs : List Chunk) (last : Chunk) (rest : Bytes)
    → IsChunk last
    → 5 ≤ length (encode cs last rest)
encode-room [] last rest w = omega (
  arith,
  length-pos last.digits w.size_line_fits.has_digits,
  length-append last.digits (last.extension ++ (b'\r' ∷ b'\n' ∷ b'\r' ∷ b'\n' ∷ rest)),
  length-append last.extension (b'\r' ∷ b'\n' ∷ b'\r' ∷ b'\n' ∷ rest),
)
encode-room (c ∷ cs) last rest w =
    let inner = encode cs last rest in
    omega (
      arith,
      encode-room cs last rest w,
      length-append c.digits
          (c.extension ++ (b'\r' ∷ b'\n' ∷ (c.content ++ (b'\r' ∷ b'\n' ∷ inner)))),
      length-append c.extension (b'\r' ∷ b'\n' ∷ (c.content ++ (b'\r' ∷ b'\n' ∷ inner))),
      length-append c.content (b'\r' ∷ b'\n' ∷ inner),
    )

-- A size line, and what stands before it.
abbrev line_bytes : Chunk → Bytes
line_bytes c = encode_line c []

line_bytes-append : (c : Chunk) (rest : Bytes) → encode_line c rest ≡ line_bytes c ++ rest
line_bytes-append c rest = simp append_assoc

length-line_bytes : (c : Chunk) → length (line_bytes c) ≡ length c.digits + length c.extension + 2
length-line_bytes c = omega (
  arith,
  length-append c.digits (c.extension ++ (b'\r' ∷ b'\n' ∷ [])),
  length-append c.extension (b'\r' ∷ b'\n' ∷ []),
)

check_from-encode :
    (cs : List Chunk) (last : Chunk) (rest p : Bytes) (fuel i : ℕ)
    → All IsChunk cs
    → All (λ c. c.content ≢ []) cs
    → IsChunk last
    → last.content ≡ []
    → length (p ++ encode cs last rest) < sign
    → length cs < fuel
    → i ≡ length p
    → check_from fuel (p ++ encode cs last rest) i ≡ done (some (i + encoded_length cs last))
unfolding check_from
check_from-encode cs last rest p zero i ws ne w none_left small enough e = absurd (omega arith)
check_from-encode [] last rest p (suc fuel) i ws ne w none_left small enough e =
    rw
      (size_line-line p last (b'\n' ∷ b'\r' ∷ b'\n' ∷ rest) i w.size_line_fits
        (omega (arith, zero_size)) e)
      (rw zero_size (rw ended (ap (λ u. done (some u)) (omega arith))))
  where
    zero_size : number 0 last.digits ≡ 0
    zero_size = w.size ∙ ap length none_left

    pos : ℕ
    pos = i + (length last.digits + length last.extension + 2)

    ended :
        chunk_round (p ++ encode_line last (b'\r' ∷ b'\n' ∷ rest)) pos 0
        ≡ done (stop (some (pos + 2)))
    ended =
        ap (λ u. chunk_round u pos 0)
          (ap (◌++◌ p) (line_bytes-append last (b'\r' ∷ b'\n' ∷ rest))
            ∙ sym (append_assoc p (line_bytes last) (b'\r' ∷ b'\n' ∷ rest)))
        ∙ chunk_round-last (p ++ line_bytes last) rest pos
            (omega (arith, length-append p (line_bytes last), length-line_bytes last))
check_from-encode (c ∷ cs) last rest p (suc fuel) i (wc, ws) (nc, ne) w none_left small enough e =
    rw
      (size_line-line p c (b'\n' ∷ tail) i wc.size_line_fits
        (omega (arith, wc.size, big, length-append c.content (b'\r' ∷ b'\n' ∷ inner))) e)
      (rw wc.size (
        rw ended (
          ap (λ u. check_from fuel u (pos + length c.content + 2)) regroup
          ∙ check_from-encode cs last rest front fuel (pos + length c.content + 2) ws ne w none_left
              (subst (λ u. length u < sign) regroup small) (omega arith) at_next
          ∙ ap (λ u. done (some u)) (omega arith))))
  where
    inner : Bytes
    inner = encode cs last rest

    tail : Bytes
    tail = c.content ++ (b'\r' ∷ b'\n' ∷ inner)

    pos : ℕ
    pos = i + (length c.digits + length c.extension + 2)

    front : Bytes
    front = ((p ++ line_bytes c) ++ c.content) ++ (b'\r' ∷ b'\n' ∷ [])

    head : p ++ encode_line c tail ≡ (p ++ line_bytes c) ++ tail
    head = ap (◌++◌ p) (line_bytes-append c tail) ∙ sym (append_assoc p (line_bytes c) tail)

    regroup : p ++ encode_line c tail ≡ front ++ inner
    regroup =
        head
        ∙ sym (append_assoc (p ++ line_bytes c) c.content (b'\r' ∷ b'\n' ∷ inner))
        ∙ sym (append_assoc ((p ++ line_bytes c) ++ c.content) (b'\r' ∷ b'\n' ∷ []) inner)

    at_pos : pos ≡ length (p ++ line_bytes c)
    at_pos = omega (arith, length-append p (line_bytes c), length-line_bytes c)

    at_next : pos + length c.content + 2 ≡ length front
    at_next = omega (
      arith,
      at_pos,
      length-append ((p ++ line_bytes c) ++ c.content) (b'\r' ∷ b'\n' ∷ []),
      length-append (p ++ line_bytes c) c.content,
    )

    small' : length ((p ++ line_bytes c) ++ tail) < sign
    small' = subst (λ u. length u < sign) head small

    big : length tail < sign
    big = omega (arith, small', length-append (p ++ line_bytes c) tail)

    ended :
        chunk_round (p ++ encode_line c tail) pos (length c.content)
        ≡ done (again (pos + length c.content + 2))
    ended =
        ap (λ u. chunk_round u pos (length c.content)) head
        ∙ chunk_round-more (p ++ line_bytes c) c.content inner pos at_pos nc
            (encode-room cs last rest w) small'

encode-length :
    (cs : List Chunk) (last : Chunk) (rest : Bytes) → length cs ≤ length (encode cs last rest)
encode-length [] last rest = omega arith
encode-length (c ∷ cs) last rest =
    let inner = encode cs last rest in
    omega (
      arith,
      encode-length cs last rest,
      length-append c.digits
          (c.extension ++ (b'\r' ∷ b'\n' ∷ (c.content ++ (b'\r' ∷ b'\n' ∷ inner)))),
      length-append c.extension (b'\r' ∷ b'\n' ∷ (c.content ++ (b'\r' ∷ b'\n' ∷ inner))),
      length-append c.content (b'\r' ∷ b'\n' ∷ inner),
    )

-- `CheckChunked` accepts every body in the chunked coding and gives the position behind it,
-- whatever bytes follow; the body stands in memory, so its length is below 2 ^ 63.
pub check_chunked-encode :
    (cs : List Chunk) (last : Chunk) (rest : Bytes)
    → All IsChunk cs
    → All (λ c. c.content ≢ []) cs
    → IsChunk last
    → last.content ≡ []
    → length (encode cs last rest) < sign
    → check_chunked (encode cs last rest) ≡ done (some (encoded_length cs last))
unfolding check_chunked
check_chunked-encode cs last rest ws ne w none_left small =
    check_from-encode cs last rest [] _ 0 ws ne w none_left small
      (omega (arith, encode-length cs last rest)) refl
    ∙ ap (λ u. done (some u)) (omega arith)
