-- ===== src/Proto/Chunked/Faults.antt =====
-- Inputs on which `CheckChunked` does not answer.
use goreplay.Base.{
  ℕ, zero, suc, ◌+◌, ◌-◌, ◌%◌, ◌≤◌, ◌<◌, ◌≡◌, ◌≢◌, refl, ap, ◌∙◌, true, false, Bytes, done, panic,
  timeout, [], ◌∷◌, ◌++◌, length, length-append, arith, append_assoc, slice_from, slice_from-append,
  ltb, leb, ◌==◌, le→ltb, lt→leb, le→leb,
}
use goreplay.Proto.Chunked.{
  word, sign, too_short, ends_line, again, chunk_round, check_from, check_chunked,
}
use goreplay.Proto.Chunked.Encoding.{Chunk, number, IsSizeLine}
use goreplay.Proto.Headers.{crlf}
use goreplay.Proto.Chunked.SizeLine.{size_line-line}
use goreplay.Proto.Chunked.RoundTrip.{ends_line-append}

module _ (q rest : Bytes) (c : Chunk) (w : IsSizeLine c) (plain : c.extension ≡ [])
    (back : number 0 c.digits + (length c.digits + 4) ≡ word) (wide : 4 ≤ length c.digits)
    (negative : sign ≤ number 0 c.digits) where
  abbrev front : Bytes
  front = q ++ crlf

  abbrev buffer : Bytes
  buffer = front ++ (c.digits ++ (c.extension ++ (b'\r' ∷ b'\n' ∷ rest)))

  -- One round at that line comes back to the line.
  loop_round :
      chunk_round buffer
        (length front + (length c.digits + length c.extension + 2))
        (number 0 c.digits)
      ≡ done (again (length front))
  unfolding chunk_round
  loop_round = rw nonzero (
      rw sliced (
        rw long (
          rw (positive, wraps)
            (rw moved (rw ended (ap (λ u. done (again u)) (omega (arith, front_size))))))))
    where
      n : ℕ
      n = number 0 c.digits

      line_bytes : Bytes
      line_bytes = c.digits ++ (c.extension ++ (b'\r' ∷ b'\n' ∷ []))

      pos : ℕ
      pos = length front + (length c.digits + length c.extension + 2)

      front_size : length front ≡ length q + 2
      front_size = length-append q crlf

      line_size : length line_bytes ≡ length c.digits + length c.extension + 2
      line_size = omega (
        arith,
        length-append c.digits (c.extension ++ (b'\r' ∷ b'\n' ∷ [])),
        length-append c.extension (b'\r' ∷ b'\n' ∷ []),
      )

      nonzero : (n == 0) ≡ false
      nonzero = ground arith

      seam : buffer ≡ (front ++ line_bytes) ++ rest
      seam = simp append_assoc

      sliced : slice_from buffer pos ≡ done rest
      sliced =
          ap (λ u. slice_from u pos) seam
          ∙ slice_from-append (front ++ line_bytes) rest pos
              (omega (arith, length-append front line_bytes, line_size))

      long : too_short (length rest) n ≡ false
      long =
          let wrap : (n + 7) % word ≡ n + 7 = omega (arith, back, wide) in
          rw wrap (rw (le→ltb (n + 7) sign (omega (arith, negative))))

      positive : ltb n sign ≡ false
      positive = le→ltb n sign negative

      wraps : leb word (pos + n) ≡ true
      wraps = le→leb word (pos + n) (omega (arith, back, front_size))

      moved : pos + n - word ≡ length q
      moved = omega (arith, back, front_size, ap length plain)

      ended : ends_line buffer (length q) ≡ done true
      ended =
          ap (λ u. ends_line u (length q))
            (append_assoc q crlf (c.digits ++ (c.extension ++ (b'\r' ∷ b'\n' ∷ rest))))
          ∙ ends_line-append q (c.digits ++ (c.extension ++ (b'\r' ∷ b'\n' ∷ rest))) (length q) refl

  -- A size line of 64 bits that spells minus the length of itself and the line end before it: the
  -- position wraps back to the line's own start, and no amount of fuel is enough.
  pub check_from-loops : (fuel : ℕ) → check_from fuel buffer (length front) ≡ timeout
  unfolding check_from
  check_from-loops zero = refl
  check_from-loops (suc fuel) =
      rw (size_line-line front c (b'\n' ∷ rest) (length front) w (omega arith) refl)
        (rw loop_round (check_from-loops fuel))

-- A buffer that ends with the carriage return of a size line: the line feed is not there yet, the
-- position behind it lies beyond the buffer, and the slice there panics.
pub check_chunked-panics :
    (c : Chunk)
    → IsSizeLine c
    → number 0 c.digits < word
    → number 0 c.digits ≢ 0
    → check_chunked (c.digits ++ (c.extension ++ (b'\r' ∷ []))) ≡ panic
unfolding check_chunked check_from chunk_round
check_chunked-panics c w fits ne =
    rw (size_line-line [] c [] 0 w fits refl) (rw nonzero (rw beyond))
  where
    nonzero : (number 0 c.digits == 0) ≡ false
    nonzero = ground arith

    beyond :
        leb
          (0 + (length c.digits + length c.extension + 2))
          (length (c.digits ++ (c.extension ++ (b'\r' ∷ []))))
        ≡ false
    beyond = lt→leb _ _ (
        omega (
          arith,
          length-append c.digits (c.extension ++ (b'\r' ∷ [])),
          length-append c.extension (b'\r' ∷ []),
        ))
