-- ===== src/Proto/Headers/Faults.antt =====
-- A header line that ends with a line feed alone.
use goreplay.Base.{
  ℕ, suc, ◌+◌, ◌-◌, ◌≡◌, refl, sym, ap, ◌∙◌, true, Bytes, some, done, panic, arith, Lacks, length,
  length-append, append_assoc, [], ◌∷◌, ◌++◌, All-append, lt→leb,
}
use goreplay.Proto.Headers.{
  crlf, equal_fold, find_line, header, header_value, locate, mime_headers_start_pos,
}
use goreplay.Proto.Headers.Refine.{title_line}
use goreplay.Proto.Headers.Scan.{find_line-colon, index-crlf}
use goreplay.Proto.Headers.Trim.{trim_start_stays, trim_end_stays}

module _ (title name rest : Bytes) (no_newline : Lacks b'\n' title)
    (name_no_newline : Lacks b'\n' name) (no_colon : Lacks b':' name) where
  abbrev payload : Bytes
  payload = title ++ (b'\r' ∷ b'\n' ∷ ((name ++ (b':' ∷ [])) ++ (b'\n' ∷ rest)))

  abbrev front : ℕ
  front = length (title_line title)

  abbrev shape : Bytes
  shape = name ++ (b':' ∷ [])

  seam : payload ≡ title_line title ++ (shape ++ (b'\n' ∷ rest))
  seam = sym (append_assoc title crlf (shape ++ (b'\n' ∷ rest)))

  start : mime_headers_start_pos payload ≡ some front
  unfolding mime_headers_start_pos
  start =
      rw (index-crlf title (shape ++ (b'\n' ∷ rest)) no_newline, mime_headers_start_pos)
        (ap some (sym (length-append title crlf)))

  -- The value would start one byte behind its end.
  locate-panics : locate payload (front, front + length shape, front + length name) ≡ panic
  unfolding locate
  locate-panics =
      rw
        (trim_start_stays (length payload) payload (front + length name + 1)
          (front + length shape - 2) (omega (arith, size)))
        (rw
          (trim_end_stays (length payload) payload (front + length name + 1)
            (front + length shape - 2) (omega (arith, size)))
          (rw (
            lt→leb (front + length name + 1) (front + length shape - 2 + 1)
              (omega (arith, size, length-append title crlf)))))
    where
      size : length shape ≡ length name + 1
      size = length-append name (b':' ∷ [])

  -- The first header line is that name, a colon and a bare line feed: a search for the name finds
  -- the line, places the end of its value before the start, and panics in the slice.
  pub header_value-panics :
      (wanted : Bytes) → equal_fold name wanted ≡ true → header_value payload wanted ≡ panic
  unfolding header_value header
  header_value-panics wanted same = rw (start, header) (rw searched (rw locate-panics))
    where
      searched :
          find_line (suc (length payload)) payload wanted front
          ≡ done (some (front, front + length shape, front + length name))
      searched =
          ap (λ u. find_line (suc (length payload)) u wanted front) seam
          ∙ find_line-colon (length payload) (title_line title) name [] rest wanted front no_colon
              (All-append _ name (b':' ∷ []) name_no_newline (omega arith)) refl
          ∙ rw same
