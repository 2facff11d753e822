-- ===== src/Prettifier/Sections.antt =====
-- `ParseHeaders` on a message with a title: its reader gets the header section alone.
use goreplay.Base.{
  ℕ, ◌+◌, ◌-◌, ◌≡◌, refl, sym, ap, ◌∙◌, true, false, Bytes, done, ◌>>=◌, Option, some, List, [],
  ◌∷◌, ◌++◌, append_assoc, All, Lacks, length, length-append, drop, drop-append, take-all, ltb,
  le→ltb, arith,
}
use goreplay.Proto.Headers.Fields.{Field, IsField, IsBlank, message, render, line}
use goreplay.Proto.Headers.Scan.{block}
use goreplay.Proto.Headers.Refine.{
  IsMessage, title_line, message-title_line, mime_headers_start_pos-message,
}
use goreplay.Proto.Payload.EndPos.{mime_headers_end_pos-message}
use goreplay.HttpClient.Prefixes.{length-head}
use goreplay.Proto.Title.{has_title}
use goreplay.Prettifier.{behind_title, header_section, parse_headers}

abbrev pub section : List Field → Bytes
section fs = render fs (b'\r' ∷ b'\n' ∷ [])

-- A field's line in front of its line end.
abbrev front : Field → Bytes
front f = f.name ++ (b':' ∷ (f.lead ++ (f.value ++ f.trail)))

line-front : (f : Field) (rest : Bytes) → line f rest ≡ front f ++ (b'\r' ∷ b'\n' ∷ rest)
line-front f rest = simp append_assoc

Lacks-append : (b : ℕ) (s t : Bytes) → Lacks b s → Lacks b t → Lacks b (s ++ t)
Lacks-append b [] t hs ht = ht
Lacks-append b (c ∷ s) t (hc, hs) ht = (hc, Lacks-append b s t hs ht)

Lacks-blanks : (s : Bytes) → All IsBlank s → Lacks b'\n' s
Lacks-blanks [] h = tt
Lacks-blanks (c ∷ s) ((low, other), h) = (other, Lacks-blanks s h)

front-Lacks : (f : Field) → IsField f → Lacks b'\n' (front f)
front-Lacks f w =
    Lacks-append b'\n' f.name (b':' ∷ (f.lead ++ (f.value ++ f.trail))) w.name_no_newline (
      (λ e. omega arith),
      Lacks-append b'\n' f.lead (f.value ++ f.trail) (Lacks-blanks f.lead w.lead_blank) (
          Lacks-append b'\n' f.value f.trail w.value_no_newline
            (Lacks-blanks f.trail w.trail_blank)),
    )

-- The section of at least one field ends where its empty line ends.
header_section-whole :
    (f : Field) (fs : List Field)
    → IsField f
    → All IsField fs
    → header_section (section (f ∷ fs)) ≡ section (f ∷ fs)
unfolding header_section
header_section-whole f fs hf hfs =
    ap header_section shape
    ∙ rw (mime_headers_end_pos-message (front f) fs [] w, header_section)
        (take-all (length (front f) + length (block fs) + 4) (message (front f) fs [])
          (omega (arith, length-head (front f) fs w)))
    ∙ sym shape
  where
    w : IsMessage (front f) fs
    w = record { title_no_newline = front-Lacks f hf; fields = hfs }

    shape : section (f ∷ fs) ≡ message (front f) fs []
    shape = line-front f (section fs)

-- `ParseHeaders` of a message with a title and a field at least hands the header section to the
-- reader, and gives the fields that this reads.
pub parse_headers-message :
    (read_mime : Bytes → Option (List (Bytes × Bytes))) (title : Bytes) (f : Field)
    (fs : List Field) (fields : List (Bytes × Bytes))
    → IsMessage title (f ∷ fs)
    → has_title (message title (f ∷ fs) []) ≡ done true
    → read_mime (section (f ∷ fs)) ≡ some fields
    → parse_headers read_mime (message title (f ∷ fs) []) ≡ done fields
unfolding parse_headers behind_title
parse_headers-message read_mime title f fs fields w titled reads =
    rw (titled, ◌>>=◌)
      (rw (mime_headers_start_pos-message title (f ∷ fs) [] w.title_no_newline, behind_title)
        (rw (inside, behind_title)
          (rw (cut, behind_title)
            (rw (header_section-whole f fs w.fields.0 w.fields.1) (rw reads refl)))))
  where
    seam : message title (f ∷ fs) [] ≡ title_line title ++ section (f ∷ fs)
    seam = message-title_line title (f ∷ fs) []

    inside : ltb (length (message title (f ∷ fs) []) - 1) (length (title_line title)) ≡ false
    inside = le→ltb (length (message title (f ∷ fs) []) - 1) (length (title_line title)) (
        omega (
          arith,
          ap length seam,
          length-append (title_line title) (section (f ∷ fs)),
          ap length (line-front f (section fs)),
          length-append (front f) (b'\r' ∷ b'\n' ∷ section fs),
        ))

    cut : drop (length (title_line title)) (message title (f ∷ fs) []) ≡ section (f ∷ fs)
    cut =
        ap (drop (length (title_line title))) seam
        ∙ drop-append (title_line title) (section (f ∷ fs)) (length (title_line title)) refl
