-- ===== src/Proto/Payload/EndPos.antt =====
-- Where the header section of a well-formed payload ends.
use goreplay.Base.{
  ℕ, ◌+◌, ◌≡◌, ◌≢◌, ◌≤◌, refl, subst, sym, ap, ◌∙◌, false, Bytes, Option, none, some, done, List,
  [], ◌∷◌, ◌++◌, All, All-append, Lacks, length, length-append, arith, append_assoc, has_prefix,
  index, slice_from, slice_from-append, shift,
}
use goreplay.Proto.Headers.{empty_line, mime_headers_end_pos}
use goreplay.Proto.Headers.Fields.{Field, IsField, line, render, message}
use goreplay.Proto.Headers.Refine.{IsMessage}
use goreplay.Proto.Headers.Locate.{length-content}
use goreplay.Proto.Headers.Scan.{
  block, content, line-content, content-Lacks, render-block, IsBlank→Lacks,
}
use goreplay.Proto.Payload.{body}

abbrev after : ℕ → Option ℕ → Option ℕ
after n none = none
after n (some i) = some (n + i)

after-shift : (n : ℕ) (o : Option ℕ) → shift (after n o) ≡ after (n + 1) o
after-shift n none = refl
after-shift n (some i) = ap some (omega arith)

after-zero : (o : Option ℕ) → after 0 o ≡ o
after-zero none = refl
after-zero (some i) = ap some (omega arith)

index-cons :
    (c : ℕ) (s sep : Bytes)
    → has_prefix (c ∷ s) sep ≡ false
    → index (c ∷ s) sep ≡ shift (index s sep)
unfolding index
index-cons c s sep h = rw h

index-none : (sep : Bytes) → has_prefix [] sep ≡ false → index [] sep ≡ none
unfolding index
index-none sep h = rw h

-- A line that is followed by a line of two bytes or more holds no start of the empty line.
index-line :
    (m : Bytes) (x y : ℕ) (r : Bytes)
    → Lacks b'\n' m
    → y ≢ b'\n'
    → index (m ++ (b'\n' ∷ x ∷ y ∷ r)) empty_line
      ≡ after (length m + 1) (index (x ∷ y ∷ r) empty_line)
unfolding has_prefix
index-line [] x y r h ne =
    index-cons b'\n' (x ∷ y ∷ r) empty_line refl
    ∙ ap shift (sym (after-zero (index (x ∷ y ∷ r) empty_line)))
    ∙ after-shift 0 _
index-line (c ∷ []) x y r (h, hs) ne =
    index-cons c (b'\n' ∷ x ∷ y ∷ r) empty_line (ground arith)
    ∙ ap shift (index-line [] x y r tt ne)
    ∙ after-shift 1 _
index-line (c ∷ d ∷ m) x y r (h, (k, hs)) ne =
    index-cons c (d ∷ (m ++ (b'\n' ∷ x ∷ y ∷ r))) empty_line (ground arith)
    ∙ ap shift (index-line (d ∷ m) x y r (k, hs) ne)
    ∙ after-shift (length (d ∷ m) + 1) _
    ∙ ap (λ n. after n (index (x ∷ y ∷ r) empty_line)) (omega arith)

-- The empty line stands directly behind the line that is read.
index-last :
    (m body : Bytes)
    → Lacks b'\n' m
    → index (m ++ (b'\r' ∷ b'\n' ∷ b'\r' ∷ b'\n' ∷ body)) empty_line ≡ some (length m)
unfolding index
index-last [] body h = refl
index-last (c ∷ []) body (h, hs) = ground (arith, index-last [] body tt)
index-last (c ∷ d ∷ m) body (h, (k, hs)) = ground (arith, index-last (d ∷ m) body (k, hs))

-- A field's line has a first and a second byte, and the second is no line feed.
record Starts (b : Bytes) : Type 0 where
  first : ℕ
  second : ℕ
  others : Bytes
  whole : b ≡ first ∷ second ∷ others
  no_newline : second ≢ b'\n'

line-Starts : (f : Field) (rest : Bytes) → IsField f → Starts (line f rest)
line-Starts f rest w =
    subst Starts (sym (line-content f rest))
      (two (content f) (b'\n' ∷ rest) (content-Lacks f w) (omega (arith, length-content f)))
  where
    two : (u s : Bytes) → Lacks b'\n' u → 2 ≤ length u → Starts (u ++ s)
    two [] s h l = absurd (omega arith)
    two (c ∷ []) s h l = absurd (omega arith)
    two (c ∷ d ∷ u) s (h, (k, hs)) l = record {
      first = c;
      second = d;
      others = u ++ s;
      whole = refl;
      no_newline = k;
    }

-- Everything of a line but its line end.
abbrev inner : Field → Bytes
inner f = f.name ++ (b':' ∷ (f.lead ++ (f.value ++ f.trail)))

line-inner : (f : Field) (rest : Bytes) → line f rest ≡ inner f ++ (b'\r' ∷ b'\n' ∷ rest)
line-inner f rest = simp append_assoc

inner-Lacks : (f : Field) → IsField f → Lacks b'\n' (inner f)
inner-Lacks f w = All-append _ f.name _ w.name_no_newline (
  (λ e. omega arith),
  All-append _ f.lead _ (IsBlank→Lacks f.lead w.lead_blank)
      (All-append _ f.value _ w.value_no_newline (IsBlank→Lacks f.trail w.trail_blank)),
)

pub index-render :
    (fs : List Field) (m body : Bytes)
    → Lacks b'\n' m
    → All IsField fs
    → index (m ++ (b'\r' ∷ b'\n' ∷ render fs (b'\r' ∷ b'\n' ∷ body))) empty_line
      ≡ some (length m + length (block fs))
index-render [] m body h w = index-last m body h ∙ ap some (omega arith)
index-render (f ∷ fs) m body h (w, ws) =
    ap (λ u. index u empty_line) (sym (append_assoc m (b'\r' ∷ []) (b'\n' ∷ next)))
    ∙ ap (λ u. index ((m ++ (b'\r' ∷ [])) ++ (b'\n' ∷ u)) empty_line) s.whole
    ∙ index-line (m ++ (b'\r' ∷ [])) s.first s.second s.others
        (All-append _ m (b'\r' ∷ []) h (omega arith)) s.no_newline
    ∙ ap (λ u. after (length (m ++ (b'\r' ∷ [])) + 1) (index u empty_line))
        (sym s.whole ∙ line-inner f (render fs (b'\r' ∷ b'\n' ∷ body)))
    ∙ ap (after (length (m ++ (b'\r' ∷ [])) + 1))
        (index-render fs (inner f) body (inner-Lacks f w) ws)
    ∙ ap some (
        omega (
          arith,
          length-append m (b'\r' ∷ []),
          ap length (line-inner f (block fs)),
          length-append (inner f) (b'\r' ∷ b'\n' ∷ block fs),
        ))
  where
    next : Bytes
    next = line f (render fs (b'\r' ∷ b'\n' ∷ body))

    s : Starts next
    s = line-Starts f (render fs (b'\r' ∷ b'\n' ∷ body)) w

-- The header section of a payload ends behind its empty line, where the body begins.
pub mime_headers_end_pos-message :
    (title : Bytes) (fs : List Field) (body : Bytes)
    → IsMessage title fs
    → mime_headers_end_pos (message title fs body) ≡ some (length title + length (block fs) + 4)
unfolding mime_headers_end_pos
mime_headers_end_pos-message title fs body w =
    rw (index-render fs title body w.title_no_newline w.fields, mime_headers_end_pos)

pub body-message :
    (title : Bytes) (fs : List Field) (rest : Bytes)
    → IsMessage title fs
    → body (message title fs rest) ≡ done rest
unfolding body
body-message title fs rest w =
    rw (mime_headers_end_pos-message title fs rest w, body)
      (ap (λ u. slice_from u (length title + length (block fs) + 4)) seam
        ∙ slice_from-append front rest _ (
            omega (
              arith,
              length-append title (b'\r' ∷ b'\n' ∷ (block fs ++ (b'\r' ∷ b'\n' ∷ []))),
              length-append (block fs) (b'\r' ∷ b'\n' ∷ []),
            )))
  where
    front : Bytes
    front = title ++ (b'\r' ∷ b'\n' ∷ (block fs ++ (b'\r' ∷ b'\n' ∷ [])))

    seam : message title fs rest ≡ front ++ rest
    seam =
        ap (λ u. title ++ (b'\r' ∷ b'\n' ∷ u)) (render-block fs (b'\r' ∷ b'\n' ∷ rest))
        ∙ simp append_assoc
