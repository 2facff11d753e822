-- ===== src/Proto/Headers/Refine.antt =====
-- `header` on a well-formed payload: it finds the first field of a name, and its value's place.
use goreplay.Base.{
  suc, ◌+◌, ◌≤◌, ◌<◌, ◌≡◌, refl, sym, ap, ◌∙◌, true, Bytes, none, some, done, arith, All, Lacks,
  length, length-append, append_assoc, [], ◌∷◌, ◌++◌, List,
}
use goreplay.Proto.Headers.{locate, header, equal_fold, find_line, mime_headers_start_pos}
use goreplay.Proto.Headers.Fields.{Field, IsField, line, render, message}
use goreplay.Proto.Headers.Scan.{
  content, block, render-block, render-append, Misses, index-crlf, find_line-hit, find_line-miss,
  line-content,
}
use goreplay.Proto.Headers.Locate.{found_at, locate-line}

-- A payload that is well formed: no line feed in the title, and every field in order.
pub record IsMessage (title : Bytes) (fs : List Field) : Type 0 where
  pub title_no_newline : Lacks b'\n' title
  pub fields : All IsField fs

-- The first line, with its line end.
abbrev pub title_line : Bytes → Bytes
title_line title = title ++ (b'\r' ∷ b'\n' ∷ [])

pub message-title_line :
    (title : Bytes) (fs : List Field) (body : Bytes)
    → message title fs body ≡ title_line title ++ render fs (b'\r' ∷ b'\n' ∷ body)
message-title_line title fs body =
    sym (append_assoc title (b'\r' ∷ b'\n' ∷ []) (render fs (b'\r' ∷ b'\n' ∷ body)))

pub mime_headers_start_pos-message :
    (title : Bytes) (fs : List Field) (body : Bytes)
    → Lacks b'\n' title
    → mime_headers_start_pos (message title fs body) ≡ some (length (title_line title))
unfolding mime_headers_start_pos
mime_headers_start_pos-message title fs body h =
    rw (index-crlf title (render fs (b'\r' ∷ b'\n' ∷ body)) h, mime_headers_start_pos)
      (ap some (sym (length-append title (b'\r' ∷ b'\n' ∷ []))))

-- The length of a payload is enough fuel for the search.
enough_fuel : (fs : List Field) (rest : Bytes) → length fs ≤ length (render fs rest)
enough_fuel [] rest = omega arith
enough_fuel (f ∷ fs) rest = omega (
  arith,
  enough_fuel fs rest,
  ap length (line-content f (render fs rest)),
  length-append (content f) (b'\n' ∷ render fs rest),
)

-- No field of that name.
pub header-miss :
    (title : Bytes) (fs : List Field) (body name : Bytes)
    → IsMessage title fs
    → Misses name fs
    → header (message title fs body) name ≡ done none
unfolding header
header-miss title fs body name w ms =
    rw (mime_headers_start_pos-message title fs body w.title_no_newline, header) (rw searched)
  where
    payload : Bytes
    payload = message title fs body

    enough : length fs < suc (length payload)
    enough = omega (
      arith,
      enough_fuel fs (b'\r' ∷ b'\n' ∷ body),
      length-append title (b'\r' ∷ b'\n' ∷ render fs (b'\r' ∷ b'\n' ∷ body)),
    )

    searched : find_line (suc (length payload)) payload name (length (title_line title)) ≡ done none
    searched =
        ap (λ u. find_line (suc (length payload)) u name (length (title_line title)))
          (message-title_line title fs body)
        ∙ find_line-miss fs (suc (length payload)) (title_line title) body name _ enough w.fields ms
            refl

All-front {ℓ κ} : {A : Type ℓ} (P : A → Type κ) (xs ys : List A) → All P (xs ++ ys) → All P xs
All-front P [] ys h = tt
All-front P (x ∷ xs) ys (px, h) = (px, All-front P xs ys h)

All-middle {ℓ κ} :
    {A : Type ℓ} (P : A → Type κ) (xs : List A) (y : A) (ys : List A) → All P (xs ++ (y ∷ ys)) → P y
All-middle P [] y ys (py, h) = py
All-middle P (x ∷ xs) y ys (px, h) = All-middle P xs y ys h

-- The field `f` is the first of its name.
pub header-hit :
    (title : Bytes) (before : List Field) (f : Field) (after : List Field) (body name : Bytes)
    → IsMessage title (before ++ (f ∷ after))
    → Misses name before
    → equal_fold f.name name ≡ true
    → header (message title (before ++ (f ∷ after)) body) name
      ≡ done (some (found_at (title_line title ++ block before) f))
unfolding header
header-hit title before f after body name w ms hit =
    rw
      (mime_headers_start_pos-message title (before ++ (f ∷ after)) body w.title_no_newline, header)
      (rw searched (rw located))
  where
    rest : Bytes
    rest = render after (b'\r' ∷ b'\n' ∷ body)

    front : Bytes
    front = title_line title ++ block before

    payload : Bytes
    payload = message title (before ++ (f ∷ after)) body

    seam : payload ≡ title_line title ++ render before (line f rest)
    seam =
        message-title_line title (before ++ (f ∷ after)) body
        ∙ ap (◌++◌ (title_line title)) (render-append before (f ∷ after) (b'\r' ∷ b'\n' ∷ body))

    enough : length before < suc (length payload)
    enough = omega (
      arith,
      enough_fuel before (line f rest),
      ap length seam,
      length-append (title_line title) (render before (line f rest)),
    )

    wf : IsField f
    wf = All-middle IsField before f after w.fields

    searched :
        find_line (suc (length payload)) payload name (length (title_line title))
        ≡ done
            (some (length front, length front + length (content f), length front + length f.name))
    searched =
        ap (λ u. find_line (suc (length payload)) u name (length (title_line title))) seam
        ∙ find_line-hit before (suc (length payload)) (title_line title) f rest name _ enough
            (All-front IsField before (f ∷ after) w.fields) ms wf hit refl

    located :
        locate payload
          (length front, length front + length (content f), length front + length f.name)
        ≡ done (found_at front f)
    located =
        ap
          (λ u.
            locate u
              (length front, length front + length (content f), length front + length f.name))
          (seam
            ∙ ap (◌++◌ (title_line title)) (render-block before (line f rest))
            ∙ sym (append_assoc (title_line title) (block before) (line f rest)))
        ∙ locate-line front f rest wf
