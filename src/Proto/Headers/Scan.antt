-- ===== src/Proto/Headers/Scan.antt =====
-- The search loop of `header` on a rendered header section.
use goreplay.Base.{
  ℕ, zero, suc, ◌+◌, ◌<◌, ◌≡◌, refl, subst, sym, ap, ◌∙◌, true, false, Bytes, none, some, done,
  arith, lt→ltb, if◌then◌else◌, All, All-append, Lacks, length, ◌>>=◌, length-append, append_assoc,
  append-nil, [], ◌∷◌, ◌++◌, List, index_byte, index_byte-append, slice_from, slice,
  slice_from-append, slice-append, index,
}
use goreplay.Proto.Headers.{crlf, equal_fold, find_line}
use goreplay.Proto.Headers.Fields.{Field, IsField, IsBlank, padded, line, render}

-- The first line end stands behind a title that holds no line feed.
pub index-crlf :
    (t s : Bytes) → Lacks b'\n' t → index (t ++ (b'\r' ∷ b'\n' ∷ s)) crlf ≡ some (length t)
unfolding index
index-crlf [] s h = refl
index-crlf (c ∷ []) s (h, hs) = ground (arith, index-crlf [] s tt)
index-crlf (c ∷ d ∷ t) s (h, (k, hs)) = ground (arith, index-crlf (d ∷ t) s (k, hs))

pub IsBlank→Lacks : (m : Bytes) → All IsBlank m → Lacks b'\n' m
IsBlank→Lacks [] h = tt
IsBlank→Lacks (c ∷ m) (b, h) = (b.1, IsBlank→Lacks m h)

padded-Lacks : (f : Field) → IsField f → Lacks b'\n' (padded f)
padded-Lacks f w = All-append _ f.lead _ (IsBlank→Lacks f.lead w.lead_blank) (
    All-append _ f.value _ w.value_no_newline
      (All-append _ f.trail _ (IsBlank→Lacks f.trail w.trail_blank) (omega arith)))

-- The bytes of a line before its line feed.
abbrev pub content : Field → Bytes
content f = f.name ++ (b':' ∷ padded f)

pub content-Lacks : (f : Field) → IsField f → Lacks b'\n' (content f)
content-Lacks f w =
    All-append _ f.name (b':' ∷ padded f) w.name_no_newline ((λ e. omega arith), padded-Lacks f w)

pub line-content : (f : Field) (rest : Bytes) → line f rest ≡ content f ++ (b'\n' ∷ rest)
line-content f rest = sym (append_assoc f.name (b':' ∷ padded f) (b'\n' ∷ rest))

pub length-line :
    (p : Bytes) (f : Field) (rest : Bytes)
    → length (p ++ line f rest) ≡ length p + length (content f) + 1 + length rest
length-line p f rest = omega (
  arith,
  length-append p (line f rest),
  ap length (line-content f rest),
  length-append (content f) (b'\n' ∷ rest),
)

-- One round of the loop on a line that holds a colon, whatever stands between it and the line feed.
pub find_line-colon :
    (fuel : ℕ) (p label text rest name : Bytes) (i : ℕ)
    → Lacks b':' label
    → Lacks b'\n' (label ++ (b':' ∷ text))
    → i ≡ length p
    → find_line (suc fuel) (p ++ ((label ++ (b':' ∷ text)) ++ (b'\n' ∷ rest))) name i ≡ (
        if equal_fold label name
        then done (some (i, i + length (label ++ (b':' ∷ text)), i + length label))
        else find_line fuel
            (p ++ ((label ++ (b':' ∷ text)) ++ (b'\n' ∷ rest)))
            name
            (i + length (label ++ (b':' ∷ text)) + 1))
unfolding find_line
find_line-colon fuel p label text rest name i no_colon no_newline e =
    rw (lt→ltb i (length payload) inside) (
      rw tail (
        rw (index_byte-append whole rest b'\n' no_newline, ◌>>=◌)
          (rw (slice-append p whole (b'\n' ∷ rest) i (i + length whole) e (omega arith))
            (rw (index_byte-append label text b':' no_colon, ◌>>=◌) (rw labelled)))))
  where
    whole : Bytes
    whole = label ++ (b':' ∷ text)

    payload : Bytes
    payload = p ++ (whole ++ (b'\n' ∷ rest))

    inside : i < length payload
    inside =
        omega (arith, length-append p (whole ++ (b'\n' ∷ rest)), length-append whole (b'\n' ∷ rest))

    tail : slice_from payload i ≡ done (whole ++ (b'\n' ∷ rest))
    tail = slice_from-append p (whole ++ (b'\n' ∷ rest)) i e

    labelled : slice payload i (i + length label) ≡ done label
    labelled =
        ap (λ u. slice (p ++ u) i (i + length label))
          (append_assoc label (b':' ∷ text) (b'\n' ∷ rest))
        ∙ slice-append p label (b':' ∷ (text ++ (b'\n' ∷ rest))) i (i + length label) e
            (omega arith)

-- That round on the line of a field.
find_line-line :
    (fuel : ℕ) (p : Bytes) (f : Field) (rest name : Bytes) (i : ℕ)
    → IsField f
    → i ≡ length p
    → find_line (suc fuel) (p ++ line f rest) name i ≡ (
        if equal_fold f.name name
        then done (some (i, i + length (content f), i + length f.name))
        else find_line fuel (p ++ line f rest) name (i + length (content f) + 1))
find_line-line fuel p f rest name i w e =
    subst
      (λ u. find_line (suc fuel) (p ++ u) name i ≡ (
        if equal_fold f.name name
        then done (some (i, i + length (content f), i + length f.name))
        else find_line fuel (p ++ u) name (i + length (content f) + 1)))
      (sym (line-content f rest))
      (find_line-colon fuel p f.name (padded f) rest name i w.name_no_colon (content-Lacks f w) e)

-- The bytes of some fields, one line after the other.
abbrev pub block : List Field → Bytes
block fs = render fs []

pub render-block : (fs : List Field) (rest : Bytes) → render fs rest ≡ block fs ++ rest
render-block [] rest = refl
render-block (f ∷ fs) rest =
    line-content f (render fs rest)
    ∙ ap (λ u. content f ++ (b'\n' ∷ u)) (render-block fs rest)
    ∙ sym (append_assoc (content f) (b'\n' ∷ block fs) rest)
    ∙ ap (λ u. u ++ rest) (sym (line-content f (block fs)))

pub render-append :
    (fs gs : List Field) (rest : Bytes) → render (fs ++ gs) rest ≡ render fs (render gs rest)
render-append [] gs rest = refl
render-append (f ∷ fs) gs rest = ap (line f) (render-append fs gs rest)

abbrev pub Misses : Bytes → List Field → Type 0
Misses name = All (λ f. equal_fold f.name name ≡ false)

-- A line passed by moves behind the line.
pass :
    (fuel : ℕ) (p : Bytes) (f : Field) (rest name : Bytes) (i : ℕ)
    → IsField f
    → equal_fold f.name name ≡ false
    → i ≡ length p
    → find_line (suc fuel) (p ++ line f rest) name i
      ≡ find_line fuel ((p ++ line f []) ++ rest) name (length (p ++ line f []))
pass fuel p f rest name i w miss e =
    find_line-line fuel p f rest name i w e
    ∙ rw miss (
        ap (λ u. find_line fuel u name (i + length (content f) + 1)) regroup
        ∙ ap (find_line fuel ((p ++ line f []) ++ rest) name) (omega (arith, length-line p f [])))
  where
    regroup : p ++ line f rest ≡ (p ++ line f []) ++ rest
    regroup = ap (◌++◌ p) (render-block (f ∷ []) rest) ∙ sym (append_assoc p (line f []) rest)

-- The loop finds the first line of that name.
pub find_line-hit :
    (before : List Field) (fuel : ℕ) (p : Bytes) (f : Field) (rest name : Bytes) (i : ℕ)
    → length before < fuel
    → All IsField before
    → Misses name before
    → IsField f
    → equal_fold f.name name ≡ true
    → i ≡ length p
    → let at = length (p ++ block before) in
      find_line fuel (p ++ render before (line f rest)) name i
      ≡ done (some (at, at + length (content f), at + length f.name))
find_line-hit before zero p f rest name i l ws ms w hit e = absurd (omega arith)
find_line-hit [] (suc fuel) p f rest name i l ws ms w hit e =
    find_line-line fuel p f rest name i w e
    ∙ rw hit (
        ap (λ u. done (some (u, u + length (content f), u + length f.name)))
          (e ∙ ap length (sym (append-nil p))))
find_line-hit (g ∷ before) (suc fuel) p f rest name i l (wg, ws) (mg, ms) w hit e =
    pass fuel p g (render before (line f rest)) name i wg mg e
    ∙ find_line-hit before fuel (p ++ line g []) f rest name _ (omega arith) ws ms w hit refl
    ∙ ap (λ u. done (some (length u, length u + length (content f), length u + length f.name)))
        (append_assoc p (line g []) (block before)
          ∙ ap (◌++◌ p) (sym (render-block (g ∷ []) (block before))))

-- At the empty line the loop gives up: the line holds no colon.
find_line-empty :
    (fuel : ℕ) (p body name : Bytes) (i : ℕ)
    → i ≡ length p
    → find_line (suc fuel) (p ++ (b'\r' ∷ b'\n' ∷ body)) name i ≡ done none
unfolding find_line
find_line-empty fuel p body name i e =
    let rest = b'\r' ∷ b'\n' ∷ body in
    let inside : i < length (p ++ rest) = omega (arith, length-append p rest) in
    let text : slice (p ++ rest) i (i + 1) ≡ done (b'\r' ∷ []) =
      slice-append p (b'\r' ∷ []) (b'\n' ∷ body) i (i + 1) e (omega arith) in
    rw (lt→ltb i (length (p ++ rest)) inside)
      (rw (slice_from-append p rest i e) (unfold index_byte in rw text))

pub find_line-miss :
    (fs : List Field) (fuel : ℕ) (p body name : Bytes) (i : ℕ)
    → length fs < fuel
    → All IsField fs
    → Misses name fs
    → i ≡ length p
    → find_line fuel (p ++ render fs (b'\r' ∷ b'\n' ∷ body)) name i ≡ done none
find_line-miss fs zero p body name i l ws ms e = absurd (omega arith)
find_line-miss [] (suc fuel) p body name i l ws ms e = find_line-empty fuel p body name i e
find_line-miss (g ∷ fs) (suc fuel) p body name i l (wg, ws) (mg, ms) e =
    pass fuel p g (render fs (b'\r' ∷ b'\n' ∷ body)) name i wg mg e
    ∙ find_line-miss fs fuel (p ++ line g []) body name _ (omega arith) ws ms refl
