-- ===== src/HttpClient/Prefixes.antt =====
-- What a part of a response shows of its headers.
use mathlib.Core.Option.{some-injective}
use goreplay.Base.{
  ℕ, suc, ◌+◌, ◌≤◌, ◌<◌, ◌≡◌, ◌≢◌, inl, inr, refl, sym, ap, ap₂, ◌∙◌, true, ◌&&◌, ◌==◌,
  Option-cases, Bytes, Option, none, some, List, [], ◌∷◌, ◌++◌, append_assoc, length, length-append,
  drop, arith, has_prefix, index, shift, Bool-cases,
}
use goreplay.Proto.Headers.{empty_line}
use goreplay.Proto.Headers.Fields.{Field, render, message}
use goreplay.Proto.Headers.Scan.{block, render-block}
use goreplay.Proto.Headers.Refine.{IsMessage}
use goreplay.Proto.Payload.EndPos.{index-render}

-- A text that is long enough decides on its prefixes alone.
has_prefix-append :
    (p q sep : Bytes) → length sep ≤ length p → has_prefix (p ++ q) sep ≡ has_prefix p sep
unfolding has_prefix
has_prefix-append p q [] h = refl
has_prefix-append [] q (y ∷ sep) h = absurd (omega arith)
has_prefix-append (x ∷ p) q (y ∷ sep) h =
    ap (λ b. x == y && b) (has_prefix-append p q sep (omega arith))

has_prefix-length : (p sep : Bytes) → has_prefix p sep ≡ true → length sep ≤ length p
unfolding has_prefix
has_prefix-length p [] h = omega arith
has_prefix-length [] (y ∷ sep) h = cc
has_prefix-length (x ∷ p) (y ∷ sep) h = ground (arith, has_prefix-length p sep)

shift-some : (o : Option ℕ) (i : ℕ) → shift o ≡ some i → (j : ℕ) × (i ≡ suc j) × (o ≡ some j)
shift-some none i h = cc
shift-some (some j) i h = (j, sym (some-injective (suc j) i h), refl)

-- What is found ends within the text.
pub index-length : (p sep : Bytes) (i : ℕ) → index p sep ≡ some i → i + length sep ≤ length p
unfolding index
index-length [] sep i h = elim (Bool-cases (has_prefix [] sep)) [
  | inl e ↦
      (let at : 0 ≡ i = some-injective 0 i (rw e at h) in
        omega (arith, at, has_prefix-length [] sep e))
  | inr e ↦ (let no_place : none ≡ some i = rw e at h in cc)
]
index-length (x ∷ p) sep i h = elim (Bool-cases (has_prefix (x ∷ p) sep)) [
  | inl e ↦
      (let at : 0 ≡ i = some-injective 0 i (rw e at h) in
        omega (arith, at, has_prefix-length (x ∷ p) sep e))
  | inr e ↦
      (let (j, at, found) = shift-some (index p sep) i (rw e at h) in
        omega (arith, at, index-length p sep j found))
]

-- What is found in a text is found at the same place when more follows.
index-append :
    (p q sep : Bytes) (i : ℕ) → sep ≢ [] → index p sep ≡ some i → index (p ++ q) sep ≡ some i
unfolding index
index-append p q [] i ne h = absurd (ne refl)
index-append [] q (y ∷ sep) i ne h = cc
index-append (x ∷ p) q (y ∷ sep) i ne h =
    let same =
      has_prefix-append (x ∷ p) q (y ∷ sep) (omega (arith, index-length (x ∷ p) (y ∷ sep) i h)) in
    elim (Bool-cases (has_prefix (x ∷ p) (y ∷ sep))) [
      | inl e ↦ (let at : some 0 ≡ some i = rw e at h in rw (same ∙ e) at)
      | inr e ↦
          (let (j, at, found) = shift-some (index p (y ∷ sep)) i (rw e at h) in
            rw (same ∙ e) (ap shift (index-append p q (y ∷ sep) j ne found) ∙ ap some (sym at)))
    ]

-- Two ways to cut a text in two: the longer front has the shorter one as its front.
pub longer_front :
    (p q h b : Bytes)
    → p ++ q ≡ h ++ b
    → length h ≤ length p
    → (m : Bytes) × (p ≡ h ++ m) × (m ++ q ≡ b)
longer_front p q [] b e le = (p, refl, e)
longer_front [] q (x ∷ h) b e le = absurd (omega arith)
longer_front (y ∷ p) q (x ∷ h) b e le =
    let first : y ≡ x = cc in
    let (m, same, rest) = longer_front p q h b (ap (drop 1) e) (omega (arith, le)) in
    (m, ap₂ (λ a s. a ∷ s) first same, rest)

pub message-append :
    (title : Bytes) (fs : List Field) (body : Bytes)
    → message title fs body ≡ message title fs [] ++ body
message-append title fs body =
    ap (λ u. title ++ (b'\r' ∷ (b'\n' ∷ u)))
      (render-block fs (b'\r' ∷ (b'\n' ∷ body))
        ∙ sym (append_assoc (block fs) (b'\r' ∷ (b'\n' ∷ [])) body)
        ∙ ap (λ u. u ++ body) (sym (render-block fs (b'\r' ∷ (b'\n' ∷ [])))))
    ∙ sym (append_assoc title _ body)

module _ (title : Bytes) (fs : List Field) (w : IsMessage title fs) where
  -- The response up to its body.
  abbrev pub head : Bytes
  head = message title fs []

  pub message-head : (body : Bytes) → message title fs body ≡ head ++ body
  message-head body = message-append title fs body

  pub length-head : length head ≡ length title + length (block fs) + 4
  length-head = omega (
    arith,
    length-append title (b'\r' ∷ (b'\n' ∷ render fs (b'\r' ∷ (b'\n' ∷ [])))),
    ap length (render-block fs (b'\r' ∷ (b'\n' ∷ []))),
    length-append (block fs) (b'\r' ∷ (b'\n' ∷ [])),
  )

  -- Where the empty line of a response stands.
  pub index-message :
      (body : Bytes)
      → index (message title fs body) empty_line ≡ some (length title + length (block fs))
  index-message body = index-render fs title body w.title_no_newline w.fields

  -- A part that ends within the headers does not show their end.
  pub index-part :
      (p q body : Bytes)
      → p ++ q ≡ message title fs body
      → length p < length head
      → index p empty_line ≡ none
  index-part p q body e short = elim (Option-cases (index p empty_line)) [
    | inl none_found ↦ none_found
    | inr (i, found) ↦
        (let at : i ≡ length title + length (block fs) = some-injective i _ (
            sym (index-append p q empty_line i (λ h. cc) found)
            ∙ ap (λ u. index u empty_line) e
            ∙ index-message body) in
          absurd (omega (arith, at, short, length-head, index-length p empty_line i found)))
  ]

  -- A part that holds the headers is a response itself, with a part of the body.
  pub part-message :
      (p q body : Bytes)
      → p ++ q ≡ message title fs body
      → length head ≤ length p
      → (b : Bytes) × (p ≡ message title fs b) × (b ++ q ≡ body)
  part-message p q body e long =
      let (b, same, rest) = longer_front p q head body (e ∙ message-head body) long in
      (b, same ∙ sym (message-head b), rest)
