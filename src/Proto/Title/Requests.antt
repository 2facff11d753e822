-- ===== src/Proto/Title/Requests.antt =====
-- Request lines that `HasRequestTitle` accepts.
use goreplay.Base.{
  ℕ, ◌+◌, ◌≤◌, ◌≡◌, ◌≢◌, ◌⊎◌, inl, inr, refl, sym, ap, ◌∙◌, subst, true, Bytes, codes, List, done,
  ◌>>=◌, some, [], ◌∷◌, ◌++◌, All, All-append, Lacks, length, length-append, length-pos,
  append_assoc, arith, equal, equal_iff, index_byte, index_byte-append, slice, slice_from, slice_to,
  slice-append, slice_from-append, slice_to-append, le→ltb, Bool-cases,
}
use goreplay.Proto.Headers.Scan.{index-crlf}
use goreplay.Proto.Title.{
  method, methods, one_of, count_byte, parse_http_version, is_http_one, request_version,
  has_request_title, has_title,
}

abbrev pub title : Bytes → Bytes → Bytes → Bytes
title m p v = m ++ (b' ' ∷ (p ++ (b' ' ∷ v)))

-- A payload that begins with a request line.
abbrev pub request : Bytes → Bytes → Bytes → Bytes → Bytes
request m p v rest = title m p v ++ (b'\r' ∷ b'\n' ∷ rest)

abbrev pub IsPathText : Bytes → Type 0
IsPathText p = (p ≢ []) × Lacks b' ' p × Lacks b'\n' p

abbrev pub IsVersion : Bytes → Type 0
IsVersion v = (v ≡ codes "HTTP/1.1") ⊎ (v ≡ codes "HTTP/1.0")

pub record IsRequest (m p v : Bytes) : Type 0 where
  pub is_method : one_of m methods ≡ true
  pub path_text : IsPathText p
  pub version : IsVersion v

abbrev IsWord : Bytes → Type 0
IsWord m = Lacks b' ' m × Lacks b'\n' m × (3 ≤ length m)

one_of-All :
    (P : Bytes → Type 0) (m : Bytes) (xs : List Bytes) → All P xs → one_of m xs ≡ true → P m
unfolding one_of
one_of-All P m [] h e = cc
one_of-All P m (x ∷ xs) (px, h) e = elim (Bool-cases (equal m x)) [
  | inl same ↦ subst P (sym ((equal_iff m x).0 same)) px
  | inr other ↦ one_of-All P m xs h (rw other at e)
]

methods-IsWord : All IsWord methods
methods-IsWord = omega arith

method-IsWord : (m : Bytes) → one_of m methods ≡ true → IsWord m
method-IsWord m = one_of-All IsWord m methods methods-IsWord

version_text : (v : Bytes) → IsVersion v → Lacks b' ' v × Lacks b'\n' v × (length v ≡ 8)
version_text v (inl e) =
    subst (λ u. Lacks b' ' u × Lacks b'\n' u × (length u ≡ 8)) (sym e) (omega arith)
version_text v (inr e) =
    subst (λ u. Lacks b' ' u × Lacks b'\n' u × (length u ≡ 8)) (sym e) (omega arith)

version-is_http_one : (v : Bytes) → IsVersion v → is_http_one (parse_http_version v) ≡ true
unfolding parse_http_version equal
version-is_http_one v (inl e) = subst (λ u. is_http_one (parse_http_version u) ≡ true) (sym e) refl
version-is_http_one v (inr e) = subst (λ u. is_http_one (parse_http_version u) ≡ true) (sym e) refl

count_byte-Lacks : (s : Bytes) (c : ℕ) → Lacks c s → count_byte s c ≡ 0
unfolding count_byte
count_byte-Lacks [] c h = refl
count_byte-Lacks (x ∷ s) c (hx, h) = ground (arith, count_byte-Lacks s c h)

count_byte-append : (s t : Bytes) (c : ℕ) → count_byte (s ++ t) c ≡ count_byte s c + count_byte t c
unfolding count_byte
count_byte-append [] t c = omega arith
count_byte-append (x ∷ s) t c = ground (arith, count_byte-append s t c)

count_byte_self : (s : Bytes) (c : ℕ) → count_byte (c ∷ s) c ≡ 1 + count_byte s c
unfolding count_byte
count_byte_self s c = ground arith

module _ (m p v rest : Bytes) (w : IsRequest m p v) where
  abbrev payload : Bytes
  payload = request m p v rest

  word : IsWord m
  word = method-IsWord m w.is_method

  texts : Lacks b' ' v × Lacks b'\n' v × (length v ≡ 8)
  texts = version_text v w.version

  title_no_newline : Lacks b'\n' (title m p v)
  title_no_newline =
      All-append _ m (b' ' ∷ (p ++ (b' ' ∷ v))) word.1
        ((λ e. omega arith), All-append _ p (b' ' ∷ v) w.path_text.2 ((λ e. omega arith), texts.1))

  length-title : length (title m p v) ≡ length m + 1 + length p + 1 + length v
  length-title =
      omega (arith, length-append m (b' ' ∷ (p ++ (b' ' ∷ v))), length-append p (b' ' ∷ v))

  two_spaces : count_byte (title m p v) b' ' ≡ 2
  two_spaces =
      count_byte-append m (b' ' ∷ (p ++ (b' ' ∷ v))) b' '
      ∙ omega (
        arith,
        count_byte-Lacks m b' ' word.0,
        count_byte_self (p ++ (b' ' ∷ v)) b' ',
        count_byte-append p (b' ' ∷ v) b' ',
        count_byte-Lacks p b' ' w.path_text.1,
        count_byte_self v b' ',
        count_byte-Lacks v b' ' texts.0,
      )

  -- The payload round its first and its second space.
  first_space : payload ≡ m ++ (b' ' ∷ (p ++ (b' ' ∷ (v ++ (b'\r' ∷ b'\n' ∷ rest)))))
  first_space = simp append_assoc

  pub find_first_space : index_byte payload b' ' ≡ some (length m)
  find_first_space = ap (λ u. index_byte u b' ') first_space ∙ index_byte-append m _ b' ' word.0

  pub behind_first_space :
      slice_from payload (length m + 1) ≡ done (p ++ (b' ' ∷ (v ++ (b'\r' ∷ b'\n' ∷ rest))))
  behind_first_space =
      ap (λ u. slice_from u (length m + 1)) (first_space ∙ sym (append_assoc m (b' ' ∷ []) _))
      ∙ slice_from-append (m ++ (b' ' ∷ [])) _ (length m + 1)
          (omega (arith, length-append m (b' ' ∷ [])))

  pub find_second_space :
      index_byte (p ++ (b' ' ∷ (v ++ (b'\r' ∷ b'\n' ∷ rest)))) b' ' ≡ some (length p)
  find_second_space = index_byte-append p _ b' ' w.path_text.1

  version_slice : slice payload (length p + length m + 2) (length (title m p v)) ≡ done v
  version_slice =
      ap (λ u. slice u (length p + length m + 2) (length (title m p v))) seam
      ∙ slice-append ((m ++ (b' ' ∷ [])) ++ (p ++ (b' ' ∷ []))) v (b'\r' ∷ b'\n' ∷ rest) _ _
          (omega (arith, size)) (omega (arith, size, length-title))
    where
      seam : payload ≡ ((m ++ (b' ' ∷ [])) ++ (p ++ (b' ' ∷ []))) ++ (v ++ (b'\r' ∷ b'\n' ∷ rest))
      seam = simp append_assoc

      size : length ((m ++ (b' ' ∷ [])) ++ (p ++ (b' ' ∷ []))) ≡ length m + 1 + (length p + 1)
      size = omega (
        arith,
        length-append (m ++ (b' ' ∷ [])) (p ++ (b' ' ∷ [])),
        length-append m (b' ' ∷ []),
        length-append p (b' ' ∷ []),
      )

  pub method-request : method payload ≡ done m
  unfolding method
  method-request =
      rw (find_first_space, method)
        (ap (λ u. slice_to u (length m)) first_space ∙ slice_to-append m _ (length m) refl)

  request_version-request : request_version payload (length (title m p v)) m ≡ done true
  unfolding request_version
  request_version-request =
      rw behind_first_space (
        rw (find_second_space, ◌>>=◌)
          (rw version_slice (ap done (version-is_http_one v w.version))))

  -- Every request line with a known method, a path and a version of HTTP/1 is recognised.
  pub has_request_title-request : has_request_title payload ≡ done true
  unfolding has_request_title
  has_request_title-request =
      rw
        (le→ltb (length payload) 16 (
          omega (
            arith,
            word.2,
            texts.2,
            length-pos p w.path_text.0,
            length-title,
            length-append (title m p v) (b'\r' ∷ b'\n' ∷ rest),
          )))
        (rw (index-crlf (title m p v) rest title_no_newline) (
          rw (slice_to-append (title m p v) (b'\r' ∷ b'\n' ∷ rest) _ refl)
            (rw two_spaces (rw method-request (rw w.is_method request_version-request)))))

  pub has_title-request : has_title payload ≡ done true
  unfolding has_title
  has_title-request = rw has_request_title-request
