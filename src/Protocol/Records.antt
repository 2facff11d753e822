-- ===== src/Protocol/Records.antt =====
-- What is written in the header of a record is read back from it.
use goreplay.Base.{
  ℕ, ◌+◌, ◌≤◌, ◌≡◌, ◌≢◌, refl, sym, ap, ◌∙◌, Bytes, done, some, List, [], ◌∷◌, ◌++◌, append_assoc,
  All, All-append, Lacks, length, length-append, take, drop, take-append, drop-append, replicate,
  arith, index_byte, index_byte-append, le→ltb,
}
use goreplay.Text.Ints.{ℤ, pos, negsuc}
use goreplay.Text.Decimal.{format_int, format_ℕ, format_ℕ-IsDigit, IsDigit}
use goreplay.Text.Hex.{hex_encode, IsByte, IsHexDigit, hex_decode-encode, hex_encode-IsHexDigit}
use goreplay.Text.Split.{split_byte, split_byte-append, split_byte-Lacks}
use goreplay.Protocol.{payload_header, payload_body, payload_meta, payload_id, decode_id}

-- A text that can stand as a word of a header: no blank and no line feed.
abbrev pub IsWord : Bytes → Type 0
IsWord s = Lacks b' ' s × Lacks b'\n' s

All-map {ℓ} :
    {A : Type ℓ} (P Q : A → Type 0) → ((a : A) → P a → Q a) → (xs : List A) → All P xs → All Q xs
All-map P Q f [] h = tt
All-map P Q f (x ∷ xs) (hx, h) = (f x hx, All-map P Q f xs h)

digits-IsWord : (n : ℕ) → IsWord (format_ℕ n)
digits-IsWord n = (
  All-map IsDigit _ (λ c h e. omega arith) (format_ℕ n) (format_ℕ-IsDigit n),
  All-map IsDigit _ (λ c h e. omega arith) (format_ℕ n) (format_ℕ-IsDigit n),
)

format_int-IsWord : (n : ℤ) → IsWord (format_int n)
unfolding format_int
format_int-IsWord (pos n) = digits-IsWord n
format_int-IsWord (negsuc n) = (
  ((λ e. omega arith), (digits-IsWord (n + 1)).0),
  ((λ e. omega arith), (digits-IsWord (n + 1)).1),
)

-- The header without its line feed.
abbrev words : ℕ → Bytes → ℤ → ℤ → Bytes
words t uuid timing latency =
    t ∷ (b' ' ∷ (uuid ++ (b' ' ∷ (format_int timing ++ (b' ' ∷ format_int latency)))))

words-Lacks :
    (t : ℕ) (uuid : Bytes) (timing latency : ℤ)
    → t ≢ b'\n'
    → IsWord uuid
    → Lacks b'\n' (words t uuid timing latency)
words-Lacks t uuid timing latency ht hu = (
  ht,
  (
    (λ e. omega arith),
    All-append _ uuid _ hu.1 (
      (λ e. omega arith),
      All-append _ (format_int timing) _ (format_int-IsWord timing).1
          ((λ e. omega arith), (format_int-IsWord latency).1),
    ),
  ),
)

header-words :
    (t : ℕ) (uuid : Bytes) (timing latency : ℤ) (body : Bytes)
    → payload_header t uuid timing latency ++ body ≡ words t uuid timing latency ++ (b'\n' ∷ body)
unfolding payload_header
header-words t uuid timing latency body = simp append_assoc

module _ (t : ℕ) (uuid : Bytes) (timing latency : ℤ) (body : Bytes) (ht : (t ≢ b' ') × (t ≢ b'\n'))
    (hu : IsWord uuid) where
  abbrev record' : Bytes
  record' = payload_header t uuid timing latency ++ body

  line_end : index_byte record' b'\n' ≡ some (length (words t uuid timing latency))
  line_end =
      ap (λ u. index_byte u b'\n') (header-words t uuid timing latency body)
      ∙ index_byte-append (words t uuid timing latency) body b'\n'
          (words-Lacks t uuid timing latency ht.1 hu)

  split_words :
      split_byte (words t uuid timing latency) b' '
      ≡ (t ∷ []) ∷ uuid ∷ format_int timing ∷ format_int latency ∷ []
  split_words =
      split_byte-append (t ∷ []) _ b' ' (ht.0, tt)
      ∙ ap (◌∷◌ (t ∷ [])) (
          split_byte-append uuid _ b' ' hu.0
          ∙ ap (◌∷◌ uuid) (
              split_byte-append (format_int timing) _ b' ' (format_int-IsWord timing).0
              ∙ ap (◌∷◌ (format_int timing))
                  (split_byte-Lacks (format_int latency) b' ' (format_int-IsWord latency).0)))

  meta-header_lem :
      payload_meta record' ≡ (t ∷ []) ∷ uuid ∷ format_int timing ∷ format_int latency ∷ []
  unfolding payload_meta
  meta-header_lem =
      rw (line_end, payload_meta)
        (ap (λ u. split_byte u b' ')
            (ap (take (length (words t uuid timing latency)))
                (header-words t uuid timing latency body)
              ∙ take-append (words t uuid timing latency) (b'\n' ∷ body) _ refl)
          ∙ split_words)

  body-header_lem : payload_body record' ≡ body
  unfolding payload_body
  body-header_lem =
      rw (line_end, payload_body)
        (ap (drop (length (words t uuid timing latency) + 1)) (
            header-words t uuid timing latency body
            ∙ sym (append_assoc (words t uuid timing latency) (b'\n' ∷ []) body))
          ∙ drop-append (words t uuid timing latency ++ (b'\n' ∷ [])) body _
              (omega (arith, length-append (words t uuid timing latency) (b'\n' ∷ []))))

-- The words of a header and the payload behind it are read back as they were written, whatever the
-- payload holds, if the type and the identifier hold no blank and no line feed.
pub meta-header :
    (t : ℕ) (uuid : Bytes) (timing latency : ℤ) (body : Bytes)
    → (t ≢ b' ') × (t ≢ b'\n')
    → IsWord uuid
    → (payload_meta (payload_header t uuid timing latency ++ body)
        ≡ (t ∷ []) ∷ uuid ∷ format_int timing ∷ format_int latency ∷ [])
      × (payload_body (payload_header t uuid timing latency ++ body) ≡ body)
meta-header t uuid timing latency body ht hu = (
  meta-header_lem t uuid timing latency body ht hu,
  body-header_lem t uuid timing latency body ht hu,
)

hex-IsWord : (id : Bytes) → All IsByte id → IsWord (hex_encode id)
hex-IsWord id h = (
  All-map IsHexDigit _ (λ c k e. omega arith) (hex_encode id) (hex_encode-IsHexDigit id h),
  All-map IsHexDigit _ (λ c k e. omega arith) (hex_encode id) (hex_encode-IsHexDigit id h),
)

-- An identifier of at most 20 bytes that was written in hexadecimal is read back, with zeros behind it.
pub payload_id-header :
    (t : ℕ) (id : Bytes) (timing latency : ℤ) (body : Bytes)
    → (t ≢ b' ') × (t ≢ b'\n')
    → All IsByte id
    → length id ≤ 20
    → payload_id (payload_header t (hex_encode id) timing latency ++ body)
      ≡ done (id ++ drop (length id) (replicate 20 0))
unfolding payload_id decode_id
payload_id-header t id timing latency body ht hid short =
    rw (meta-header_lem t (hex_encode id) timing latency body ht (hex-IsWord id hid), payload_id)
      (rw (hex_decode-encode id hid) (rw (le→ltb 20 (length id) short) refl))
