-- ===== src/Proto/Chunked/SizeLine.antt =====
-- What `CheckChunked` reads of a size line.
use goreplay.Base.{
  ℕ, ◌+◌, ◌*◌, ◌%◌, ◌≤◌, ◌<◌, ◌≡◌, ◌≢◌, inl, inr, refl, sym, ap, ◌∙◌, subst, false, Bytes, none,
  some, done, ◌>>=◌, [], ◌∷◌, ◌++◌, All, All-append, Lacks, length, length-append, arith,
  append_assoc, append-nil, index_byte, index_byte-append, index_byte-Lacks, slice,
  slice_from-append, slice-append, ltb, le→ltb, lt→leb, length-pos,
}
use goreplay.Proto.Chunked.{word, hex_value, atoi_from, size_line}
use goreplay.Proto.Chunked.Encoding.{Chunk, IsHexDigit, number, IsExtension, IsSizeLine}

le-number : (n : ℕ) (s : Bytes) → n ≤ number n s
le-number n [] = omega arith
le-number n (c ∷ s) = omega (arith, le-number (n * 16 + hex_value c) s)

hex_value-lt : (c : ℕ) → IsHexDigit c → (c < 128) × (hex_value c < 16) × (c ≢ b'\r') × (c ≢ b';')
hex_value-lt c h = (ground arith, ground arith, ground arith, ground arith)

-- `atoI` reads hexadecimal digits exactly, as long as their number fits the word.
atoi_from-number :
    (n : ℕ) (s : Bytes)
    → All IsHexDigit s
    → number n s < word
    → atoi_from n s 16 ≡ some (number n s)
unfolding atoi_from
atoi_from-number n [] h fits = refl
atoi_from-number n (c ∷ s) (d, h) fits =
    let (small, below, cr, semi) = hex_value-lt c d in
    let next = n * 16 + hex_value c in
    let bound : next < word = omega (arith, le-number next s) in
    let wrap : next % word ≡ next = omega arith in
    rw (le→ltb 127 c (omega arith), lt→leb 16 (hex_value c) below, wrap)
      (atoi_from-number next s h fits)

digits-Lacks : (s : Bytes) → All IsHexDigit s → Lacks b'\r' s × Lacks b';' s
digits-Lacks [] h = (tt, tt)
digits-Lacks (c ∷ s) (d, h) =
    let (small, below, cr, semi) = hex_value-lt c d in
    let (a, b) = digits-Lacks s h in ((cr, a), (semi, b))

extension-Lacks : (e : Bytes) → IsExtension e → Lacks b'\r' e
extension-Lacks e (inl h) = subst (Lacks b'\r') (sym h) tt
extension-Lacks e (inr (t, h, l)) = subst (Lacks b'\r') (sym h) ((omega arith), l)

-- Where the extension begins, and otherwise the end of the line.
extension_start :
    (d e : Bytes)
    → Lacks b';' d
    → IsExtension e
    → (elim (index_byte (d ++ e) b';') [ none ↦ length d + length e | some k ↦ k ]) ≡ length d
extension_start d e h (inl empty) =
    ap (λ u. elim (index_byte (d ++ u) b';') [ none ↦ length d + length u | some k ↦ k ]) empty
    ∙ rw (append-nil d) (rw (index_byte-Lacks d b';' h) (omega arith))
extension_start d e h (inr (t, marked, l)) =
    ap (λ u. elim (index_byte (d ++ u) b';') [ none ↦ length d + length u | some k ↦ k ]) marked
    ∙ rw (index_byte-append d t b';' h)

-- One size line, whatever follows its carriage return.
pub size_line-line :
    (p : Bytes) (c : Chunk) (more : Bytes) (i : ℕ)
    → IsSizeLine c
    → number 0 c.digits < word
    → i ≡ length p
    → size_line (p ++ (c.digits ++ (c.extension ++ (b'\r' ∷ more)))) i
      ≡ done (some (i + (length c.digits + length c.extension + 2), number 0 c.digits))
unfolding size_line
size_line-line p c more i w fits e = rw (slice_from-append p (line_text) i e) (
    rw (at_cr, ◌>>=◌)
      (rw nonempty (
        rw whole_text (
          rw
            (
              extension_start c.digits c.extension (digits-Lacks c.digits w.hexadecimal).1
                  w.extension_fits,
              ◌>>=◌,
            )
            (rw only_digits (rw (atoi_from-number 0 c.digits w.hexadecimal fits)))))))
  where
    line_text : Bytes
    line_text = c.digits ++ (c.extension ++ (b'\r' ∷ more))

    text : Bytes
    text = c.digits ++ c.extension

    size : length text ≡ length c.digits + length c.extension
    size = length-append c.digits c.extension

    at_cr : index_byte (line_text) b'\r' ≡ some (length c.digits + length c.extension)
    at_cr =
        ap (λ u. index_byte u b'\r') (sym (append_assoc c.digits c.extension (b'\r' ∷ more)))
        ∙ index_byte-append text more b'\r' (
            All-append _ c.digits c.extension (digits-Lacks c.digits w.hexadecimal).0
              (extension-Lacks c.extension w.extension_fits))
        ∙ ap some size

    nonempty : ltb (length c.digits + length c.extension) 1 ≡ false
    nonempty = le→ltb _ 1 (omega (arith, length-pos c.digits w.has_digits))

    whole_text : slice (p ++ line_text) i (i + (length c.digits + length c.extension)) ≡ done text
    whole_text =
        ap (λ u. slice (p ++ u) i (i + (length c.digits + length c.extension)))
          (sym (append_assoc c.digits c.extension (b'\r' ∷ more)))
        ∙ slice-append p text (b'\r' ∷ more) i _ e (omega (arith, size))

    only_digits : slice (p ++ line_text) i (i + length c.digits) ≡ done c.digits
    only_digits =
        slice-append p c.digits (c.extension ++ (b'\r' ∷ more)) i (i + length c.digits) e
          (omega arith)
