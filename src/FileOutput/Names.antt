-- ===== src/FileOutput/Names.antt =====
-- The number in a file's name.
use goreplay.Base.{
  ℕ, ◌+◌, ◌^◌, ◌<◌, ◌≡◌, ◌⊎◌, inl, inr, refl, sym, ap, ◌∙◌, Bytes, none, some, [], ◌∷◌, ◌++◌,
  append_assoc, length, length-append, drop, take-append, drop-append, All, Lacks, index_byte,
  index_byte-Lacks, arith,
}
use goreplay.Text.Ints.{pos}
use goreplay.Text.Decimal.{format_int, format_ℕ, parse_int-format, format_ℕ-IsDigit, IsDigit}
use goreplay.Text.Split.{last_index-append}
use goreplay.FileOutput.{ext, without_ext, split_index, get_file_index, set_file_index}

-- An extension: a dot, and text without a dot or a slash.
abbrev IsExt : Bytes → Type 0
IsExt t = Lacks b'.' t × Lacks b'/' t

digits-Lacks : (c : ℕ) (s : Bytes) → (c < b'0') ⊎ (b'9' < c) → All IsDigit s → Lacks c s
digits-Lacks c [] h d = tt
digits-Lacks c (x ∷ s) h ((lo, hi), d) =
    (elim h [ inl a ↦ omega arith | inr a ↦ omega arith ], digits-Lacks c s h d)

ext-append : (p t : Bytes) → IsExt t → ext (p ++ (b'.' ∷ t)) ≡ b'.' ∷ t
unfolding ext
ext-append p t (dot, slash) =
    let behind = drop-append p (b'.' ∷ t) (length p) refl in
    let no_slash : index_byte (drop (length p) (p ++ (b'.' ∷ t))) b'/' ≡ none =
      ap (λ s. index_byte s b'/') behind ∙ index_byte-Lacks (b'.' ∷ t) b'/' (omega arith, slash) in
    rw (last_index-append p t b'.' dot, ext) (rw no_slash behind)

without_ext-append : (p t : Bytes) → IsExt t → without_ext (p ++ (b'.' ∷ t)) ≡ p
unfolding without_ext
without_ext-append p t h =
    rw (ext-append p t h) (take-append p (b'.' ∷ t) _ (omega (arith, length-append p (b'.' ∷ t))))

-- A name without its extension that `set_file_index` makes.
abbrev numbered : Bytes → ℕ → Bytes
numbered front n = front ++ (b'_' ∷ format_ℕ n)

number_behind : (front : Bytes) (n : ℕ) → drop (length front + 1) (numbered front n) ≡ format_ℕ n
number_behind front n =
    ap (drop (length front + 1)) (sym (append_assoc front (b'_' ∷ []) (format_ℕ n)))
    ∙ drop-append (front ++ (b'_' ∷ [])) (format_ℕ n) (length front + 1)
        (omega (arith, length-append front (b'_' ∷ [])))

split_index-numbered :
    (front : Bytes) (n : ℕ) → n < 2 ^ 63 → split_index (numbered front n) ≡ some (front, pos n)
unfolding split_index
split_index-numbered front n h =
    rw
      (
        last_index-append front (format_ℕ n) b'_'
            (digits-Lacks b'_' (format_ℕ n) (inr (omega arith)) (format_ℕ-IsDigit n)),
        split_index,
      )
      (rw (number_behind front n) (
        rw (parse_int-format n h)
          (ap (λ f. some (f, pos n)) (take-append front _ (length front) refl))))

-- The text that `set_file_index` keeps.
unfoldable front_of : Bytes → Bytes
front_of name = elim (split_index (without_ext name)) [
  | none ↦ without_ext name
  | some (front, n) ↦ front
]

set_file_index-shape :
    (name : Bytes) (n : ℕ) (t : Bytes)
    → ext name ≡ b'.' ∷ t
    → set_file_index name (pos n) ≡ numbered (front_of name) n ++ (b'.' ∷ t)
unfolding set_file_index front_of format_int
set_file_index-shape name n t e = rw e (sym (append_assoc (front_of name) _ _))

-- Let a name have an extension. Then the number that is put into it, below 2^63, is read back, and
-- another number takes its place.
pub get_file_index-set :
    (p t : Bytes) (i j : ℕ)
    → IsExt t
    → i < 2 ^ 63
    → let name : Bytes = p ++ (b'.' ∷ t) in
      (get_file_index (set_file_index name (pos i)) ≡ pos i)
      × (set_file_index (set_file_index name (pos i)) (pos j) ≡ set_file_index name (pos j))
unfolding get_file_index front_of
get_file_index-set p t i j h k =
    let name : Bytes = p ++ (b'.' ∷ t) in
    let shape = set_file_index-shape name i t (ext-append p t h) in
    let bare : without_ext (set_file_index name (pos i)) ≡ numbered (front_of name) i =
      ap without_ext shape ∙ without_ext-append (numbered (front_of name) i) t h in
    let split : split_index (without_ext (set_file_index name (pos i)))
        ≡ some (front_of name, pos i) =
      ap split_index bare ∙ split_index-numbered (front_of name) i k in
    let ext_is : ext (set_file_index name (pos i)) ≡ b'.' ∷ t =
      ap ext shape ∙ ext-append (numbered (front_of name) i) t h in
    let front_is : front_of (set_file_index name (pos i)) ≡ front_of name =
      rw (split, front_of) refl in
    (
      rw (split, get_file_index) refl,
      set_file_index-shape (set_file_index name (pos i)) j t ext_is
          ∙ (ap (λ f. numbered f j ++ (b'.' ∷ t)) front_is
              ∙ sym (set_file_index-shape name j t (ext-append p t h))),
    )
