-- ===== src/Proto/Chunked/Encoding.antt =====
-- The chunked transfer coding that `CheckChunked` is to accept.
use goreplay.Base.{ℕ, ◌+◌, ◌*◌, ◌≤◌, ◌≡◌, ◌≢◌, ◌⊎◌, Bytes, List, [], ◌∷◌, ◌++◌, All, Lacks, length}
use goreplay.Proto.Chunked.{hex_value}

-- A chunk: its size line in hexadecimal digits, with extensions or none, and its bytes.
pub record Chunk : Type 0 where
  pub digits : Bytes
  pub extension : Bytes
  pub content : Bytes

abbrev pub IsHexDigit : ℕ → Type 0
IsHexDigit c = ((b'0' ≤ c) × (c ≤ b'9')) ⊎ (((b'A' ≤ c) × (c ≤ b'F')) ⊎ ((b'a' ≤ c) × (c ≤ b'f')))

-- The number that digits spell behind `n`, with no bound.
abbrev pub number : ℕ → Bytes → ℕ
number n [] = n
number n (c ∷ s) = number (n * 16 + hex_value c) s

-- An extension is empty, or it stands behind a semicolon.
abbrev pub IsExtension : Bytes → Type 0
IsExtension e = (e ≡ []) ⊎ ((t : Bytes) × (e ≡ b';' ∷ t) × Lacks b'\r' t)

-- A size line has a digit at least.
pub record IsSizeLine (c : Chunk) : Type 0 where
  pub has_digits : c.digits ≢ []
  pub hexadecimal : All IsHexDigit c.digits
  pub extension_fits : IsExtension c.extension

-- The size line of a chunk spells the number of its bytes.
pub record IsChunk (c : Chunk) : Type 0 where
  pub size_line_fits : IsSizeLine c
  pub size : number 0 c.digits ≡ length c.content

abbrev pub encode_line : Chunk → Bytes → Bytes
encode_line c rest = c.digits ++ (c.extension ++ (b'\r' ∷ b'\n' ∷ rest))

abbrev pub encode_chunk : Chunk → Bytes → Bytes
encode_chunk c rest = encode_line c (c.content ++ (b'\r' ∷ b'\n' ∷ rest))

-- A body: chunks that hold bytes, the last chunk, whose content is empty, and what follows.
abbrev pub encode : List Chunk → Chunk → Bytes → Bytes
encode [] last rest = encode_line last (b'\r' ∷ b'\n' ∷ rest)
encode (c ∷ cs) last rest = encode_chunk c (encode cs last rest)

abbrev pub encoded_length : List Chunk → Chunk → ℕ
encoded_length [] last = length last.digits + length last.extension + 4
encoded_length (c ∷ cs) last =
    length c.digits + length c.extension + length c.content + 4 + encoded_length cs last
