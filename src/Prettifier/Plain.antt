-- ===== src/Prettifier/Plain.antt =====
-- A chunked body that is written out.
use goreplay.Base.{◌≡◌, false, some, Bytes, codes, done, List, [], ◌∷◌, ◌++◌, length, equal}
use goreplay.Text.Decimal.{format_ℕ}
use goreplay.Proto.Headers.Fields.{Field, message, set_field, delete_field}
use goreplay.Proto.Headers.Refine.{IsMessage}
use goreplay.Proto.Chunked.Encoding.{Chunk, encode}
use goreplay.Prettifier.Sections.{section}
use goreplay.Prettifier.{parse_headers, Readers, coding_of}

-- The names and the values of fields.
abbrev pub values : List Field → List (Bytes × Bytes)
values [] = []
values (f ∷ fs) = (f.name, f.value) ∷ values fs

-- The bytes of chunks.
abbrev pub contents : List Chunk → Bytes
contents [] = []
contents (c ∷ cs) = c.content ++ contents cs

-- The reader of header sections gives the values of the two codings as the fields have them.
pub record ReadsFields (r : Readers) (fs : List Field) : Type 0 where
  pub fields : List (Bytes × Bytes)
  pub reads : r.read_mime (section fs) ≡ some fields
  pub transfer :
      coding_of (codes "Transfer-Encoding") fields []
      ≡ coding_of (codes "Transfer-Encoding") (values fs) []
  pub encoding :
      coding_of (codes "Content-Encoding") fields []
      ≡ coding_of (codes "Content-Encoding") (values fs) []

module _ (r : Readers) (title : Bytes) (fs : List Field) (w : IsMessage title fs) where
  -- The fields of a message whose coding was undone, with the length of its content.
  abbrev pub plain_fields : Bytes → Bytes → List Field
  plain_fields coding plain =
      set_field (codes "Content-Length") (format_ℕ (length plain)) (delete_field coding fs)

  module _ (fields : List (Bytes × Bytes)) (cs : List Chunk) (last : Chunk) (more : Bytes)
      (parsed : parse_headers r.read_mime (message title fs []) ≡ done fields)
      (chunked : coding_of (codes "Transfer-Encoding") fields [] ≡ codes "chunked")
      (no_gzip : equal (coding_of (codes "Content-Encoding") fields []) (codes "gzip")
        ≡ false) where
    abbrev content : Bytes
    content = encode cs last more

    abbrev plain : Bytes
    plain = r.dechunk content
