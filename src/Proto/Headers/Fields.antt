-- ===== src/Proto/Headers/Fields.antt =====
-- The header section as a list of fields: the view that `Header`, `SetHeader`, `AddHeader` and
-- `DeleteHeader` implement on bytes. A field keeps the blanks round its value.
use goreplay.Base.{
  ℕ, ◌≤◌, ◌<◌, ◌≡◌, ◌⊎◌, ◌≢◌, Bool, Bytes, List, [], ◌∷◌, ◌++◌, if◌then◌else◌, All, Lacks,
}
use goreplay.Proto.Headers.{equal_fold}

pub record Field : Type 0 where
  pub name : Bytes
  pub lead : Bytes
  pub value : Bytes
  pub trail : Bytes

-- Everything between a field's colon and its line feed.
abbrev pub padded : Field → Bytes
padded f = f.lead ++ (f.value ++ (f.trail ++ (b'\r' ∷ [])))

-- A field's line, and what stands behind it.
abbrev pub line : Field → Bytes → Bytes
line f rest = f.name ++ (b':' ∷ (padded f ++ (b'\n' ∷ rest)))

abbrev pub render : List Field → Bytes → Bytes
render [] rest = rest
render (f ∷ fs) rest = line f (render fs rest)

-- A payload: title line, fields, an empty line, and the body.
abbrev pub message : Bytes → List Field → Bytes → Bytes
message title fs body = title ++ (b'\r' ∷ b'\n' ∷ render fs (b'\r' ∷ b'\n' ∷ body))

abbrev pub IsBlank : ℕ → Type 0
IsBlank c = (c < 0x21) × (c ≢ b'\n')

-- A value that starts and ends with a byte that is no blank.
pub record IsSolid (v : Bytes) : Type 0 where
  pub first : ℕ
  pub behind : Bytes
  pub last : ℕ
  pub before : Bytes
  pub starts : v ≡ first ∷ behind
  pub ends : v ≡ before ++ (last ∷ [])
  pub first_solid : 0x21 ≤ first
  pub last_solid : 0x21 ≤ last

-- An empty value stands directly between the colon and the line's end.
abbrev pub IsTrimmed : Field → Type 0
IsTrimmed f = ((f.lead ≡ []) × (f.value ≡ []) × (f.trail ≡ [])) ⊎ IsSolid f.value

pub record IsField (f : Field) : Type 0 where
  pub name_no_colon : Lacks b':' f.name
  pub name_no_newline : Lacks b'\n' f.name
  pub lead_blank : All IsBlank f.lead
  pub value_no_newline : Lacks b'\n' f.value
  pub trail_blank : All IsBlank f.trail
  pub trimmed : IsTrimmed f

-- The first field of that name, the case of letters aside.
abbrev pub value_of : Bytes → List Field → Bytes
value_of name [] = []
value_of name (f ∷ fs) = if equal_fold f.name name then f.value else value_of name fs

abbrev pub add_field : Bytes → Bytes → List Field → List Field
add_field name value fs = record { name = name; lead = b' ' ∷ []; value = value; trail = [] } ∷ fs

abbrev pub has_field : Bytes → List Field → Bool
has_field name [] = Bool.false
has_field name (f ∷ fs) = if equal_fold f.name name then Bool.true else has_field name fs

abbrev pub change_field : Bytes → Bytes → List Field → List Field
change_field name value [] = []
change_field name value (f ∷ fs) =
    if equal_fold f.name name
    then record f { value = value } ∷ fs
    else f ∷ change_field name value fs

abbrev pub set_field : Bytes → Bytes → List Field → List Field
set_field name value fs =
    if has_field name fs then change_field name value fs else add_field name value fs

abbrev pub delete_field : Bytes → List Field → List Field
delete_field name [] = []
delete_field name (f ∷ fs) = if equal_fold f.name name then fs else f ∷ delete_field name fs
