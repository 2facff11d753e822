-- ===== src/Proto/Title.antt =====
-- proto/proto.go: the first line of a payload: `Method`, `HasRequestTitle`, `HasResponseTitle`.
pub mod Status
pub mod Requests
pub mod Responses
pub mod Faults
pub mod Examples
use goreplay.Base.{
  ℕ, zero, suc, ◌+◌, ◌-◌, ◌*◌, Bool, true, false, not, ◌&&◌, ◌||◌, Bytes, codes, List, Outcome,
  done, ◌>>=◌, Option, none, some, [], ◌∷◌, slice_from, slice_to, slice, take, length, ltb, leb,
  ◌==◌, if◌then◌else◌, index, index_byte, equal, has_prefix,
}
use goreplay.Proto.Headers.{crlf}
use goreplay.Proto.Title.Status.{status_text}

unfoldable pub method : Bytes → Outcome Bytes
method payload = elim (index_byte payload b' ') [ none ↦ done [] | some end ↦ slice_to payload end ]

abbrev pub methods : List Bytes
methods =
    codes "CONNECT"
    ∷ codes "DELETE"
    ∷ codes "GET"
    ∷ codes "HEAD"
    ∷ codes "OPTIONS"
    ∷ codes "PATCH"
    ∷ codes "POST"
    ∷ codes "PUT"
    ∷ codes "TRACE"
    ∷ []

-- The loop over `Methods`.
unfoldable pub one_of : Bytes → List Bytes → Bool
one_of m [] = false
one_of m (x ∷ xs) = equal m x || one_of m xs

abbrev pub min_request_count : ℕ
min_request_count = 16

abbrev pub min_response_count : ℕ
min_response_count = 17

abbrev pub version_len : ℕ
version_len = 8

-- `strings.Count` of a text of one byte.
unfoldable pub count_byte : Bytes → ℕ → ℕ
count_byte [] c = 0
count_byte (x ∷ s) c = (if x == c then 1 else 0) + count_byte s c

abbrev pub is_digit : ℕ → Bool
is_digit c = leb b'0' c && leb c b'9'

-- `http.ParseHTTPVersion`: `HTTP/`, a digit, a dot and a digit.
unfoldable pub parse_http_version : Bytes → Option (ℕ × ℕ)
parse_http_version (h ∷ t ∷ t' ∷ p ∷ slash ∷ major ∷ dot ∷ minor ∷ []) =
    if equal (h ∷ t ∷ t' ∷ p ∷ slash ∷ []) (codes "HTTP/")
      && (dot == b'.' && (is_digit major && is_digit minor))
    then some (major - b'0', minor - b'0')
    else none
parse_http_version _ = none

-- `ok && major == 1 && (minor == 0 || minor == 1)`
abbrev pub is_http_one : Option (ℕ × ℕ) → Bool
is_http_one none = false
is_http_one (some (major, minor)) = major == 1 && (minor == 0 || minor == 1)

-- `HasRequestTitle` behind the test of the method.
unfoldable pub request_version : Bytes → ℕ → Bytes → Outcome Bool
request_version s title_len name = do
  rest ← slice_from s (length name + 1)
  elim (index_byte rest b' ') [
    | none ↦ done false
    | some path ↦ do
      version ← slice s (path + length name + 2) title_len
      done (is_http_one (parse_http_version version))
  ]

unfoldable pub has_request_title : Bytes → Outcome Bool
has_request_title s =
    if ltb (length s) min_request_count then done false else (elim (index s crlf) [
      | none ↦ done false
      | some title_len ↦ do
        title ← slice_to s title_len
        if not (count_byte title b' ' == 2) then done false else (do
          name ← method s
          if one_of name methods then request_version s title_len name else done false)
    ])

-- `strconv.Atoi` on three bytes, as far as a status text can follow: a sign leaves two digits, and
-- no status has so few.
unfoldable pub parse_status : Bytes → Option ℕ
parse_status (a ∷ b ∷ c ∷ []) =
    if is_digit a && (is_digit b && is_digit c)
    then some ((a - b'0') * 100 + (b - b'0') * 10 + (c - b'0'))
    else none
parse_status _ = none

unfoldable pub has_response_title : Bytes → Outcome Bool
has_response_title s =
    if ltb (length s) min_response_count then done false else (elim (index s crlf) [
      | none ↦ done false
      | some title_len ↦ do
        version ← slice s 0 version_len
        if not (is_http_one (parse_http_version version)) then done false else (do
          digits ← slice s (version_len + 1) (version_len + 4)
          elim (parse_status digits) [
            | none ↦ done false
            | some status ↦ elim (status_text status) [
              | none ↦ done false
              | some text ↦
                  if ltb (length s) (title_len + length crlf)
                  then done false
                  else (do reason ← slice s (version_len + 5) title_len; done (equal reason text))
            ]
          ])
    ])

unfoldable pub has_title : Bytes → Outcome Bool
has_title payload = do
  request ← has_request_title payload
  if request then done true else has_response_title payload
