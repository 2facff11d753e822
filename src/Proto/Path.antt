-- ===== src/Proto/Path.antt =====
-- proto/proto.go: the path of a request and its query parameters.
pub mod Laws
use goreplay.Base.{
  ℕ, ◌+◌, ◌-◌, Bool, true, false, Bytes, codes, Outcome, done, panic, ◌>>=◌, Option, none, some, [],
  ◌∷◌, ◌++◌, slice_from, slice, length, if◌then◌else◌, index, index_byte, has_prefix, ltb, leb,
}
use goreplay.ByteUtils.{replace}
use goreplay.Proto.Headers.{set_header}
use goreplay.Proto.Title.{has_title}

-- Where the path starts, and where it ends: with no second space the end lies before the start,
-- and the slice panics.
unfoldable pub path_start : Bytes → ℕ
path_start payload = elim (index_byte payload b' ') [ none ↦ 0 | some i ↦ i + 1 ]

unfoldable pub path_end : Bytes → Outcome ℕ
path_end payload = do
  rest ← slice_from payload (path_start payload)
  elim (index_byte rest b' ') [ none ↦ panic | some n ↦ done (path_start payload + n) ]

unfoldable pub path : Bytes → Outcome Bytes
path payload = do
  titled ← has_title payload
  if titled then (do end ← path_end payload; slice payload (path_start payload) end) else done []

-- With no title the result is nil. With no second space the range ends one byte before its start.
unfoldable pub set_path : Bytes → Bytes → Outcome Bytes
set_path payload new = do
  titled ← has_title payload
  if titled
      then (do
        rest ← slice_from payload (path_start payload)
        elim (index_byte rest b' ') [
          | some n ↦ replace payload (path_start payload) (path_start payload + n) new
          | none ↦
              if ltb (path_start payload) 1
              then panic
              else replace payload (path_start payload) (path_start payload - 1) new
        ])
      else done []

-- A parameter's value with its place in the path; `none` when `valueStart` is -1.
pub record Param : Type 0 where
  pub value : Bytes
  pub value_start : ℕ
  pub value_end : ℕ

-- `PathParam` behind the search for `&name=` or `?name=`.
unfoldable pub param_at : Bytes → Bytes → ℕ → Outcome (Option Param)
param_at path name param_start = do
  let value_start = param_start + length name + 2
  rest ← slice_from path value_start
  let value_end : ℕ = elim (index_byte rest b'&') [ none ↦ length path | some n ↦ n + value_start ]
  value ← slice path value_start value_end
  done (some (record { value = value; value_start = value_start; value_end = value_end }))

unfoldable pub find_param : Bytes → Bytes → Outcome (Option Param)
find_param path name = elim (index path (b'&' ∷ (name ++ (b'=' ∷ [])))) [
  | some i ↦ param_at path name i
  | none ↦ elim (index path (b'?' ∷ (name ++ (b'=' ∷ [])))) [
    | some i ↦ param_at path name i
    | none ↦ done none
  ]
]

unfoldable pub path_param : Bytes → Bytes → Outcome (Option Param)
path_param payload name = do p ← path payload; find_param p name

-- The path that `SetPathParam` writes.
unfoldable pub with_param : Bytes → Bytes → Bytes → Outcome Bytes
with_param p name value = do
  found ← find_param p name
  elim found [
    | some r ↦ replace p r.value_start r.value_end value
    | none ↦
        let mark : ℕ = elim (index_byte p b'?') [ none ↦ b'?' | some i ↦ b'&' ] in
        done (p ++ (mark ∷ (name ++ (b'=' ∷ value))))
  ]

unfoldable pub set_path_param : Bytes → Bytes → Bytes → Outcome Bytes
set_path_param payload name value = do
  p ← path payload
  new ← with_param p name value
  set_path payload new

-- The end of the host in a path that starts with `http`: three bytes behind the first colon, up to
-- the next slash; a position of -1 counts in both sums.
unfoldable pub host_end : Bytes → Outcome ℕ
host_end p = do
  let host_start : ℕ = elim (index_byte p b':') [ none ↦ 2 | some i ↦ i + 3 ]
  rest ← slice_from p host_start
  done (elim (index_byte rest b'/') [ none ↦ host_start - 1 | some n ↦ host_start + n ])

unfoldable pub set_host : Bytes → Bytes → Bytes → Outcome Bytes
set_host payload url host = do
  p ← path payload
  if has_prefix p (codes "http")
      then (do end ← host_end p; new ← replace p 0 end url; set_path payload new)
      else set_header payload (codes "Host") host
