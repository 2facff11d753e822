-- ===== src/Limiter.antt =====
-- limiter.go: `Limiter.isLimited` and the calls that it guards. The clock and the random number of a
-- call are its arguments; a time is in nanoseconds.
pub mod Rate
pub mod Examples
use goreplay.Base.{
  ℕ, zero, suc, ◌+◌, ◌-◌, Bool, true, false, ◌&&◌, Bytes, List, [], ◌∷◌, ltb, leb, if◌then◌else◌,
}
use goreplay.Text.Ints.{ℤ, pos_part}
use goreplay.Text.Split.{contains, split_byte}
use goreplay.Text.Numbers.{int_of}

-- `is_file` says that the plugin is a `FileInput`.
pub record Limiter : Type 0 where
  pub is_file : Bool
  pub limit : ℕ
  pub is_percent : Bool
  pub current_rps : ℕ
  pub current_time : ℕ

-- What one call reads: `rand.Intn(100)`, and the clock at the test and at the assignment.
pub record Reading : Type 0 where
  pub random : ℕ
  pub now : ℕ
  pub later : ℕ

abbrev pub second : ℕ
second = 1000000000

-- The reset of the window. A clock behind `currentTime` gives a negative difference, and 0 here.
unfoldable pub refresh : Limiter → Reading → Limiter
refresh l r =
    if ltb second (r.now - l.current_time)
    then record l { current_time = r.later; current_rps = 0 }
    else l

unfoldable pub count_call : Limiter → Bool × Limiter
count_call l =
    if leb l.limit l.current_rps
    then (true, l)
    else (false, record l { current_rps = l.current_rps + 1 })

unfoldable pub is_limited : Limiter → Reading → Bool × Limiter
is_limited l r =
    if l.is_file && l.is_percent
    then (false, l)
    else if l.is_percent
    then (leb l.limit r.random, l)
    else count_call (refresh l r)

-- `Write`: the payloads that reach the plugin in a run of calls, with the limiter behind it.
unfoldable pub write_all : Limiter → List (Reading × Bytes) → List Bytes × Limiter
write_all l [] = ([], l)
write_all l ((r, data') ∷ calls) =
    let step = is_limited l r in
    let rest = write_all step.1 calls in if step.0 then rest else (data' ∷ rest.0, rest.1)

abbrev pub front : List Bytes → Bytes
front [] = []
front (x ∷ xs) = x

-- `parseLimitOptions`: the limit, and whether it is a share.
unfoldable pub parse_limit_options : Bytes → ℤ × Bool
parse_limit_options options =
    if contains options (b'%' ∷ [])
    then (int_of (front (split_byte options b'%')), true)
    else (int_of options, false)

-- `NewLimiter` at a time. A negative limit lets nothing through, as 0 does.
unfoldable pub new_limiter : Bool → Bytes → ℕ → Limiter
new_limiter is_file options now =
    let (limit, is_percent) = parse_limit_options options in
    record {
      is_file = is_file;
      limit = pos_part limit;
      is_percent = is_percent;
      current_rps = 0;
      current_time = now;
    }

-- `Read` of a plugin that reads: what it gave is dropped if the call is one too many.
unfoldable pub read_limited : Limiter → Reading → Bytes → Bytes × Limiter
read_limited l r data_read =
    let (limited, after) = is_limited l r in (if limited then [] else data_read, after)
