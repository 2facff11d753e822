-- ===== src/HttpClient/Receive.antt =====
-- The loop of `send` that gathers a response. The part of `respBuf` that was filled is `text`; what
-- does not fit into it is counted and dropped.
use goreplay.Base.{
  ℕ, zero, suc, ◌+◌, ◌-◌, ◌*◌, Bool, true, false, not, ◌&&◌, ◌||◌, Bytes, codes, Outcome, done,
  timeout, ◌>>=◌, none, some, List, [], ◌∷◌, ◌++◌, length, take, drop, ltb, leb, ◌==◌,
  if◌then◌else◌, equal, index,
}
use goreplay.Modifier.{is_nil}
use goreplay.Text.Ints.{ℤ, pos, negsuc}
use goreplay.Text.Numbers.{int_of}
use goreplay.Text.Split.{has_suffix}
use goreplay.Proto.Headers.{header_value, empty_line}
use goreplay.Proto.Payload.{body}
use goreplay.Proto.Path.{path}

-- The error of a read: none, `io.EOF`, another one such as a timeout, or `EPIPE`.
pub data Status : Type 0 where
  fine at_end failed broken : Status

abbrev pub is_fine : Status → Bool
is_fine fine = true
is_fine _ = false

abbrev pub Answer : Type 0
Answer = Bytes × Status

-- A read into a buffer of that size; behind the last answer a read runs into its deadline.
unfoldable pub read_answers : ℕ → List Answer → Bytes × Status × List Answer
read_answers size [] = ([], failed, [])
read_answers size ((bytes, status) ∷ more) =
    if leb (length bytes) size
    then (bytes, status, more)
    else (take size bytes, fine, (drop size bytes, status) ∷ more)

-- `content_length` is -1 where none is known; `current` is `currentContentLength`.
pub record Progress : Type 0 where
  pub text : Bytes
  pub received : ℕ
  pub chunked : Bool
  pub content_length : ℤ
  pub current : ℕ

abbrev pub initial : Bytes → Progress
initial first = record {
  text = first;
  received = length first;
  chunked = false;
  content_length = negsuc 0;
  current = 0;
}

abbrev pub chunked_suffix : Bytes
chunked_suffix = codes "0\r\n\r\n"

abbrev pub max_response_size : ℕ
max_response_size = 1073741824

abbrev pub read_chunk_size : ℕ
read_chunk_size = 65536

-- `contentLength != -1`
abbrev pub has_length : ℤ → Bool
has_length (pos n) = true
has_length (negsuc zero) = false
has_length (negsuc (suc n)) = true

-- What the header section of a response says: to go on, to skip an interim response, or that there
-- is no body.
pub data Heading : Type 0 where
  known : Progress → Heading
  interim : ℕ → Heading
  bare : Heading

abbrev pub is_interim : ℤ → Bool
is_interim (pos n) = leb 100 n && ltb n 200
is_interim (negsuc n) = false

abbrev pub has_no_body : ℤ → Bool
has_no_body (pos n) = n == 204 || n == 304
has_no_body (negsuc n) = false

unfoldable pub with_content_length : Progress → Outcome Heading
with_content_length p = do
  l ← header_value p.text (codes "Content-Length")
  b ← body p.text
  done (
      known (record p {
        content_length = if is_nil l then p.content_length else int_of l;
        current = p.current + length b;
      }))

unfoldable pub read_status : Progress → ℕ → Outcome Heading
read_status p end = do
  status ← path p.text
  if is_interim (int_of status)
      then done (interim (end + 4))
      else if has_no_body (int_of status)
      then done bare
      else with_content_length p

-- The headers once they are finished.
unfoldable pub read_heading : Progress → Outcome Heading
read_heading p = elim (index p.text empty_line) [
  | none ↦ done (known p)
  | some end ↦ do
    coding ← header_value p.text (codes "Transfer-Encoding")
    if equal coding (codes "chunked")
        then (do
          b ← body p.text
          done (known (record p { chunked = true; current = p.current + length b })))
        else read_status p end
]

pub data Judged : Type 0 where
  open_ended whole too_long : Judged

abbrev pub compare_length : ℕ → ℤ → Judged
compare_length current (pos n) =
    if ltb n current then too_long else if current == n then whole else open_ended
compare_length current (negsuc zero) = open_ended
compare_length current (negsuc (suc n)) = too_long

-- Whether the message is finished, with the bytes at whose end a chunked one is looked for.
unfoldable pub judge : Progress → Bytes → Judged
judge p tail =
    if p.chunked
    then (if has_suffix tail chunked_suffix then whole else open_ended)
    else compare_length p.current p.content_length

-- The end of a round: another one, or the end with its error and whether the client disconnects.
pub data Turn : Type 0 where
  going : Progress → Turn
  ended : Progress → Status → Bool → Turn

abbrev pub go_on : Progress → Turn
go_on p = if leb max_response_size p.received then ended p fine false else going p

-- In the buffer `io.EOF` is no error.
unfoldable pub turn_within : Progress → Status → Judged → Turn
turn_within p status too_long = ended p status true
turn_within p status whole = ended p status false
turn_within p fine open_ended = go_on p
turn_within p at_end open_ended = ended p fine false
turn_within p failed open_ended = ended p failed false
turn_within p broken open_ended = ended p broken false

unfoldable pub heading_turn : Progress → Status → Heading → Turn
heading_turn p status (known q) = turn_within q status (judge q q.text)
heading_turn p status (interim n) =
    going (record p { text = drop n p.text; received = p.received - n })
heading_turn p status bare = ended (record p { content_length = pos 0 }) status false

-- A round that reads into the buffer.
unfoldable pub round_within : Progress → Bytes → Status → Outcome Turn
round_within p bytes status = do
  let read = record p { text = p.text ++ bytes; received = p.received + length bytes }
  heading ←
      (if p.chunked || has_length p.content_length
        then done (known (record read { current = p.current + length bytes }))
        else read_heading read)
  done (heading_turn read status heading)

-- A round that reads past the buffer.
unfoldable pub turn_beyond : Progress → Status → Judged → Turn
turn_beyond p status too_long = ended p status true
turn_beyond p status whole = ended p status false
turn_beyond p status open_ended =
    if not (p.chunked || has_length p.content_length)
    then ended p status true
    else if is_fine status
    then go_on p
    else ended p status false

unfoldable pub round_beyond : Progress → Bytes → Status → Turn
round_beyond p bytes status =
    let read = record p {
      received = p.received + length bytes;
      current = p.current + length bytes;
    } in
    turn_beyond read status (judge read bytes)

unfoldable pub one_round : ℕ → Progress → List Answer → Outcome (Turn × List Answer)
one_round size p answers =
    let inside = ltb p.received size in
    let (bytes, status, rest) =
      read_answers (if inside then size - p.received else read_chunk_size) answers in
    if inside
    then (do turn ← round_within p bytes status; done (turn, rest))
    else done (round_beyond p bytes status, rest)

-- The loop: what was read, the error, whether the client disconnected, and the answers that are left.
unfoldable pub receive :
    ℕ → ℕ → Progress → List Answer → Outcome (Progress × Status × Bool × List Answer)
receive zero size p answers = timeout
receive (suc fuel) size p answers = do
  (turn, rest) ← one_round size p answers
  elim turn [
    | going q ↦ receive fuel size q rest
    | ended q status closed ↦ done (q, status, closed, rest)
  ]

-- A bound on the number of rounds.
abbrev pub pending : List Answer → ℕ
pending [] = 0
pending ((bytes, status) ∷ more) = 2 * length bytes + 1 + pending more

abbrev pub weight : Progress → List Answer → ℕ
weight p answers = p.received + pending answers
