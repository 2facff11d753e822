-- ===== src/FileInput.antt =====
-- input_file.go: the readers of files and the loop that emits their records by time. A file is the
-- bytes that are still to be read, with what follows them: the end, or an error of the reader.
pub mod Reads
pub mod Choice
pub mod Order
pub mod Sorted
pub mod Faults
pub mod Examples
use goreplay.Base.{
  ℕ, zero, suc, ◌+◌, ◌-◌, Bool, true, false, not, ◌||◌, Bytes, Outcome, done, panic, timeout, ◌>>=◌,
  Option, none, some, List, [], ◌∷◌, length, take, if◌then◌else◌,
}
use goreplay.Text.Ints.{ℤ, pos, negsuc, pos_part, neg_part, sub_ℕ, ltb_ℤ}
use goreplay.Text.Numbers.{int_of}
use goreplay.Protocol.{payload_meta}
use goreplay.Protocol.Stream.{read_record}

pub record Reader : Type 0 where
  pub stream : Bytes
  pub faulty : Bool
  pub data_bytes : Bytes
  pub timestamp : ℤ
  pub closed : Bool

-- The time of a record: `meta[2]`, or `none` where that is out of range.
unfoldable pub stamp_of : List Bytes → Option ℤ
stamp_of (a ∷ (id ∷ (t ∷ more))) = some (int_of t)
stamp_of _ = none

-- A record was read: its time, and its bytes without the last line feed.
unfoldable pub stamped : Reader → Bytes → Bytes → Option ℤ → Outcome Reader
stamped r buffer rest none = panic
stamped r buffer rest (some t) =
    done (record r { stream = rest; timestamp = t; data_bytes = take (length buffer - 1) buffer })

unfoldable pub parsed : Reader → Option (Bytes × Bytes) → Outcome Reader
parsed r none = done (record r { stream = []; closed = r.closed || not r.faulty })
parsed r (some (buffer, rest)) = stamped r buffer rest (stamp_of (payload_meta buffer))

-- `parseNext`: at the end of the file the reader is closed; at an error it stays as it is.
unfoldable pub parse_next : Reader → Outcome Reader
parse_next r = do next ← read_record (suc (length r.stream)) [] r.stream; parsed r next

-- `ReadPayload`
unfoldable pub read_payload : Reader → Outcome (Bytes × Reader)
read_payload r = do q ← parse_next r; done (r.data_bytes, q)

-- `NewFileInputReader`, behind the opening of the file.
unfoldable pub new_reader : Bytes → Bool → Outcome Reader
new_reader s faulty =
    parse_next
      (record { stream = s; faulty = faulty; data_bytes = []; timestamp = pos 0; closed = false })

-- The choice between the reader that was found so far and the next one, at place `k`.
unfoldable pub earlier : Option (ℕ × ℤ) → ℕ → Reader → Option (ℕ × ℤ)
earlier none k r = if r.closed then none else some (k, r.timestamp)
earlier (some (j, t)) k r =
    if r.closed
    then some (j, t)
    else if ltb_ℤ r.timestamp t
    then some (k, r.timestamp)
    else some (j, t)

-- The loop of `nextReader`, with the place and the time of the reader found; a file that could not be
-- opened has no reader.
unfoldable pub next_from : ℕ → Option (ℕ × ℤ) → List (Option Reader) → Option (ℕ × ℤ)
next_from k found [] = found
next_from k found (none ∷ rs) = next_from (suc k) found rs
next_from k found (some r ∷ rs) = next_from (suc k) (earlier found k r) rs

unfoldable pub next_reader : List (Option Reader) → Option (ℕ × ℤ)
next_reader rs = next_from 0 none rs

-- `ReadPayload` of the reader at a place.
unfoldable pub read_at : ℕ → List (Option Reader) → Outcome (Bytes × List (Option Reader))
read_at zero (some r ∷ rs) = do (payload, q) ← read_payload r; done (payload, some q ∷ rs)
read_at (suc k) (r ∷ rs) = do (payload, qs) ← read_at k rs; done (payload, r ∷ qs)
read_at _ _ = panic

-- `initial` is what `init` opens for another loop; `pace` is the division by `speedFactor`.
pub record Input : Type 0 where
  pub loop : Bool
  pub initial : List (Option Reader)
  pub pace : ℤ → ℤ

-- How long `emit` sleeps; with -1 for the time before, not at all. Differences do not wrap.
unfoldable pub pause : Input → ℤ → ℤ → ℤ
pause c (negsuc zero) t = pos 0
pause c last t = c.pace (sub_ℕ (pos_part t + neg_part last) (neg_part t + pos_part last))

-- `emit` without a call of `Close`: the pauses and the payloads behind them.
unfoldable pub emit : ℕ → Input → ℤ → List (Option Reader) → Outcome (List (ℤ × Bytes))
emit zero c last rs = timeout
emit (suc fuel) c last rs =
    let again = emit fuel c (negsuc 0) c.initial in
    elim (next_reader rs) [
      | none ↦ if c.loop then again else done []
      | some (k, t) ↦ do
        (payload, after) ← read_at k rs
        later ← emit fuel c t after
        done ((pause c last t, payload) ∷ later)
    ]

-- The readers that `init` makes for the files found; `none` for a file that cannot be opened.
unfoldable pub open_files : List (Option Bytes) → Outcome (List (Option Reader))
open_files [] = done []
open_files (none ∷ files) = do rs ← open_files files; done (none ∷ rs)
open_files (some s ∷ files) = do r ← new_reader s false; rs ← open_files files; done (some r ∷ rs)

-- `NewFileInput`, with the run of `emit` that it starts.
unfoldable pub file_input : ℕ → Input → List (Option Bytes) → Outcome (List (ℤ × Bytes))
file_input fuel c files = do rs ← open_files files; emit fuel c (negsuc 0) rs
