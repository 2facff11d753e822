-- ===== src/FileOutput.antt =====
-- output_file.go: the names of the files of `FileOutput`, and `Write`. The names that
-- `filepath.Glob` finds and the expanded template are arguments; a file is its name and the bytes
-- given to its writer, which takes them all.
pub mod Names
pub mod Closing
pub mod Examples
use goreplay.Base.{
  ℕ, zero, suc, ◌+◌, ◌-◌, ◌≡◌, Bool, true, false, not, ◌&&◌, ◌||◌, Bytes, Outcome, done, panic,
  ◌>>=◌, Option, none, some, List, [], ◌∷◌, ◌++◌, length, take, drop, ltb, leb, ◌==◌, if◌then◌else◌,
  equal, index_byte,
}
use goreplay.Text.Ints.{ℤ, pos, negsuc, ltb_ℤ, ◌+ℤ◌}
use goreplay.Text.Decimal.{format_int, parse_int}
use goreplay.Text.Split.{last_index}
use goreplay.Protocol.{payload_meta}
use goreplay.Protocol.Stream.{write_record}

-- `filepath.Ext`: what follows the last dot, unless a slash follows that.
unfoldable pub ext : Bytes → Bytes
ext name = elim (last_index name b'.') [
  | none ↦ []
  | some i ↦ elim (index_byte (drop i name) b'/') [ none ↦ drop i name | some j ↦ [] ]
]

-- `strings.TrimSuffix(name, ext)`
unfoldable pub without_ext : Bytes → Bytes
without_ext name = take (length name - length (ext name)) name

-- The text in front of the last underscore and the number behind it, if it is one.
unfoldable pub split_index : Bytes → Option (Bytes × ℤ)
split_index base = elim (last_index base b'_') [
  | none ↦ none
  | some i ↦ elim (parse_int (drop (i + 1) base)) [ none ↦ none | some n ↦ some (take i base, n) ]
]

unfoldable pub get_file_index : Bytes → ℤ
get_file_index name = elim (split_index (without_ext name)) [ none ↦ negsuc 0 | some (base, n) ↦ n ]

unfoldable pub set_file_index : Bytes → ℤ → Bytes
set_file_index name idx =
    let base : Bytes = elim (split_index (without_ext name)) [
      | none ↦ without_ext name
      | some (front, n) ↦ front
    ] in
    base ++ (b'_' ∷ (format_int idx ++ ext name))

unfoldable pub without_index : Bytes → Bytes
without_index s = elim (last_index s b'_') [ none ↦ s | some i ↦ take i s ]

-- The order of Go's strings.
unfoldable pub text_lt : Bytes → Bytes → Bool
text_lt s [] = false
text_lt [] (d ∷ t) = true
text_lt (c ∷ s) (d ∷ t) = ltb c d || (c == d && text_lt s t)

-- `sortByFileIndex.Less`
unfoldable pub less : Bytes → Bytes → Bool
less s t =
    if equal (without_index s) (without_index t)
    then ltb_ℤ (get_file_index s) (get_file_index t)
    else text_lt s t

-- The last name behind `sort.Sort`: none of the others is above it.
unfoldable pub last_name : Bytes → List Bytes → Bytes
last_name best [] = best
last_name best (x ∷ xs) = last_name (if less best x then x else best) xs

pub record Config : Type 0 where
  pub size_limit : ℕ
  pub max_file_size : ℕ
  pub queue_limit : ℕ
  pub appends : Bool

-- The goroutine of `NewFileOutput`: asleep; behind its test of `IsClosed`; behind `updateName`;
-- returned.
pub data Flusher : Type 0 where
  asleep naming flushing ended : Flusher

-- `closed_files` lists the files that were closed, the last one first.
pub record Output : Type 0 where
  pub current_name : Bytes
  pub file : Option (Bytes × Bytes)
  pub closed_files : List (Bytes × Bytes)
  pub queue_length : ℕ
  pub chunk_size : ℕ
  pub request_per_file : Bool
  pub current_id : Bytes
  pub payload_type : Bytes
  pub closed : Bool
  pub total_size : ℕ
  pub flusher : Flusher

-- Whether `filename` goes on to the next file.
unfoldable pub next_chunk : Config → Output → Bool
next_chunk c o =
    length o.current_name == 0
    || ((ltb 0 c.queue_limit && leb c.queue_limit o.queue_length)
        || (ltb 0 c.size_limit && leb c.size_limit o.chunk_size))

-- `filename`, with the expanded template and the names that match it; `none` for a bad pattern.
unfoldable pub filename : Config → Output → Bytes → Option (List Bytes) → Bytes
filename c o path none = path
filename c o path (some []) = if c.appends then path else set_file_index path (pos 0)
filename c o path (some (x ∷ xs)) =
    let last = last_name x xs in
    let found = get_file_index last in
    let first = ltb_ℤ found (pos 0) && not (ltb_ℤ found (negsuc 0)) in
    let idx = if first then pos 0 else if next_chunk c o then found +ℤ pos 1 else found in
    if c.appends then path else set_file_index last idx

abbrev pub is_named : Option (Bytes × Bytes) → Bytes → Bool
is_named none name = false
is_named (some (current, content)) name = equal name current

abbrev pub with_closed : Option (Bytes × Bytes) → List (Bytes × Bytes) → List (Bytes × Bytes)
with_closed none fs = fs
with_closed (some f) fs = f ∷ fs

-- `closeLocked`; the file stays in its field.
unfoldable pub close_file : Output → Output
close_file o = record o { closed = true; closed_files = with_closed o.file o.closed_files }

-- The file that `Write` writes to: the open one if it has the current name, or else a new one, empty.
unfoldable pub open_file : Output → Output
open_file o =
    if is_named o.file o.current_name
    then o
    else record (close_file o) { file = some (o.current_name, []); queue_length = 0 }

abbrev pub written : Option (Bytes × Bytes) → Bytes → Option (Bytes × Bytes)
written none text = none
written (some (name, content)) text = some (name, content ++ text)

-- The identifier and the type of a record, for its file's name.
unfoldable pub note_meta : Output → Bool → List Bytes → Outcome Output
note_meta o false meta = done o
note_meta o true (a ∷ (id ∷ more)) = done (record o { current_id = id; payload_type = a })
note_meta o true _ = panic

-- The rest of `Write`, with the name that `updateName` found: the number of bytes, and whether the
-- size limit was reached.
unfoldable pub write_named : Config → Output → Bytes → Bytes → Output × ℕ × Bool
write_named c o name text =
    let opened = open_file (record o { current_name = name }) in
    let total = opened.total_size + length text in
    (
      record opened {
        file = written opened.file text;
        total_size = total;
        queue_length = opened.queue_length + 1;
      },
      length text,
      ltb 0 c.max_file_size && leb c.max_file_size total,
    )

-- `Write`, with the naming as a function of the state.
unfoldable pub write_file : Config → (Output → Bytes) → Output → Bytes → Outcome (Output × ℕ × Bool)
write_file c name_of o payload = do
  noted ← note_meta o o.request_per_file (payload_meta payload)
  done (write_named c noted (name_of noted) (write_record payload))

abbrev pub size_of : Option (Bytes × Bytes) → Option ℕ → ℕ → ℕ
size_of (some f) (some n) old = n
size_of _ _ old = old

-- `flush`, with what `Stat` says of the size.
unfoldable pub flush : Output → Option ℕ → Output
flush o size = record o { chunk_size = size_of o.file size o.chunk_size }

-- `NewFileOutput`, with the first name.
unfoldable pub new_output : Bool → Bytes → Output
new_output request_per_file name = record {
  current_name = name;
  file = none;
  closed_files = [];
  queue_length = 0;
  chunk_size = 0;
  request_per_file = request_per_file;
  current_id = [];
  payload_type = [];
  closed = false;
  total_size = 0;
  flusher = asleep;
}

-- A `Write`, a `Close`, or a part of a round of the goroutine: the test, `updateName`, `flush`.
pub data Step (c : Config) (o q : Output) : Type 0 where
  writes :
      (name_of : Output → Bytes) (payload : Bytes) (n : ℕ) (full : Bool)
      → write_file c name_of o payload ≡ done (q, n, full)
      → Step c o q
  closes : q ≡ close_file o → Step c o q
  wakes :
      o.flusher ≡ asleep
      → q ≡ record o { flusher = if o.closed then ended else naming }
      → Step c o q
  names :
      (name : Bytes)
      → o.flusher ≡ naming
      → q ≡ record o { current_name = name; flusher = flushing }
      → Step c o q
  flushes :
      (size : Option ℕ)
      → o.flusher ≡ flushing
      → q ≡ record (flush o size) { flusher = asleep }
      → Step c o q

pub data Reach (c : Config) (o : Output) : Output → Type 0 where
  here : Reach c o o
  next : {p q : Output} → Reach c o p → Step c p q → Reach c o q
