-- ===== src/FileInput/Faults.antt =====
-- A reader that fails, as on a damaged archive, is not closed.
use goreplay.Base.{
  ℕ, zero, suc, ◌≡◌, refl, not, ◌||◌, true, false, timeout, done, ◌>>=◌, [], ◌∷◌, Lacks, length,
  some, arith,
}
use goreplay.Text.Ints.{ℤ}
use goreplay.Protocol.Lines.{read_record-end}
use goreplay.FileInput.{
  Reader, Input, earlier, next_from, next_reader, parsed, parse_next, read_payload, read_at, emit,
}

-- What is left of the reader.
abbrev stuck : Reader → Reader
stuck r = record r { stream = []; closed = r.closed || not r.faulty }

read_at-faulty :
    (r : Reader)
    → Lacks b'\n' r.stream
    → read_at 0 (some r ∷ []) ≡ done (r.data_bytes, some (stuck r) ∷ [])
unfolding read_at read_payload parse_next parsed
read_at-faulty r h = rw (read_record-end (length r.stream) [] r.stream h, ◌>>=◌) refl

next_reader-open :
    (r : Reader) → r.closed ≡ false → next_reader (some r ∷ []) ≡ some (0, r.timestamp)
unfolding next_reader next_from earlier
next_reader-open r c = rw c refl

-- Behind the error `emit` reads the last record again and again, and does not end.
pub emit-faulty :
    (fuel : ℕ) (c : Input) (last : ℤ) (r : Reader)
    → r.closed ≡ false
    → r.faulty ≡ true
    → Lacks b'\n' r.stream
    → emit fuel c last (some r ∷ []) ≡ timeout
unfolding emit
emit-faulty zero c last r o f h = refl
emit-faulty (suc fuel) c last r o f h =
    rw (next_reader-open r o, emit)
      (rw (read_at-faulty r h, ◌>>=◌)
        (rw (emit-faulty fuel c r.timestamp (stuck r) (ground (arith, o, f)) f tt, ◌>>=◌) refl))
