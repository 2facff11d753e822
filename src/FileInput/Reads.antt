-- ===== src/FileInput/Reads.antt =====
-- A reader of a file that holds the records of a list.
use mathlib.Core.Option.{some-injective}
use goreplay.Base.{
  ℕ, zero, suc, ◌-◌, ◌<◌, ◌≡◌, ◌≢◌, ◌^◌, refl, sym, ap, ◌∙◌, true, false, not, ◌||◌, Bytes, done,
  ◌>>=◌, Option, none, some, List, [], ◌∷◌, ◌++◌, All, map, length, length-append, take,
  take-append, get_elem?, arith,
}
use goreplay.Text.Ints.{ℤ, pos}
use goreplay.Tcp.Store.{modify}
use goreplay.Text.Decimal.{format_int}
use goreplay.Text.Numbers.{int_of-format}
use goreplay.Protocol.{payload_meta, payload_header}
use goreplay.Protocol.Records.{IsWord, meta-header}
use goreplay.Protocol.Stream.{read_record, write_records}
use goreplay.Protocol.Lines.{IsClean, read_record-write, read_record-end}
use goreplay.FileInput.{
  Reader, stamp_of, stamped, parsed, parse_next, read_payload, new_reader, read_at,
}

-- A record with the time in its header.
pub record Entry : Type 0 where
  pub time : ℤ
  pub text : Bytes

-- A record that can be told from its separator, and has that time in its third word.
abbrev pub IsEntry : Entry → Type 0
IsEntry e = IsClean e.text × (stamp_of (payload_meta (e.text ++ (b'\n' ∷ []))) ≡ some e.time)

-- The bytes of a file of records.
abbrev pub file_of : List Entry → Bytes
file_of es = write_records (map (λ e. e.text) es)

-- The reader stands at the first of the records, and the file has the others.
abbrev pub Holds : Reader → List Entry → Type 0
Holds r [] = r.closed ≡ true
Holds r (e ∷ es) =
    (r.closed ≡ false)
    × ((r.data_bytes ≡ e.text)
        × ((r.timestamp ≡ e.time)
            × ((r.faulty ≡ false) × ((r.stream ≡ file_of es) × All IsEntry es))))

-- A reader of a file, in front of its first record.
parse_next-end :
    (r : Reader)
    → r.faulty ≡ false
    → r.stream ≡ []
    → (q : Reader) × (parse_next r ≡ done q) × Holds q []
unfolding parse_next parsed
parse_next-end r f s =
    let at_end : read_record (suc (length r.stream)) [] r.stream ≡ done none =
      ap (λ u. read_record (suc (length u)) [] u) s ∙ read_record-end 0 [] [] tt in
    (
      record r { stream = []; closed = r.closed || not r.faulty },
      ap (λ m. m >>= (λ next. parsed r next)) at_end,
      ground (arith, f),
    )

parse_next-record :
    (r : Reader) (e : Entry) (es : List Entry)
    → r.closed ≡ false
    → r.faulty ≡ false
    → r.stream ≡ file_of (e ∷ es)
    → IsEntry e
    → All IsEntry es
    → (q : Reader) × (parse_next r ≡ done q) × Holds q (e ∷ es)
unfolding parse_next parsed stamped
parse_next-record r e es c f s (clean, stamp) h =
    let line : Bytes = e.text ++ (b'\n' ∷ []) in
    let found : read_record (suc (length r.stream)) [] r.stream ≡ done (some (line, file_of es)) =
      ap (λ u. read_record (suc (length u)) [] u) s ∙ read_record-write e.text (file_of es) clean in
    (
      record r {
        stream = file_of es;
        timestamp = e.time;
        data_bytes = take (length line - 1) line;
      },
      ap (λ m. m >>= (λ next. parsed r next)) found ∙ ap (stamped r line (file_of es)) stamp,
      (
        c,
        (
          take-append e.text (b'\n' ∷ []) _ (omega (arith, length-append e.text (b'\n' ∷ []))),
          (refl, (f, (refl, h))),
        ),
      ),
    )

parse_next-Holds :
    (r : Reader) (es : List Entry)
    → r.closed ≡ false
    → r.faulty ≡ false
    → r.stream ≡ file_of es
    → All IsEntry es
    → (q : Reader) × (parse_next r ≡ done q) × Holds q es
parse_next-Holds r [] c f s h = parse_next-end r f s
parse_next-Holds r (e ∷ es) c f s (he, h) = parse_next-record r e es c f s he h

-- A file of records, just opened.
pub new_reader-Holds :
    (es : List Entry)
    → All IsEntry es
    → (q : Reader) × (new_reader (file_of es) false ≡ done q) × Holds q es
unfolding new_reader
new_reader-Holds es h =
    parse_next-Holds
      (record {
        stream = file_of es;
        faulty = false;
        data_bytes = [];
        timestamp = pos 0;
        closed = false;
      })
      es refl refl refl h

read_payload-Holds :
    (r : Reader) (e : Entry) (es : List Entry)
    → Holds r (e ∷ es)
    → (q : Reader) × (read_payload r ≡ done (e.text, q)) × Holds q es
unfolding read_payload
read_payload-Holds r e es (c, (d, (t, (f, (s, h))))) =
    let (q, ran, held) = parse_next-Holds r es c f s h in
    (q, ap (λ m. m >>= (λ q. done (r.data_bytes, q))) ran ∙ ap (λ u. done (u, q)) d, held)

-- The readers hold the records that are left of the files; a file that was not opened has none.
abbrev pub HoldsAll : List (Option Reader) → List (List Entry) → Type 0
HoldsAll [] [] = Unit
HoldsAll (none ∷ rs) (es ∷ ess) = (es ≡ []) × HoldsAll rs ess
HoldsAll (some r ∷ rs) (es ∷ ess) = Holds r es × HoldsAll rs ess
HoldsAll _ _ = ⊥

-- An open reader at that place, at a record of that time.
abbrev pub IsAt : ℕ → ℤ → List (Option Reader) → Type 0
IsAt k t rs =
    (r : Reader) × (get_elem? rs k ≡ some (some r)) × (r.closed ≡ false) × (r.timestamp ≡ t)

-- The reader there gives the first record that is left of its file.
abbrev pub Gives : ℕ → ℤ → List (Option Reader) → List (List Entry) → Type 0
Gives k t rs ess =
    (e : Entry) × (es : List Entry) × (qs : List (Option Reader)) × (get_elem? ess k
      ≡ some (e ∷ es))
    × (e.time ≡ t)
    × (read_at k rs ≡ done (e.text, qs))
    × HoldsAll qs (modify k (λ old. es) ess)

read_at-first :
    (r : Reader) (rs : List (Option Reader)) (es : List Entry) (ess : List (List Entry)) (t : ℤ)
    → Holds r es
    → HoldsAll rs ess
    → r.closed ≡ false
    → r.timestamp ≡ t
    → Gives zero t (some r ∷ rs) (es ∷ ess)
unfolding read_at modify
read_at-first r rs [] ess t h hs c is = cc
read_at-first r rs (e ∷ es) ess t h hs c is =
    let (q, ran, held) = read_payload-Holds r e es h in
    (
      e,
      es,
      some q ∷ rs,
      refl,
      sym h.1.1.0 ∙ is,
      ap (λ m. m >>= (λ p. done (p.0, some p.1 ∷ rs))) ran,
      (held, hs),
    )

read_at-more :
    (o : Option Reader) (k : ℕ) (t : ℤ) (rs : List (Option Reader)) (es : List Entry)
    (ess : List (List Entry))
    → HoldsAll (o ∷ rs) (es ∷ ess)
    → Gives k t rs ess
    → Gives (suc k) t (o ∷ rs) (es ∷ ess)
unfolding read_at modify
read_at-more none k t rs es ess h (e, es', qs, found, is, ran, held) =
    (e, es', none ∷ qs, found, is, ap (λ m. m >>= (λ p. done (p.0, none ∷ p.1))) ran, (h.0, held))
read_at-more (some r) k t rs es ess h (e, es', qs, found, is, ran, held) = (
  e,
  es',
  some r ∷ qs,
  found,
  is,
  ap (λ m. m >>= (λ p. done (p.0, some r ∷ p.1))) ran,
  (h.0, held),
)

HoldsAll-tail :
    (o : Option Reader) (rs : List (Option Reader)) (es : List Entry) (ess : List (List Entry))
    → HoldsAll (o ∷ rs) (es ∷ ess)
    → HoldsAll rs ess
HoldsAll-tail none rs es ess h = h.1
HoldsAll-tail (some r) rs es ess h = h.1

pub read_at-Gives :
    (k : ℕ) (t : ℤ) (rs : List (Option Reader)) (ess : List (List Entry))
    → HoldsAll rs ess
    → IsAt k t rs
    → Gives k t rs ess
read_at-Gives k t [] ess h (r, found, c, is) = cc
read_at-Gives k t (none ∷ rs) [] h at = absurd h
read_at-Gives k t (some r ∷ rs) [] h at = absurd h
read_at-Gives zero t (none ∷ rs) (es ∷ ess) h (r, found, c, is) = cc
read_at-Gives zero t (some r' ∷ rs) (es ∷ ess) h (r, found, c, is) =
    let same : r' ≡ r = some-injective r' r (some-injective (some r') (some r) found) in
    read_at-first r' rs es ess t h.0 h.1 (ap (λ r. r.closed) same ∙ c)
      (ap (λ r. r.timestamp) same ∙ is)
read_at-Gives (suc k) t (o ∷ rs) (es ∷ ess) h at =
    read_at-more o k t rs es ess h (read_at-Gives k t rs ess (HoldsAll-tail o rs es ess h) at)

-- A record as the inputs write it has the time in its header.
pub stamp-header :
    (t : ℕ) (uuid : Bytes) (timing : ℕ) (latency : ℤ) (body : Bytes)
    → (t ≢ b' ') × (t ≢ b'\n')
    → IsWord uuid
    → timing < 2 ^ 63
    → stamp_of (payload_meta (payload_header t uuid (pos timing) latency ++ body))
      ≡ some (pos timing)
unfolding stamp_of format_int
stamp-header t uuid timing latency body ht hu small =
    ap stamp_of (meta-header t uuid (pos timing) latency body ht hu).0
    ∙ ap some (int_of-format timing small)
