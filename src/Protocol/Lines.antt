-- ===== src/Protocol/Lines.antt =====
-- Records that were written with their separators are read back.
use goreplay.Base.{
  ℕ, zero, suc, ◌+◌, ◌≤◌, ◌<◌, ◌≡◌, ◌≢◌, refl, sym, ap, ◌∙◌, true, false, Bytes, done, panic, ◌>>=◌,
  none, some, List, [], ◌∷◌, ◌++◌, append_assoc, append-nil, All, Lacks, length, length-append,
  take, drop, take-append, drop-append, arith, index_byte, index_byte-append, index_byte-Lacks,
  equal, equal_iff, ==_iff, ◌==◌, Bool-cases, inl, inr,
}
use goreplay.Text.Split.{split_byte, push}
use goreplay.Protocol.{payload_separator}
use goreplay.Protocol.Stream.{
  separator_line, read_line, read_record, handle_connection, write_record, write_records,
}

abbrev pub with_end : Bytes → Bytes
with_end l = l ++ (b'\n' ∷ [])

-- A line of a payload, which is not the separator's.
abbrev IsLine : Bytes → Type 0
IsLine l = Lacks b'\n' l × (equal (with_end l) separator_line ≡ false)

-- A payload none of whose lines is the separator's: the payload can be told from the separator.
abbrev pub IsClean : Bytes → Type 0
IsClean payload =
    All (λ l. equal (l ++ (b'\n' ∷ [])) separator_line ≡ false) (split_byte payload b'\n')

abbrev unlines : List Bytes → Bytes
unlines [] = []
unlines (l ∷ ls) = with_end l ++ unlines ls

unlines-push : (c : ℕ) (ls : List Bytes) → ls ≢ [] → unlines (push c ls) ≡ c ∷ unlines ls
unlines-push c [] h = absurd (h refl)
unlines-push c (l ∷ ls) h = refl

push-ne-nil : (c : ℕ) (ls : List Bytes) → push c ls ≢ []
push-ne-nil c [] e = cc
push-ne-nil c (l ∷ ls) e = cc

split_byte-ne-nil : (s : Bytes) (c : ℕ) → split_byte s c ≢ []
unfolding split_byte
split_byte-ne-nil [] c e = cc
split_byte-ne-nil (x ∷ s) c e = elim (Bool-cases (x == c)) [
  | inl h ↦ (let no : [] ∷ split_byte s c ≡ [] = rw h at e in cc)
  | inr h ↦ push-ne-nil x (split_byte s c) (rw h at e)
]

unlines-split_byte : (s : Bytes) → unlines (split_byte s b'\n') ≡ with_end s
unfolding split_byte
unlines-split_byte [] = refl
unlines-split_byte (x ∷ s) = elim (Bool-cases (x == b'\n')) [
  | inl h ↦ rw h (
      ap (◌∷◌ b'\n') (unlines-split_byte s)
      ∙ ap (λ y. y ∷ (s ++ (b'\n' ∷ []))) (sym ((==_iff x b'\n').0 h)))
  | inr h ↦ rw h (
      unlines-push x (split_byte s b'\n') (split_byte-ne-nil s b'\n')
      ∙ ap (◌∷◌ x) (unlines-split_byte s))
]

push-All :
    (P : Bytes → Type 0) (c : ℕ) (ls : List Bytes)
    → ((l : Bytes) → P l → P (c ∷ l))
    → P []
    → All P ls
    → All P (push c ls)
push-All P c [] f e h = (f [] e, tt)
push-All P c (l ∷ ls) f e (hl, h) = (f l hl, h)

split_byte-All-Lacks : (s : Bytes) (c : ℕ) → All (Lacks c) (split_byte s c)
unfolding split_byte
split_byte-All-Lacks [] c = (tt, tt)
split_byte-All-Lacks (x ∷ s) c = elim (Bool-cases (x == c)) [
  | inl h ↦ rw h (tt, split_byte-All-Lacks s c)
  | inr h ↦
      (let other : x ≢ c = ground arith in
        rw h
          (push-All (Lacks c) x (split_byte s c) (λ l k. (other, k)) tt (split_byte-All-Lacks s c)))
]

All-both : (P Q : Bytes → Type 0) (ls : List Bytes) → All P ls → All Q ls → All (λ l. P l × Q l) ls
All-both P Q [] h k = tt
All-both P Q (l ∷ ls) (hl, h) (kl, k) = ((hl, kl), All-both P Q ls h k)

pub read_line-append :
    (l s : Bytes) → Lacks b'\n' l → read_line (with_end l ++ s) ≡ some (with_end l, s)
unfolding read_line
read_line-append l s h = rw (found, read_line) (ap some (λ i. (taken i, left i)))
  where
    front : with_end l ++ s ≡ l ++ (b'\n' ∷ s)
    front = append_assoc l (b'\n' ∷ []) s

    size : length l + 1 ≡ length (with_end l)
    size = omega (arith, length-append l (b'\n' ∷ []))

    found : index_byte (with_end l ++ s) b'\n' ≡ some (length l)
    found = ap (λ u. index_byte u b'\n') front ∙ index_byte-append l s b'\n' h

    taken : take (length l + 1) (with_end l ++ s) ≡ with_end l
    taken = take-append (with_end l) s (length l + 1) size

    left : drop (length l + 1) (with_end l ++ s) ≡ s
    left = drop-append (with_end l) s (length l + 1) size

equal_refl : (s : Bytes) → equal s s ≡ true
equal_refl s = (equal_iff s s).1 refl

separator_read : (rest : Bytes) → read_line (separator_line ++ rest) ≡ some (separator_line, rest)
separator_read rest = read_line-append (drop 1 (take 13 payload_separator)) rest (omega arith)

-- The loop on the lines of a payload and the separator behind them.
read_record-lines :
    (fuel : ℕ) (buffer : Bytes) (ls : List Bytes) (rest : Bytes)
    → length ls < fuel
    → All IsLine ls
    → read_record fuel buffer (unlines ls ++ (separator_line ++ rest))
      ≡ done (some (buffer ++ unlines ls, rest))
unfolding read_record
read_record-lines zero buffer ls rest k h = absurd (omega arith)
read_record-lines (suc fuel) buffer [] rest k h =
    rw (separator_read rest, read_record)
      (rw (equal_refl separator_line) (ap (λ u. done (some (u, rest))) (sym (append-nil buffer))))
read_record-lines (suc fuel) buffer (l ∷ ls) rest k ((hl, nl), h) =
    rw
      (
        ap read_line (append_assoc (with_end l) (unlines ls) (separator_line ++ rest))
            ∙ read_line-append l (unlines ls ++ (separator_line ++ rest)) hl,
        read_record,
      )
      (rw nl (
        read_record-lines fuel (buffer ++ with_end l) ls rest (omega arith) h
        ∙ ap (λ u. done (some (u, rest))) (append_assoc buffer (with_end l) (unlines ls))))

length-unlines : (ls : List Bytes) → length ls ≤ length (unlines ls)
length-unlines [] = omega arith
length-unlines (l ∷ ls) = omega (
  arith,
  length-unlines ls,
  length-append (with_end l) (unlines ls),
  length-append l (b'\n' ∷ []),
)

write_record-unlines :
    (r rest : Bytes)
    → write_record r ++ rest ≡ unlines (split_byte r b'\n') ++ (separator_line ++ rest)
unfolding write_record
write_record-unlines r rest =
    append_assoc r payload_separator rest
    ∙ sym (append_assoc r (b'\n' ∷ []) (separator_line ++ rest))
    ∙ ap (λ u. u ++ (separator_line ++ rest)) (sym (unlines-split_byte r))

-- A clean payload that was written with its separator is read as one record, its last line ended.
pub read_record-write :
    (r rest : Bytes)
    → IsClean r
    → read_record (suc (length (write_record r ++ rest))) [] (write_record r ++ rest)
      ≡ done (some (r ++ (b'\n' ∷ []), rest))
read_record-write r rest clean =
    let lines = split_byte r b'\n' in
    let enough : length lines < suc (length (write_record r ++ rest)) = omega (
      arith,
      length-unlines lines,
      ap length (write_record-unlines r rest),
      length-append (unlines lines) (separator_line ++ rest),
    ) in
    ap (read_record (suc (length (write_record r ++ rest))) []) (write_record-unlines r rest)
    ∙ read_record-lines (suc (length (write_record r ++ rest))) [] lines rest enough
        (All-both (Lacks b'\n') _ lines (split_byte-All-Lacks r b'\n') clean)
    ∙ ap (λ u. done (some (u, rest))) (unlines-split_byte r)

pub read_line-end : (tail : Bytes) → Lacks b'\n' tail → read_line tail ≡ none
unfolding read_line
read_line-end tail h = rw (index_byte-Lacks tail b'\n' h, read_line) refl

pub read_record-end :
    (fuel : ℕ) (buffer tail : Bytes)
    → Lacks b'\n' tail
    → read_record (suc fuel) buffer tail ≡ done none
unfolding read_record
read_record-end fuel buffer tail h = rw (read_line-end tail h, read_record) refl

-- The stream of clean payloads that one instance writes is read as these payloads by another, in
-- order; a tail with no line feed behind them is dropped.
pub handle_connection-write :
    (rs : List Bytes) (tail : Bytes) (fuel : ℕ)
    → All IsClean rs
    → Lacks b'\n' tail
    → length rs < fuel
    → handle_connection fuel (write_records rs ++ tail) ≡ done rs
unfolding handle_connection
handle_connection-write rs tail zero clean end h = absurd (omega arith)
handle_connection-write [] tail (suc fuel) clean end h =
    rw (read_record-end (length tail) [] tail end, ◌>>=◌) refl
handle_connection-write (r ∷ rs) tail (suc fuel) (hr, clean) end h =
    rw
      (
        ap (λ u. read_record (suc (length u)) [] u)
              (append_assoc (write_record r) (write_records rs) tail)
            ∙ read_record-write r (write_records rs ++ tail) hr,
        ◌>>=◌,
      )
      (rw some_bytes (
        rw (handle_connection-write rs tail fuel clean end (omega arith), ◌>>=◌)
          (ap (λ u. done (u ∷ rs))
            (take-append r (b'\n' ∷ []) _ (omega (arith, length-append r (b'\n' ∷ [])))))))
  where
    some_bytes : (length (r ++ (b'\n' ∷ [])) == 0) ≡ false
    some_bytes = ground (arith, length-append r (b'\n' ∷ []))

-- A stream that begins with a separator and no line in front of it, such as one with a separator
-- written twice, makes `handleConnection` panic: the payload would have -1 bytes.
pub handle_connection-panics :
    (fuel : ℕ) (s : Bytes) → handle_connection (suc fuel) (separator_line ++ s) ≡ panic
unfolding handle_connection read_record
handle_connection-panics fuel s =
    rw (separator_read s, read_record) (rw (equal_refl separator_line, ◌>>=◌) refl)
