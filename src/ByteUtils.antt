-- ===== src/ByteUtils.antt =====
-- byteutils/byteutils.go: cut, insert and replace on byte slices. `SliceToString` reinterprets a
-- slice as a string and has nothing to model: both are lists of bytes here.
pub mod Laws
pub mod Tests
use goreplay.Base.{
  ℕ, ◌+◌, ◌-◌, Bytes, Outcome, done, panic, ◌>>=◌, [], ◌∷◌, ◌++◌, slice_from, slice_to, slice,
  length, take, drop, replicate, ltb, leb, if◌then◌else◌, ◌&&◌,
}

-- `copy(a, b)`: as many bytes as both have; what `a` holds afterwards.
unfoldable pub overwrite : Bytes → Bytes → Bytes
overwrite [] b = []
overwrite (x ∷ a) [] = x ∷ a
overwrite (x ∷ a) (y ∷ b) = y ∷ overwrite a b

-- `copy(a[i:], b)` and `copy(a[i:j], b)`: what `a` holds afterwards.
unfoldable pub copy_from : Bytes → ℕ → Bytes → Outcome Bytes
copy_from a i b = do dst ← slice_from a i; done (take i a ++ overwrite dst b)

unfoldable pub copy_between : Bytes → ℕ → ℕ → Bytes → Outcome Bytes
copy_between a i j b = do dst ← slice a i j; done (take i a ++ (overwrite dst b ++ drop j a))

-- `append(a, make([]byte, n)...)`
unfoldable pub grow : Bytes → ℕ → Bytes
grow a n = a ++ replicate n 0

unfoldable pub cut : Bytes → ℕ → ℕ → Outcome Bytes
cut a from to = do
  src ← slice_from a to
  a' ← copy_from a from src
  slice_to a' (length a' + from - to)

unfoldable pub insert : Bytes → ℕ → Bytes → Outcome Bytes
insert a i b = do
  let grown = grow a (length b)
  src ← slice_from grown i
  shifted ← copy_from grown (i + length b) src
  copy_between shifted i (i + length b) b

-- `lenDiff` is `len(new) - (to - from)`, a signed number; its sign is that of
-- `from + len(new)` against `to`.
unfoldable pub replace : Bytes → ℕ → ℕ → Bytes → Outcome Bytes
replace a from to new =
    if ltb to (from + length new)
    then longer
    else if ltb (from + length new) to
    then shorter
    else copy_from a from new
  where
    longer : Outcome Bytes
    longer = do
      let diff = from + length new - to
      let grown = grow a diff
      src ← slice_from grown to
      shifted ← copy_from grown (to + diff) src
      copy_between shifted from (from + length new) new

    shorter : Outcome Bytes
    shorter = do
      a1 ← copy_from a from new
      src ← slice_from a1 to
      a2 ← copy_from a1 (from + length new) src
      slice_to a2 (length a2 + from + length new - to)
