-- ===== src/BinaryOutput/Times.antt =====
-- The numbers in the header of a replayed response.
use goreplay.Base.{
  ℕ, ◌-◌, ◌+◌, ◌≤◌, ◌≡◌, refl, Bytes, done, [], ◌∷◌, ◌++◌, length, take, le→ltb, arith,
}
use goreplay.Text.Ints.{pos}
use goreplay.Text.Decimal.{format_ℕ, format_int}
use goreplay.Protocol.{payload_header, payload_meta, replayed_response_payload}
use goreplay.Protocol.Records.{IsWord, meta-header}
use goreplay.BinaryOutput.{response_of, read_binary}

-- The header of a response that was sent at `start` and came at `stop`.
abbrev swapped_header : Bytes → ℕ → ℕ → Bytes
swapped_header uuid start stop =
    payload_header replayed_response_payload uuid (pos (stop - start)) (pos start)

-- The third word of the header, which is the time in other records, is the duration, and the fourth
-- one, the latency, is the time.
pub read_binary-swaps :
    (capacity : ℕ) (payload uuid : Bytes) (start stop : ℕ)
    → IsWord uuid
    → length (swapped_header uuid start stop) ≤ capacity
    → (text : Bytes) × (n : ℕ) × (read_binary capacity (response_of payload uuid start stop)
        ≡ done (text, n))
      × (payload_meta text
          ≡ (replayed_response_payload ∷ []) ∷ uuid ∷ format_ℕ (stop - start) ∷ format_ℕ start ∷ [])
unfolding read_binary response_of format_int
read_binary-swaps capacity payload uuid start stop h fits = (
  swapped_header uuid start stop
      ++ take (capacity - length (swapped_header uuid start stop)) payload,
  length payload + length (swapped_header uuid start stop),
  rw (le→ltb capacity (length (swapped_header uuid start stop)) fits) refl,
  (meta-header replayed_response_payload uuid (pos (stop - start)) (pos start)
      (take (capacity - length (swapped_header uuid start stop)) payload)
      ((λ e. omega arith), (λ e. omega arith)) h).0,
)
