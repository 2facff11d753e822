-- ===== src/BinaryOutput.antt =====
-- output_binary.go: what `BinaryOutput` does with a record, a response and an idle worker. The client is
-- outside; times are in nanoseconds.
pub mod Times
use goreplay.Base.{
  ℕ, zero, suc, ◌+◌, ◌-◌, Bool, true, false, not, ◌&&◌, Bytes, Outcome, done, panic, ◌>>=◌, Option,
  none, some, List, [], ◌∷◌, ◌++◌, length, take, ltb, leb, ◌==◌, if◌then◌else◌,
}
use goreplay.Text.Ints.{ℤ, pos}
use goreplay.Protocol.{
  is_request_payload, payload_meta, payload_body, payload_header, replayed_response_payload,
}

-- The fields of `response` in output_http.go, in their order.
pub record Response : Type 0 where
  pub payload : Bytes
  pub uuid : Bytes
  pub round_trip_time : ℕ
  pub started_at : ℕ

-- The literal in `sendRequest`, which gives the fields by their places.
unfoldable pub response_of : Bytes → Bytes → ℕ → ℕ → Response
response_of payload uuid start stop = record {
  payload = payload;
  uuid = uuid;
  round_trip_time = start;
  started_at = stop - start;
}

-- What `sendRequest` gives the client, with the identifier for the response.
unfoldable pub binary_request : Bytes → Outcome (Option (Bytes × Bytes))
binary_request request = elim (payload_meta request) [
  | a ∷ (id ∷ more) ↦ do
    is_request ← is_request_payload request
    done (if is_request then some (id, payload_body request) else none)
  | _ ↦ done none
]

-- `Read` into a buffer: a header that does not fit is a slice out of range; the number that it
-- returns counts what was cut off, too.
unfoldable pub read_binary : ℕ → Response → Outcome (Bytes × ℕ)
read_binary capacity r =
    let head =
      payload_header replayed_response_payload r.uuid (pos r.started_at) (pos r.round_trip_time) in
    if ltb capacity (length head)
    then panic
    else done (head ++ take (capacity - length head) r.payload, length r.payload + length head)

-- `Write` with `workers` configured and `active` at work: the queue, and how many workers it asks for.
unfoldable pub write_binary : ℕ → ℕ → List Bytes → Bytes → Outcome (List Bytes × Option ℕ)
write_binary workers active queue payload = do
  is_request ← is_request_payload payload
  let longer = queue ++ (payload ∷ [])
  done (
      if not is_request then (queue, none) else (
        longer,
        if workers == 0 && ltb active (length longer) then some (length longer) else none,
      ))

-- A worker behind a tenth of a second with no record: its count of these, and whether it leaves.
unfoldable pub idle_round : ℕ → ℕ → ℕ → ℕ × Bool
idle_round workers active deaths =
    if workers == 0 then (deaths + 1, ltb 20 (deaths + 1) && not (active == 1)) else (deaths, false)
