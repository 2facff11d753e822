-- ===== src/TcpOutput.antt =====
-- output_tcp.go: the queues of `TCPOutput` and the rounds of its workers. A connection says of the
-- separator whether it was written; the hash is an argument.
pub mod Range
use goreplay.Base.{
  ℕ, suc, ◌+◌, ◌%◌, Bool, true, false, Bytes, Outcome, done, panic, ◌>>=◌, Option, none, some, List,
  [], ◌∷◌, ◌++◌, length, get_elem?, replicate, leb, if◌then◌else◌,
}
use goreplay.Tcp.Store.{modify}
use goreplay.Protocol.{is_origin_payload, payload_meta}
use goreplay.Protocol.Stream.{write_record}

-- The queues of the workers, and how many records each of them takes.
pub record Queues : Type 0 where
  pub sticky : Bool
  pub room : ℕ
  pub buffers : List (List Bytes)

-- `NewTCPOutput`: a queue for each of the ten workers, or one for all.
unfoldable pub new_queues : Bool → Queues
new_queues true = record { sticky = true; room = 100; buffers = replicate 10 [] }
new_queues false = record { sticky = false; room = 1000; buffers = [] ∷ [] }

-- The identifier, or a panic where there is none.
abbrev pub id_of : List Bytes → Outcome Bytes
id_of (a ∷ (id ∷ more)) = done id
id_of _ = panic

unfoldable pub get_buffer_index : (Bytes → ℕ) → Bool → Bytes → Outcome ℕ
get_buffer_index hash false payload = done 0
get_buffer_index hash true payload = do id ← id_of (payload_meta payload); done (hash id % 10)

-- A record behind the others of a queue; `none` while it is full, and the writer waits.
unfoldable pub enqueue : Queues → ℕ → Bytes → Outcome (Option Queues)
enqueue q i payload = elim (get_elem? q.buffers i) [
  | none ↦ panic
  | some waiting ↦
      if leb q.room (length waiting)
      then done none
      else done
          (some (record q { buffers = modify i (λ old. waiting ++ (payload ∷ [])) q.buffers }))
]

unfoldable pub write_origin : (Bytes → ℕ) → Queues → Bytes → Outcome (Option Queues)
write_origin hash q payload = do i ← get_buffer_index hash q.sticky payload; enqueue q i payload

-- `Write`: other records than those of an origin are passed over.
unfoldable pub write_queued : (Bytes → ℕ) → Queues → Bytes → Outcome (Option Queues)
write_queued hash q payload = do
  origin ← is_origin_payload payload
  if origin then write_origin hash q payload else done (some q)

-- A round of `worker` with a record: what the connection gets, and the record back in the queue if
-- the separator was not written.
unfoldable pub worker_round : Bool → Bytes → List Bytes → Bytes × List Bytes
worker_round ok payload waiting =
    if ok then (write_record payload, waiting) else (payload, waiting ++ (payload ∷ []))
