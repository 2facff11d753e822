-- ===== src/HttpOutput.antt =====
-- output_http.go: the queue of `HTTPOutput`, its workers and the scaling of their number. A step is
-- what one goroutine does between two operations on shared state. The client that sends a request is
-- outside; a request that it sent is listed.
pub mod Workers
pub mod Scaling
pub mod Examples
use goreplay.Base.{
  ℕ, zero, suc, ◌+◌, ◌-◌, ◌<◌, ◌≡◌, Bool, true, false, not, ◌&&◌, Bytes, Outcome, done, panic,
  ◌>>=◌, Option, none, some, List, [], ◌∷◌, ◌++◌, length, get_elem?, take, replicate, ltb, leb,
  ◌==◌, if◌then◌else◌,
}
use goreplay.Text.Ints.{ℤ}
use goreplay.Tcp.Store.{modify}
use goreplay.Proto.Title.{has_request_title}
use goreplay.Protocol.{
  is_request_payload, payload_meta, payload_body, payload_header, replayed_response_payload,
}

pub record Config : Type 0 where
  pub workers_min : ℕ
  pub workers_max : ℕ
  pub queue_len : ℕ

abbrev pub initial_workers : ℕ
initial_workers = 10

-- A worker in its `select`; behind the test that lets it leave, in front of the decrement; returned.
pub data Worker : Type 0 where
  ready leaving gone : Worker

-- `stopped`: whether `Close` has closed `stop`. `need` holds the requests for workers: the one in the channel's buffer, and behind it those of the
-- writers that wait at the channel.
pub record Output : Type 0 where
  pub active : ℕ
  pub need : List ℕ
  pub queue : List Bytes
  pub workers : List Worker
  pub sent : List Bytes
  pub stopped : Bool

-- `NewHTTPOutput`
unfoldable pub new_output : Config → Output
new_output c = record {
  active = 0;
  need = (if c.workers_max == 0 then initial_workers else c.workers_max) ∷ [];
  queue = [];
  workers = [];
  sent = [];
  stopped = false;
}

-- How many workers `Write` asks for, with `queued` requests in the queue.
unfoldable pub extra_workers : Config → ℕ → ℕ → ℕ
extra_workers c queued active =
    if not (c.workers_max == c.workers_min) && ltb active queued
    then (let extra = queued - active + 1 in
        let available = c.workers_max - active in if ltb available extra then available else extra)
    else 0

abbrev pub ask : ℕ → List ℕ → List ℕ
ask n need = if n == 0 then need else need ++ (n ∷ [])

-- `Write`; `none` while the queue is full, when the writer waits.
unfoldable pub write : Config → Output → Bytes → Outcome (Option Output)
write c o payload = do
  request ← is_request_payload payload
  done (
      if not request
      then some o
      else if leb c.queue_len (length o.queue)
      then none
      else some (record o {
        queue = o.queue ++ (payload ∷ []);
        need = ask (extra_workers c (length o.queue + 1) o.active) o.need;
      }))

-- One round of `workerMaster`.
unfoldable pub add_workers : Output → ℕ → List ℕ → Output
add_workers o n rest = record o {
  need = rest;
  active = o.active + n;
  workers = o.workers ++ replicate n ready;
}

-- What `sendRequest` gives the client, if the record is one that it sends.
unfoldable pub request_of : Bytes → Outcome (Option Bytes)
request_of request = elim (payload_meta request) [
  | a ∷ (id ∷ more) ↦ do
    titled ← has_request_title (payload_body request)
    done (if titled then some (payload_body request) else none)
  | _ ↦ done none
]

abbrev pub listed : Option Bytes → List Bytes
listed none = []
listed (some r) = r ∷ []

-- The test of a worker that was idle for two seconds.
unfoldable pub may_leave : Config → ℕ → Bool
may_leave c count =
    not (c.workers_min == c.workers_max) && (not (count == 1) && ltb c.workers_min count)

abbrev pub set_worker : Output → ℕ → Worker → Output
set_worker o i w = record o { workers = modify i (λ old. w) o.workers }

pub data Step (c : Config) (o q : Output) : Type 0 where
  writes : (payload : Bytes) → write c o payload ≡ done (some q) → Step c o q
  adds : (n : ℕ) (rest : List ℕ) → o.need ≡ n ∷ rest → q ≡ add_workers o n rest → Step c o q
  sends :
      (i : ℕ) (payload : Bytes) (rest : List Bytes) (r : Option Bytes)
      → get_elem? o.workers i ≡ some ready
      → o.queue ≡ payload ∷ rest
      → request_of payload ≡ done r
      → q ≡ record o { queue = rest; sent = o.sent ++ listed r }
      → Step c o q
  idles :
      (i : ℕ)
      → get_elem? o.workers i ≡ some ready
      → may_leave c o.active ≡ true
      → q ≡ set_worker o i leaving
      → Step c o q
  leaves :
      (i : ℕ)
      → get_elem? o.workers i ≡ some leaving
      → q ≡ record (set_worker o i gone) { active = o.active - 1 }
      → Step c o q
  stops : o.stopped ≡ false → q ≡ record o { stopped = true } → Step c o q
  quits :
      (i : ℕ)
      → get_elem? o.workers i ≡ some ready
      → o.stopped ≡ true
      → q ≡ set_worker o i gone
      → Step c o q

pub data Reach (c : Config) (o : Output) : Output → Type 0 where
  here : Reach c o o
  next : {p q : Output} → Reach c o p → Step c p q → Reach c o q

-- `Read` of a response into a buffer: the header, and as much of the response as fits.
unfoldable pub read_response : ℕ → Bytes → ℤ → ℤ → Bytes → Bytes
read_response capacity uuid round_trip started payload =
    let header = payload_header replayed_response_payload uuid round_trip started in
    take capacity header
    ++ (if ltb (length header) capacity then take (capacity - length header) payload else [])
