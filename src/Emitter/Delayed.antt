-- ===== src/Emitter/Delayed.antt =====
-- A response that comes within a minute of its dropped request, with other records in between.
use goreplay.Base.{ℕ, ◌≡◌, ◌≢◌, ap, ◌∙◌, Bool, Bytes, done, ◌>>=◌, none, some, List, [], ◌∷◌, ◌++◌}
use goreplay.Text.Ints.{ℤ}
use goreplay.Tcp.Store.{lookup, delete, store}
use goreplay.Modifier.{Config, rewrite}
use goreplay.Protocol.{payload_header, request_payload}
use goreplay.Protocol.Records.{IsWord}
use goreplay.Emitter.Filtered.{
  delete-store, lookup-store_self, bind_nil, round-request, round-response,
}
use goreplay.Emitter.{Options, State, copy_multy}
use goreplay.Emitter.Without.{AreBetween, copy_multy-without}

-- A request that the modifier drops, and the response with its identifier (a word that no request
-- dropped before has), with any records of other identifiers in between that are read within a minute of
-- the request, leave no trace: nothing is written for either, and the loop writes what it writes on the
-- records in between and behind them alone.
pub copy_multy-pair :
    (o : Options) (fails : ℕ → Bytes → Bool) (n : ℕ) (c : Config) (uuid : Bytes) (s : State)
    (now later t : ℕ) (sent got latency latency' : ℤ) (body answer : Bytes)
    (between reads : List (ℕ × Bytes))
    → o.modifier ≡ some c
    → IsWord uuid
    → rewrite c body ≡ done []
    → lookup s.filtered uuid ≡ none
    → (t ≢ b' ') × (t ≢ b'\n')
    → t ≢ request_payload
    → AreBetween uuid now between
    → copy_multy o fails n s (
        (now, payload_header request_payload uuid sent latency ++ body)
        ∷ (between ++ ((later, payload_header t uuid got latency' ++ answer) ∷ reads)))
      ≡ copy_multy o fails n s (between ++ reads)
unfolding copy_multy
copy_multy-pair o fails n c uuid s now later t sent got latency latency' body answer between reads
      on hu drops fresh ht other apart =
    let kept_state : State = record s { filtered = store s.filtered uuid now } in
    rw (round-request o fails n c uuid hu on s now sent latency body drops, ◌>>=◌)
      (bind_nil _
        ∙ copy_multy-without uuid now o fails n kept_state between
            ((later, payload_header t uuid got latency' ++ answer) ∷ reads) reads
            (lookup-store_self s.filtered uuid now) apart answered
        ∙ ap (λ f. copy_multy o fails n (record s { filtered = f }) (between ++ reads))
            (delete-store s.filtered uuid now fresh))
  where
    answered :
        (s' : State)
        → lookup s'.filtered uuid ≡ some now
        → copy_multy o fails n s' ((later, payload_header t uuid got latency' ++ answer) ∷ reads)
          ≡ copy_multy o fails n (record s' { filtered = delete s'.filtered uuid }) reads
    answered s' w =
        rw
          (
            round-response o fails n c uuid hu on s' later now t got latency' answer ht other w,
            ◌>>=◌,
          )
          (bind_nil _)
