-- ===== src/TcpClient.antt =====
-- tcp_client.go: `TCPClient` without TLS, on connections as in `HttpClient`.
pub mod Answers
pub mod Examples
use goreplay.Base.{
  ℕ, zero, suc, ◌+◌, ◌-◌, Bool, true, false, Bytes, Outcome, done, timeout, ◌>>=◌, Option, none,
  some, List, [], ◌∷◌, ◌++◌, length, take, ltb, leb, if◌then◌else◌,
}
use goreplay.HttpClient.{Conn}
use goreplay.HttpClient.Receive.{
  Status, fine, at_end, failed, broken, Answer, read_answers, max_response_size, read_chunk_size,
  pending,
}

pub record TcpClient : Type 0 where
  pub response_buffer_size : ℕ
  pub conn : Option Conn
  pub dials : List (Option Conn)
  pub sent : List Bytes

unfoldable pub disconnect : TcpClient → TcpClient
disconnect c = record c { conn = none }

-- `Connect`, with the connection that it made.
unfoldable pub connect : TcpClient → TcpClient × Option Conn
connect c = elim c.dials [
  | [] ↦ (disconnect c, none)
  | d ∷ more ↦ (record c { conn = d; dials = more }, d)
]

-- `isAlive`: the connection behind a read of one byte, which is lost; `none` for one that is closed.
unfoldable pub is_alive : Conn → Option Conn
is_alive conn =
    let (bytes, status, rest) = read_answers 1 conn.answers in
    elim status [ at_end ↦ none | broken ↦ none | _ ↦ some (record conn { answers = rest }) ]

unfoldable pub opened : TcpClient → TcpClient × Option Conn
opened c = elim c.conn [
  | none ↦ connect c
  | some conn ↦ elim (is_alive conn) [
    | none ↦ connect c
    | some alive ↦ (record c { conn = some alive }, some alive)
  ]
]

-- What the loop of `Send` has at its end: the bytes in `respBuf`, whether there is no error, and the answers left.
pub record Received : Type 0 where
  pub text : Bytes
  pub ok : Bool
  pub rest : List Answer

pub data Turn : Type 0 where
  going : Bytes → ℕ → List Answer → Turn
  ended : Received → Turn

abbrev pub go_on : Bytes → ℕ → List Answer → Turn
go_on text received rest =
    if leb max_response_size received
    then ended (record { text = text; ok = true; rest = rest })
    else going text received rest

-- A read into the buffer, at whose end `io.EOF` is no error.
unfoldable pub turn_within : Bytes → ℕ → Bytes × Status × List Answer → Turn
turn_within text received (bytes, fine, rest) = go_on (text ++ bytes) (received + length bytes) rest
turn_within text received (bytes, at_end, rest) =
    ended (record { text = text ++ bytes; ok = true; rest = rest })
turn_within text received (bytes, failed, rest) =
    ended (record { text = text ++ bytes; ok = false; rest = rest })
turn_within text received (bytes, broken, rest) =
    ended (record { text = text ++ bytes; ok = false; rest = rest })

-- A read past the buffer, at whose end `io.EOF` is an error too.
unfoldable pub turn_beyond : Bytes → ℕ → Bytes × Status × List Answer → Turn
turn_beyond text received (bytes, fine, rest) = go_on text (received + length bytes) rest
turn_beyond text received (bytes, at_end, rest) =
    ended (record { text = text; ok = false; rest = rest })
turn_beyond text received (bytes, failed, rest) =
    ended (record { text = text; ok = false; rest = rest })
turn_beyond text received (bytes, broken, rest) =
    ended (record { text = text; ok = false; rest = rest })

unfoldable pub one_round : ℕ → Bytes → ℕ → List Answer → Turn
one_round size text received answers =
    if ltb received size
    then turn_within text received (read_answers (size - received) answers)
    else turn_beyond text received (read_answers read_chunk_size answers)

unfoldable pub receive : ℕ → ℕ → Bytes → ℕ → List Answer → Outcome Received
receive zero size text received answers = timeout
receive (suc fuel) size text received answers = elim (one_round size text received answers) [
  | going more n rest ↦ receive fuel size more n rest
  | ended r ↦ done r
]

-- `Send`: the client behind it, and the response, or none with an error.
unfoldable pub send : TcpClient → Bytes → Outcome (TcpClient × Option Bytes)
send c payload = elim (opened c).1 [
  | none ↦ done ((opened c).0, none)
  | some conn ↦ if conn.refuses then done ((opened c).0, none) else (do
    r ← receive (suc (pending conn.answers)) c.response_buffer_size [] 0 conn.answers
    let after = record ((opened c).0) {
      conn = some (record conn { answers = r.rest });
      sent = (opened c).0.sent ++ (payload ∷ []);
    }
    done (after, if r.ok then some r.text else none))
]
