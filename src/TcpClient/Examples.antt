-- ===== src/TcpClient/Examples.antt =====
-- The client at answers of a server that leaves the connection open.
use goreplay.Base.{◌≡◌, refl, false, codes, none, some, done, List, [], ◌∷◌, arith}
use goreplay.HttpClient.{Conn}
use goreplay.HttpClient.Receive.{fine, failed, Answer}
use goreplay.TcpClient.{TcpClient, opened, connect, send}
use goreplay.TcpClient.Answers.{send-in_parts}

abbrev answering : List Answer → Conn
answering answers = record { answers = answers; refuses = false }

abbrev new_client : TcpClient
new_client = record {
  response_buffer_size = 100;
  conn = none;
  dials = some (answering ((codes "par", fine) ∷ (codes "ts", fine) ∷ ([], failed) ∷ [])) ∷ [];
  sent = [];
}

-- The deadline passes behind the whole of the answer, which is lost.
send-in_parts_example :
    send new_client (codes "request")
    ≡ done (
      record new_client { conn = some (answering []); dials = []; sent = codes "request" ∷ [] },
      none,
    )
unfolding opened connect
send-in_parts_example =
    send-in_parts new_client
      (record new_client {
        conn = some (answering ((codes "par", fine) ∷ (codes "ts", fine) ∷ ([], failed) ∷ []));
        dials = [];
      })
      (codes "request") (codes "par" ∷ codes "ts" ∷ []) failed [] (λ e. cc) refl (omega arith)
      (omega arith)
