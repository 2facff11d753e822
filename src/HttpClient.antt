-- ===== src/HttpClient.antt =====
-- http_client.go: `HTTPClient` without its compatibility mode. The network is what its connections will
-- answer to reads: a list of answers, and a list of what dialling comes to. A panic in `Send`, from
-- which its deferred function recovers, is `panic` here.
pub mod Receive
pub mod Prefixes
pub mod Parts
pub mod Whole
pub mod Delivery
pub mod ChunkedEnd
pub mod Examples
use goreplay.Base.{
  ℕ, zero, suc, ◌+◌, ◌-◌, Bool, true, false, not, ◌&&◌, ◌||◌, Bytes, codes, Outcome, done, panic,
  timeout, ◌>>=◌, Option, none, some, List, [], ◌∷◌, ◌++◌, length, take, drop, slice, ltb, leb,
  ◌==◌, if◌then◌else◌, equal, has_prefix, index_byte,
}
use goreplay.Modifier.{is_nil}
use goreplay.Text.Decimal.{format_ℕ}
use goreplay.Proto.Headers.{header_value, set_header}
use goreplay.Proto.Path.{path, set_path, set_host}
use goreplay.HttpClient.Receive.{
  Status, fine, at_end, failed, broken, Answer, read_answers, Progress, initial, weight, receive,
  is_fine,
}

pub record Config : Type 0 where
  pub follow_redirects : ℕ
  pub original_host : Bool
  pub response_buffer_size : ℕ

-- A connection: what it answers, and whether it fails at a write.
pub record Conn : Type 0 where
  pub answers : List Answer
  pub refuses : Bool

-- `dials` lists the connections that the next calls of `Connect` give; `sent` lists what was written.
pub record Client : Type 0 where
  pub base_url : Bytes
  pub scheme : Bytes
  pub host : Bytes
  pub auth : Bytes
  pub is_proxy : Bool
  pub proxy_auth : Bytes
  pub conn : Option Conn
  pub redirects_count : ℕ
  pub dials : List (Option Conn)
  pub sent : List Bytes

-- The address that `Connect` dials.
unfoldable pub to_dial : Bytes → Bytes → Bytes
to_dial scheme host = elim (index_byte host b':') [
  | some i ↦ host
  | none ↦
      host
      ++ (b':'
          ∷ (if equal scheme (codes "http")
              then codes "80"
              else if equal scheme (codes "https")
              then codes "443"
              else []))
]

unfoldable pub disconnect : Client → Client
disconnect c = record c { conn = none }

-- `Connect`, with whether it connected.
unfoldable pub connect : Client → Client × Bool
connect c = elim c.dials [
  | [] ↦ (disconnect c, false)
  | d ∷ more ↦ elim d [
    | none ↦ (record (disconnect c) { dials = more }, false)
    | some conn ↦ (record c { conn = some conn; dials = more }, true)
  ]
]

-- `isAlive`: the byte that it read, and the connection behind that; `none` for one that is closed.
unfoldable pub is_alive : Conn → Option (Bytes × Conn)
is_alive conn =
    let (bytes, status, rest) = read_answers 1 conn.answers in
    elim status [ at_end ↦ none | broken ↦ none | _ ↦ some (bytes, record conn { answers = rest }) ]

-- A connection to write to, new or old, with the bytes that were read of it.
unfoldable pub opened : Client → Client × Option (Bytes × Conn)
opened c =
    let dialled = connect c in
    let fresh : Client × Option (Bytes × Conn) = (
      dialled.0,
      if dialled.1 then elim dialled.0.conn [ none ↦ none | some conn ↦ some ([], conn) ] else none,
    ) in
    elim c.conn [
      | none ↦ fresh
      | some conn ↦ elim (is_alive conn) [ none ↦ fresh | some alive ↦ (c, some alive) ]
    ]

unfoldable pub proxy_path : Client → Bytes → Bytes
proxy_path c p = c.scheme ++ (codes "://" ++ (c.host ++ p))

-- The changes for a proxy.
unfoldable pub for_proxy : Client → Bytes → Outcome Bytes
for_proxy c payload =
    if not (c.is_proxy && equal c.scheme (codes "http")) then done payload else (do
      p ← path payload
      if not (has_prefix p (b'/' ∷ [])) then done payload else (do
        set ← set_path payload (proxy_path c p)
        if is_nil c.proxy_auth
            then done set
            else set_header set (codes "Proxy-Authorization") c.proxy_auth))

-- What `Send` makes of a request.
unfoldable pub prepare : Config → Client → Bytes → Outcome Bytes
prepare cfg c payload = do
  hosted ← (if cfg.original_host then done payload else set_host payload c.base_url c.host)
  proxied ← for_proxy c hosted
  if is_nil c.auth then done proxied else set_header proxied (codes "Authorization") c.auth

abbrev pub error_template : Bytes
error_template =
    codes "HTTP/1.1 202 Accepted\r\nDate: Mon, 17 Aug 2015 14:10:11 GMT\r\n"
    ++ codes "Content-Length: 0\r\nContent-Type: text/plain; charset=utf-8\r\n\r\n"

-- `errorPayload`, with the text of the time, which has 29 bytes.
unfoldable pub error_payload : Bytes → Bytes → Bytes
error_payload date code =
    take 9 error_template
    ++ (code ++ (drop 12 (take 29 error_template) ++ (date ++ drop 58 error_template)))

abbrev pub unknown_error : Bytes
unknown_error = codes "520"

abbrev pub connection_error : Bytes
connection_error = codes "521"

abbrev pub timeout_error : Bytes
timeout_error = codes "524"

-- What a call gives: the client behind it, the response, and whether there was no error.
pub record Reply : Type 0 where
  pub client : Client
  pub response : Bytes
  pub ok : Bool

abbrev pub failure : Client → Bytes → Bytes → Bool → Reply
failure c date code ok = record {
  client = disconnect c;
  response = error_payload date code;
  ok = ok;
}

-- Behind the loop of `send`: a reply, or the request of a redirect.
pub data Ending : Type 0 where
  replies : Reply → Ending
  redirects : Client → Bytes → Ending

-- A response that is no redirect.
unfoldable pub deliver_payload : Client → Bytes → Bool → Outcome Reply
deliver_payload c payload ok = do
  status ← path payload
  let kept = if equal status (codes "400") then disconnect c else c
  done (record { client = record kept { redirects_count = 0 }; response = payload; ok = ok })

unfoldable pub follow : Config → Client → Bytes → Bytes → Bool → Outcome Ending
follow cfg c request payload ok = do
  status ← slice payload 9 12
  if has_prefix status (b'3' ∷ [])
      then (do
        location ← header_value payload (codes "Location")
        next ← set_path request location
        done (redirects (record c { redirects_count = c.redirects_count + 1 }) next))
      else (do reply ← deliver_payload c payload ok; done (replies reply))

unfoldable pub conclude : Config → Bytes → Client → Bytes → Progress → Status → Outcome Ending
conclude cfg date c request p status =
    if not (is_fine status) && p.received == 0
    then done (replies (failure c date timeout_error false))
    else if ltb p.received 4
    then done (replies (failure c date unknown_error (is_fine status)))
    else (do
      front ← slice p.text 0 4
      if not (equal front (codes "HTTP"))
          then done (replies (failure c date unknown_error (is_fine status)))
          else if ltb c.redirects_count cfg.follow_redirects
          then follow cfg c request (take p.received p.text) (is_fine status)
          else (do
            reply ← deliver_payload c (take p.received p.text) (is_fine status)
            done (replies reply)))

-- `send`, on a connection with the bytes that were read of it: the request goes out, and the loop
-- gathers the response.
unfoldable pub send_on : Config → Bytes → Client → Conn → Bytes → Bytes → Outcome Ending
send_on cfg date c conn first request =
    if conn.refuses then done (replies (failure c date timeout_error false)) else (do
      (p, status, closed, rest) ←
          receive (suc (weight (initial first) conn.answers)) cfg.response_buffer_size
            (initial first) conn.answers
      let kept = record conn { answers = rest }
      conclude cfg date
          (record c { conn = if closed then none else some kept; sent = c.sent ++ (request ∷ []) })
          request p status)

-- `Send`, with a unit of fuel for each request.
unfoldable pub send : ℕ → Config → Bytes → Client → Bytes → Outcome Reply
send zero cfg date c payload = timeout
send (suc fuel) cfg date c payload = elim (opened c).1 [
  | none ↦ done (failure (opened c).0 date connection_error false)
  | some (first, conn) ↦ do
    request ← prepare cfg (opened c).0 payload
    ending ← send_on cfg date (opened c).0 conn first request
    elim ending [ replies r ↦ done r | redirects next more ↦ send fuel cfg date next more ]
]

-- What `Get` and `Post` send.
unfoldable pub get_payload : Bytes → Bytes
get_payload p = codes "GET " ++ (p ++ codes " HTTP/1.1\r\n\r\n")

unfoldable pub post_payload : Bytes → Bytes → Bytes
post_payload p content =
    codes "POST "
    ++ (p
        ++ (codes " HTTP/1.1\r\nContent-Length: "
            ++ (format_ℕ (length content) ++ (codes "\r\n\r\n" ++ content))))
