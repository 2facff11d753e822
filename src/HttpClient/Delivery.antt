-- ===== src/HttpClient/Delivery.antt =====
-- `Send` on a connection that answers with a response of a given length.
use goreplay.Base.{
  ℕ, suc, ◌≤◌, ◌<◌, ◌≡◌, ◌≢◌, refl, ap, ◌∙◌, true, false, ◌&&◌, Bytes, codes, done, ◌>>=◌, none,
  some, List, [], ◌∷◌, ◌++◌, All, length, length-append, take, ltb, le→ltb, arith, if◌then◌else◌,
  equal, slice, slice-append, has_prefix, Bool-cases, inl, inr,
}
use goreplay.Modifier.{is_nil}
use goreplay.Text.Ints.{pos}
use goreplay.Text.Numbers.{int_of}
use goreplay.Proto.Headers.Fields.{Field, render, message, value_of}
use goreplay.Proto.Headers.Scan.{block, render-block}
use goreplay.Proto.Headers.Refine.{IsMessage}
use goreplay.Proto.Path.{path}
use goreplay.Proto.Title.Responses.{status_line, IsStatus, path-status}
use goreplay.HttpClient.{
  Config, Conn, Client, opened, disconnect, prepare, replies, deliver_payload, follow, conclude,
  send_on, send,
}
use goreplay.HttpClient.Receive.{
  fine, Answer, initial, is_interim, has_no_body, receive, max_response_size, pending, weight,
}
use goreplay.HttpClient.Parts.{joined, in_parts}
use goreplay.HttpClient.Whole.{IsSized, receive-waiting, reading}

-- A response with a standard status line, final, and with a length that its headers give.
pub record IsResponse (a b c : ℕ) (text : Bytes) (fs : List Field) (size : ℕ) : Type 0 where
  pub standard : IsStatus (a ∷ b ∷ c ∷ []) text
  pub well_formed : IsMessage (status_line (a ∷ b ∷ c ∷ []) text) fs
  pub is_final : is_interim (int_of (a ∷ b ∷ c ∷ [])) ≡ false
  pub has_body : has_no_body (int_of (a ∷ b ∷ c ∷ [])) ≡ false
  pub not_chunked : equal (value_of (codes "Transfer-Encoding") fs) (codes "chunked") ≡ false
  pub given : is_nil (value_of (codes "Content-Length") fs) ≡ false
  pub length_is : int_of (value_of (codes "Content-Length") fs) ≡ pos size

pub length-pending :
    (segs : List Bytes) (tail : List Answer) → length segs ≤ pending (in_parts segs ++ tail)
length-pending [] tail = omega arith
length-pending (s ∷ segs) tail = omega (arith, length-pending segs tail)

take_self : (p : Bytes) → take (length p) p ≡ p
take_self [] = refl
take_self (x ∷ p) = ap (λ u. x ∷ u) (take_self p)

length-render : (fs : List Field) (rest : Bytes) → length rest ≤ length (render fs rest)
length-render fs rest =
    omega (arith, ap length (render-block fs rest), length-append (block fs) rest)

module _ (a b c : ℕ) (text : Bytes) (fs : List Field) (n : ℕ) (w : IsResponse a b c text fs n) where
  abbrev digits : Bytes
  digits = a ∷ b ∷ c ∷ []

  abbrev response : Bytes → Bytes
  response content = message (status_line digits text) fs content

  path-response : (content : Bytes) → path (response content) ≡ done digits
  path-response content =
      path-status a b c text (render fs (b'\r' ∷ (b'\n' ∷ content))) w.standard
        (omega (arith, length-render fs (b'\r' ∷ (b'\n' ∷ content))))

  sized : IsSized (status_line digits text) fs n
  sized = record {
    well_formed = w.well_formed;
    status = digits;
    has_status = path-response;
    is_final = w.is_final;
    has_body = w.has_body;
    not_chunked = w.not_chunked;
    given = w.given;
    length_is = w.length_is;
  }

  -- The answers to reads are the response in parts, then others.
  module _ (cfg : Config) (content : Bytes) (tail : List Answer) (full : length content ≡ n)
      (fits : length (response content) ≤ cfg.response_buffer_size)
      (small : length (response content) < max_response_size) where
    abbrev answering : List Answer → Conn
    answering answers = record { answers = answers; refuses = false }

    -- The client behind a response that was delivered, with the connection.
    abbrev answered : Client → Bytes → Client
    answered reached request = record reached {
      conn = if equal digits (codes "400") then none else some (answering tail);
      redirects_count = 0;
      sent = reached.sent ++ (request ∷ []);
    }

    receive-in_parts :
        (segs : List Bytes)
        → joined segs ≡ response content
        → All (λ s. s ≢ []) segs
        → receive
            (suc (weight (initial []) (in_parts segs ++ tail)))
            cfg.response_buffer_size
            (initial [])
            (in_parts segs ++ tail)
          ≡ done (reading (status_line digits text) fs n sized content, fine, false, tail)
    receive-in_parts segs e ne =
        receive-waiting (status_line digits text) fs n sized cfg.response_buffer_size content tail
          full fits small (suc (weight (initial []) (in_parts segs ++ tail))) [] segs e ne
          (omega arith) (omega (arith, length-pending segs tail))

    deliver_payload-response :
        (before : Client)
        → deliver_payload before (response content) true
          ≡ done (record {
            client = record before {
              conn = if equal digits (codes "400") then none else before.conn;
              redirects_count = 0;
            };
            response = response content;
            ok = true;
          })
    unfolding deliver_payload disconnect
    deliver_payload-response before =
        rw (path-response content, ◌>>=◌)
          (elim (Bool-cases (equal digits (codes "400"))) [ inl e ↦ rw e refl | inr e ↦ rw e refl ])

    status_stands : slice (response content) 9 12 ≡ done digits
    status_stands =
        slice-append (codes "HTTP/1.1 ") digits
          (b' ' ∷ (text ++ (b'\r' ∷ (b'\n' ∷ render fs (b'\r' ∷ (b'\n' ∷ content)))))) 9 12 refl
          refl

    follow-response :
        (request : Bytes) (before : Client)
        → has_prefix digits (b'3' ∷ []) ≡ false
        → follow cfg before request (response content) true
          ≡ (deliver_payload before (response content) true >>= (λ r. done (replies r)))
    unfolding follow
    follow-response request before e = rw (status_stands, follow) (rw e refl)

    starts_http : slice (response content) 0 4 ≡ done (codes "HTTP")
    starts_http =
        slice-append [] (codes "HTTP")
          (codes "/1.1 "
            ++ (digits
                ++ (b' ' ∷ (text ++ (b'\r' ∷ (b'\n' ∷ render fs (b'\r' ∷ (b'\n' ∷ content))))))))
          0 4 refl refl

    conclude-response :
        (date request : Bytes) (before : Client)
        → ltb before.redirects_count cfg.follow_redirects && has_prefix digits (b'3' ∷ []) ≡ false
        → conclude cfg date before request
            (reading (status_line digits text) fs n sized content)
            fine
          ≡ (deliver_payload before (response content) true >>= (λ r. done (replies r)))
    unfolding conclude equal
    conclude-response date request before stays =
        rw (le→ltb (length (response content)) 4 (omega arith)) (
          rw (starts_http, ◌>>=◌)
            (rw (take_self (response content))
              (elim (Bool-cases (ltb before.redirects_count cfg.follow_redirects)) [
                | inl e ↦
                    (let other : has_prefix digits (b'3' ∷ []) ≡ false = rw e at stays in
                      rw e (follow-response request before other))
                | inr e ↦ rw e refl
              ])))

    send_on-response :
        (date request : Bytes) (reached : Client) (segs : List Bytes)
        → joined segs ≡ response content
        → All (λ s. s ≢ []) segs
        → ltb reached.redirects_count cfg.follow_redirects && has_prefix digits (b'3' ∷ []) ≡ false
        → send_on cfg date reached (answering (in_parts segs ++ tail)) [] request
          ≡ done (
              replies (record {
                client = answered reached request;
                response = response content;
                ok = true;
              }))
    unfolding send_on
    send_on-response date request reached segs e ne stays =
        rw (receive-in_parts segs e ne, ◌>>=◌)
          (conclude-response date request
              (record reached {
                conn = some (answering tail);
                sent = reached.sent ++ (request ∷ []);
              })
              stays
            ∙ ap (λ o. o >>= (λ r. done (replies r)))
                (deliver_payload-response (record reached {
                  conn = some (answering tail);
                  sent = reached.sent ++ (request ∷ []);
                })))

    -- A connection that takes the request and answers with a response, in nonempty reads at whatever places they cut
    -- it: `Send` returns exactly the response without an error, has written the request once, and keeps the connection
    -- with what follows, or closes it for a 400. The response is final, has a body and the length that its header
    -- gives, fits into the buffer and is below the maximum size, and is no redirect that is to be followed.
    pub send-IsResponse :
        (fuel : ℕ) (date payload request : Bytes) (before reached : Client) (segs : List Bytes)
        → opened before ≡ (reached, some ([], answering (in_parts segs ++ tail)))
        → prepare cfg reached payload ≡ done request
        → joined segs ≡ response content
        → All (λ s. s ≢ []) segs
        → ltb reached.redirects_count cfg.follow_redirects && has_prefix digits (b'3' ∷ []) ≡ false
        → send (suc fuel) cfg date before payload
          ≡ done
              (record { client = answered reached request; response = response content; ok = true })
    unfolding send
    send-IsResponse fuel date payload request before reached segs alive prepared e ne stays =
        rw (alive, send)
          (rw alive (
            rw (prepared, ◌>>=◌)
              (rw (send_on-response date request reached segs e ne stays, ◌>>=◌) refl)))
