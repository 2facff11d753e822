-- ===== src/TcpClient/Answers.antt =====
-- What `Send` makes of an answer that comes in parts.
use goreplay.Base.{
  ℕ, zero, suc, ◌+◌, ◌-◌, ◌≤◌, ◌<◌, ◌≡◌, ◌≢◌, refl, sym, ap, ◌∙◌, Bool, true, false, Bytes, done,
  ◌>>=◌, none, some, List, [], ◌∷◌, ◌++◌, append_assoc, append-nil, length, length-append, lt→ltb,
  le→leb, lt→leb, arith, if◌then◌else◌,
}
use goreplay.HttpClient.Receive.{
  Status, fine, at_end, failed, broken, Answer, read_answers, max_response_size, pending,
}
use goreplay.HttpClient.Parts.{joined, in_parts}
use goreplay.HttpClient.Delivery.{length-pending}
use goreplay.TcpClient.{TcpClient, opened, going, ended, turn_within, one_round, receive, send}

-- Whether the answer's end is the end of the connection.
abbrev pub is_end : Status → Bool
is_end at_end = true
is_end _ = false

turn-last :
    (text : Bytes) (n : ℕ) (status : Status)
    → status ≢ fine
    → (tail : List Answer)
    → turn_within text n ([], status, tail)
      ≡ ended (record { text = text; ok = is_end status; rest = tail })
unfolding turn_within
turn-last text n fine stops tail = absurd (stops refl)
turn-last text n at_end stops tail =
    ap (λ t. ended (record { text = t; ok = true; rest = tail })) (append-nil text)
turn-last text n failed stops tail =
    ap (λ t. ended (record { text = t; ok = false; rest = tail })) (append-nil text)
turn-last text n broken stops tail =
    ap (λ t. ended (record { text = t; ok = false; rest = tail })) (append-nil text)

module _ (size : ℕ) (status : Status) (stops : status ≢ fine) (tail : List Answer) where
  one_round-part :
      (text s : Bytes) (more : List Answer)
      → length text + length s < size
      → length text + length s < max_response_size
      → one_round size text (length text) ((s, fine) ∷ more)
        ≡ going (text ++ s) (length (text ++ s)) more
  unfolding one_round read_answers turn_within
  one_round-part text s more room small = rw (lt→ltb (length text) size (omega (arith, room))) (
      rw (le→leb (length s) (size - length text) (omega (arith, room))) (
        rw (lt→leb max_response_size (length text + length s) small)
          (ap (λ n. going (text ++ s) n more) (sym (length-append text s)))))

  one_round-last :
      (text : Bytes)
      → length text < size
      → one_round size text (length text) (([], status) ∷ tail)
        ≡ ended (record { text = text; ok = is_end status; rest = tail })
  unfolding one_round read_answers turn_within
  one_round-last text room = rw (lt→ltb (length text) size room) (
      rw (le→leb 0 (size - length text) (omega arith))
        (turn-last text (length text) status stops tail))

  receive-parts :
      (fuel : ℕ) (text : Bytes) (segs : List Bytes)
      → length text + length (joined segs) < size
      → length text + length (joined segs) < max_response_size
      → length segs ≤ fuel
      → receive (suc fuel) size text (length text) (in_parts segs ++ (([], status) ∷ tail))
        ≡ done (record { text = text ++ joined segs; ok = is_end status; rest = tail })
  unfolding receive
  receive-parts fuel text [] room small h =
      rw (one_round-last text (omega (arith, room)), receive)
        (ap (λ t. done (record { text = t; ok = is_end status; rest = tail }))
          (sym (append-nil text)))
  receive-parts zero text (s ∷ segs) room small h = absurd (omega arith)
  receive-parts (suc fuel) text (s ∷ segs) room small h =
      let split = length-append s (joined segs) in
      rw
        (
          one_round-part text s (in_parts segs ++ (([], status) ∷ tail))
              (omega (arith, room, split)) (omega (arith, small, split)),
          receive,
        )
        (receive-parts fuel (text ++ s) segs (omega (arith, room, split, length-append text s))
            (omega (arith, small, split, length-append text s)) (omega arith)
          ∙ ap (λ t. done (record { text = t; ok = is_end status; rest = tail }))
              (append_assoc text s (joined segs)))

-- An answer in parts, however they were cut, and then an error, on a connection that takes the request; the answer is
-- shorter than the buffer and the maximum size. `Send` returns the whole answer if the error is the end of the
-- connection, and at any other error it returns an error and no response, whatever was received.
pub send-in_parts :
    (c reached : TcpClient) (payload : Bytes) (segs : List Bytes) (status : Status)
    (tail : List Answer)
    → status ≢ fine
    → opened c ≡ (
      reached,
      some (record { answers = in_parts segs ++ (([], status) ∷ tail); refuses = false }),
    )
    → length (joined segs) < c.response_buffer_size
    → length (joined segs) < max_response_size
    → send c payload
      ≡ done (
        record reached {
          conn = some (record { answers = tail; refuses = false });
          sent = reached.sent ++ (payload ∷ []);
        },
        if is_end status then some (joined segs) else none,
      )
unfolding send
send-in_parts c reached payload segs status tail stops alive room small =
    rw (alive, send)
      (rw alive (
        rw
          (
            receive-parts c.response_buffer_size status stops tail
                (pending (in_parts segs ++ (([], status) ∷ tail))) [] segs (omega (arith, room))
                (omega (arith, small)) (length-pending segs (([], status) ∷ tail)),
            ◌>>=◌,
          )
          refl))
