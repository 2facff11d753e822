-- ===== src/HttpClient/ChunkedEnd.antt =====
-- Where the loop of `send` takes a chunked response for finished.
use goreplay.Base.{
  ℕ, zero, suc, ◌+◌, ◌≤◌, ◌<◌, ◌≡◌, ◌≢◌, refl, sym, ap, ap₂, ◌∙◌, true, false, Bytes, codes, done,
  ◌>>=◌, List, [], ◌∷◌, ◌++◌, append_assoc, append-nil, All, length, length-append, lt→leb, arith,
  if◌then◌else◌, equal_iff,
}
use goreplay.Text.Ints.{negsuc}
use goreplay.Text.Split.{has_suffix}
use goreplay.Proto.Headers.Fields.{Field, message, value_of}
use goreplay.Proto.Headers.Refine.{IsMessage}
use goreplay.Proto.Headers.Edits.{header_value-message}
use goreplay.Proto.Payload.EndPos.{body-message}
use goreplay.HttpClient.Receive.{
  fine, Answer, Progress, initial, known, read_heading, judge, whole, open_ended, turn_within,
  heading_turn, round_within, receive, max_response_size, chunked_suffix,
}
use goreplay.HttpClient.Prefixes.{head, length-head, message-head, index-message}
use goreplay.HttpClient.Parts.{
  joined, in_parts, some_bytes, one_round-fits, receive-going, receive-ended,
}

-- A text that grows by parts ends in the last chunk behind the last part, and not before.
abbrev pub EndsLast : Bytes → List Bytes → Type 0
EndsLast text [] = has_suffix text chunked_suffix ≡ true
EndsLast text (s ∷ segs) = (has_suffix text chunked_suffix ≡ false) × EndsLast (text ++ s) segs

module _ (title : Bytes) (fs : List Field) (w : IsMessage title fs)
    (is_chunked : value_of (codes "Transfer-Encoding") fs ≡ codes "chunked") where
  -- The text so far, of which `k` bytes stand behind the headers.
  abbrev pub reading_chunks : Bytes → ℕ → Progress
  reading_chunks text k = record {
    text = text;
    received = length text;
    chunked = true;
    content_length = negsuc 0;
    current = k;
  }

  heading-chunked :
      (b : Bytes)
      → read_heading (record (initial []) {
        text = message title fs b;
        received = length (message title fs b);
      })
        ≡ done (known (reading_chunks (message title fs b) (length b)))
  unfolding read_heading
  heading-chunked b =
      rw (index-message title fs w b, read_heading)
        (rw (header_value-message title fs b w (codes "Transfer-Encoding")) (
          rw ((equal_iff (value_of (codes "Transfer-Encoding") fs) (codes "chunked")).1 is_chunked)
            (rw (body-message title fs b w)
              (ap (λ k. done (known (reading_chunks (message title fs b) k))) (omega arith)))))

  round-headers :
      (b : Bytes)
      → round_within (initial []) (message title fs b) fine
        ≡ done (
            turn_within
              (reading_chunks (message title fs b) (length b))
              fine
              (if has_suffix (message title fs b) chunked_suffix then whole else open_ended))
  unfolding round_within heading_turn judge
  round-headers b =
      ap
        (λ k.
          read_heading (record (initial []) { text = message title fs b; received = k }) >>= (λ h.
            done (
              heading_turn (record (initial []) { text = message title fs b; received = k }) fine
                h)))
        (omega arith)
      ∙ ap
          (λ o. o >>= (λ h. done (
            heading_turn
              (record (initial []) {
                text = message title fs b;
                received = length (message title fs b);
              })
              fine h)))
          (heading-chunked b)

  round-chunks :
      (text s : Bytes) (k : ℕ)
      → round_within (reading_chunks text k) s fine
        ≡ done (
            turn_within
              (reading_chunks (text ++ s) (k + length s))
              fine
              (if has_suffix (text ++ s) chunked_suffix then whole else open_ended))
  unfolding round_within heading_turn judge
  round-chunks text s k =
      ap
        (λ m. done (
          turn_within (record (reading_chunks (text ++ s) (k + length s)) { received = m }) fine
            (if has_suffix (text ++ s) chunked_suffix then whole else open_ended)))
        (sym (length-append text s))

  module _ (size : ℕ) (tail : List Answer) where
    -- The last turn, and those before it.
    chunks-whole :
        (fuel : ℕ) (p : Progress) (s text : Bytes) (k : ℕ)
        → p.received < size
        → p.received + length s ≤ size
        → round_within p s fine
          ≡ done (
              turn_within
                (reading_chunks text k)
                fine
                (if has_suffix text chunked_suffix then whole else open_ended))
        → has_suffix text chunked_suffix ≡ true
        → receive (suc fuel) size p ((s, fine) ∷ tail)
          ≡ done (reading_chunks text k, fine, false, tail)
    unfolding turn_within
    chunks-whole fuel p s text k room fits round suffix =
        receive-ended fuel size p (reading_chunks text k) fine false ((s, fine) ∷ tail) tail
          (one_round-fits size p s tail room fits ∙ rw (round, ◌>>=◌) (rw suffix refl))

    chunks-open :
        (fuel : ℕ) (p : Progress) (s text : Bytes) (k : ℕ) (more : List Answer)
        → p.received < size
        → p.received + length s ≤ size
        → round_within p s fine
          ≡ done (
              turn_within
                (reading_chunks text k)
                fine
                (if has_suffix text chunked_suffix then whole else open_ended))
        → has_suffix text chunked_suffix ≡ false
        → length text < max_response_size
        → receive (suc fuel) size p ((s, fine) ∷ more)
          ≡ receive fuel size (reading_chunks text k) more
    unfolding turn_within
    chunks-open fuel p s text k more room fits round suffix small =
        receive-going fuel size p (reading_chunks text k) ((s, fine) ∷ more) more (
          one_round-fits size p s more room fits
          ∙ rw (round, ◌>>=◌) (rw suffix (rw (lt→leb max_response_size (length text) small) refl)))

    receive-chunks :
        (fuel : ℕ) (p : Progress) (s text : Bytes) (k : ℕ) (segs : List Bytes)
        → p.received < size
        → p.received + length s ≡ length text
        → length text + length (joined segs) ≤ size
        → length text + length (joined segs) < max_response_size
        → All (λ t. t ≢ []) segs
        → round_within p s fine
          ≡ done (
              turn_within
                (reading_chunks text k)
                fine
                (if has_suffix text chunked_suffix then whole else open_ended))
        → EndsLast text segs
        → length segs ≤ fuel
        → receive (suc fuel) size p ((s, fine) ∷ (in_parts segs ++ tail))
          ≡ done
              (reading_chunks (text ++ joined segs) (k + length (joined segs)), fine, false, tail)
    receive-chunks fuel p s text k [] room grown fits small ne round last h =
        chunks-whole fuel p s text k room (omega (arith, fits, grown)) round last
        ∙ ap₂ (λ u m. done (reading_chunks u m, fine, false, tail)) (sym (append-nil text))
            (omega arith)
    receive-chunks zero p s text k (t ∷ segs) room grown fits small ne round last h =
        absurd (omega arith)
    receive-chunks (suc fuel) p s text k (t ∷ segs) room grown fits small ne round last h =
        chunks-open (suc fuel) p s text k ((t, fine) ∷ (in_parts segs ++ tail)) room
          (omega (arith, fits, grown)) round last.0 (omega (arith, small))
        ∙ receive-chunks fuel (reading_chunks text k) t (text ++ t) (k + length t) segs
            (omega (arith, fits, some_bytes t ne.0, length-append t (joined segs)))
            (sym (length-append text t))
            (omega (arith, fits, length-append t (joined segs), length-append text t))
            (omega (arith, small, length-append t (joined segs), length-append text t)) ne.1
            (round-chunks text t k) last.1 (omega arith)
        ∙ ap₂ (λ u m. done (reading_chunks u m, fine, false, tail))
            (append_assoc text t (joined segs)) (omega (arith, length-append t (joined segs)))

    -- A chunked response of which the headers come with the first read, and nonempty reads within the buffer and below
    -- the maximum size: the loop ends without an error behind the first read at whose end the text ends in "0\r\n\r\n",
    -- with the text up to there, and leaves everything behind that on the connection.
    pub receive-EndsLast :
        (fuel : ℕ) (b : Bytes) (segs : List Bytes)
        → All (λ t. t ≢ []) segs
        → EndsLast (message title fs b) segs
        → length (message title fs b) + length (joined segs) ≤ size
        → length (message title fs b) + length (joined segs) < max_response_size
        → length segs ≤ fuel
        → receive
            (suc fuel)
            size
            (initial [])
            ((message title fs b, fine) ∷ (in_parts segs ++ tail))
          ≡ done (
            reading_chunks (message title fs b ++ joined segs) (length b + length (joined segs)),
            fine,
            false,
            tail,
          )
    receive-EndsLast fuel b segs ne last fits small h =
        receive-chunks fuel (initial []) (message title fs b) (message title fs b) (length b) segs
          (omega (
            arith,
            fits,
            ap length (message-head title fs w b),
            length-append (head title fs w) b,
            length-head title fs w,
          ))
          (omega arith) fits small ne (round-headers b) last h
