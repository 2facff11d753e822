-- ===== src/HttpClient/Whole.antt =====
-- A response with a length that comes in parts.
use goreplay.Base.{
  ℕ, zero, suc, ◌+◌, ◌≤◌, ◌<◌, ◌≡◌, ◌≢◌, refl, sym, ap, ap₂, ◌∙◌, false, Bytes, codes, done, ◌>>=◌,
  none, List, [], ◌∷◌, ◌++◌, append_assoc, append-nil, All, length, length-append, lt→leb, dec_lt,
  arith, equal, index,
}
use goreplay.Modifier.{is_nil}
use goreplay.Text.Ints.{pos, negsuc}
use goreplay.Text.Numbers.{int_of}
use goreplay.Proto.Headers.{empty_line}
use goreplay.Proto.Headers.Fields.{Field, message, value_of}
use goreplay.Proto.Headers.Refine.{IsMessage}
use goreplay.Proto.Headers.Edits.{header_value-message}
use goreplay.Proto.Payload.EndPos.{body-message}
use goreplay.Proto.Path.{path}
use goreplay.HttpClient.Receive.{
  fine, Answer, Progress, known, with_content_length, read_status, read_heading, is_interim,
  has_no_body, compare_length, judge, whole, open_ended, Turn, going, ended, turn_within,
  heading_turn, round_within, one_round, receive, max_response_size,
}
use goreplay.HttpClient.Prefixes.{head, message-head, index-part, part-message, index-message}
use goreplay.HttpClient.Parts.{
  joined, in_parts, none_left, some_bytes, one_round-fits, receive-going, receive-ended,
}

-- A response whose headers give the length of its body, with a final status that has a body.
pub record IsSized (title : Bytes) (fs : List Field) (size : ℕ) : Type 0 where
  pub well_formed : IsMessage title fs
  pub status : Bytes
  pub has_status : (b : Bytes) → path (message title fs b) ≡ done status
  pub is_final : is_interim (int_of status) ≡ false
  pub has_body : has_no_body (int_of status) ≡ false
  pub not_chunked : equal (value_of (codes "Transfer-Encoding") fs) (codes "chunked") ≡ false
  pub given : is_nil (value_of (codes "Content-Length") fs) ≡ false
  pub length_is : int_of (value_of (codes "Content-Length") fs) ≡ pos size

open_below : {k n : ℕ} → k < n → compare_length k (pos n) ≡ open_ended
open_below below = ground arith

whole_at : {k n : ℕ} → k ≡ n → compare_length k (pos n) ≡ whole
whole_at full = ground arith

module _ (title : Bytes) (fs : List Field) (n : ℕ) (w : IsSized title fs n) where
  -- In front of the end of the headers, and behind it.
  abbrev pub waiting : Bytes → Progress
  waiting p = record {
    text = p;
    received = length p;
    chunked = false;
    content_length = negsuc 0;
    current = 0;
  }

  abbrev pub reading : Bytes → Progress
  reading b = record {
    text = message title fs b;
    received = length (message title fs b);
    chunked = false;
    content_length = pos n;
    current = length b;
  }

  heading-waiting :
      (p : Bytes) → index p empty_line ≡ none → read_heading (waiting p) ≡ done (known (waiting p))
  unfolding read_heading
  heading-waiting p e = rw (e, read_heading) refl

  heading-reading :
      (b : Bytes) → read_heading (waiting (message title fs b)) ≡ done (known (reading b))
  unfolding read_heading read_status with_content_length
  heading-reading b =
      rw (index-message title fs w.well_formed b, read_heading)
        (rw (header_value-message title fs b w.well_formed (codes "Transfer-Encoding")) (
          rw w.not_chunked (
            rw (w.has_status b) (
              rw w.is_final (
                rw w.has_body (
                  rw (header_value-message title fs b w.well_formed (codes "Content-Length")) (
                    rw (body-message title fs b w.well_formed) rw w.given (
                      rw w.length_is (
                        ap (λ k. done (known (record (reading b) { current = k })))
                          (omega arith))))))))))

  message-more : (b s : Bytes) → message title fs b ++ s ≡ message title fs (b ++ s)
  message-more b s =
      ap (λ u. u ++ s) (message-head title fs w.well_formed b)
      ∙ append_assoc (head title fs w.well_formed) b s
      ∙ sym (message-head title fs w.well_formed (b ++ s))

  round-reading :
      (b s : Bytes)
      → round_within (reading b) s fine
        ≡ done (turn_within (reading (b ++ s)) fine (compare_length (length (b ++ s)) (pos n)))
  unfolding round_within heading_turn judge
  round-reading b s =
      ap₂
        (λ t k. done (
          turn_within
            (record (reading b) {
              text = t;
              received = length (message title fs b) + length s;
              current = k;
            })
            fine (compare_length k (pos n))))
        (message-more b s) (sym (length-append b s))
      ∙ ap
          (λ k. done (
            turn_within (record (reading (b ++ s)) { received = k }) fine
              (compare_length (length (b ++ s)) (pos n))))
          (sym (length-append (message title fs b) s) ∙ ap length (message-more b s))

  turn-below :
      (b : Bytes)
      → length b < n
      → length (message title fs b) < max_response_size
      → turn_within (reading b) fine (compare_length (length b) (pos n)) ≡ going (reading b)
  unfolding turn_within
  turn-below b below small =
      rw (open_below below) (rw (lt→leb max_response_size (length (message title fs b)) small) refl)

  turn-full :
      (b : Bytes)
      → length b ≡ n
      → turn_within (reading b) fine (compare_length (length b) (pos n))
        ≡ ended (reading b) fine false
  unfolding turn_within
  turn-full b full = rw (whole_at full) refl

  round-waiting :
      (p s : Bytes)
      → index (p ++ s) empty_line ≡ none
      → length (p ++ s) < max_response_size
      → round_within (waiting p) s fine ≡ done (going (waiting (p ++ s)))
  unfolding round_within heading_turn judge turn_within
  round-waiting p s e small =
      ap
        (λ k.
          read_heading (record (waiting (p ++ s)) { received = k })
          >>= (λ h. done (heading_turn (record (waiting (p ++ s)) { received = k }) fine h)))
        (sym (length-append p s))
      ∙ rw (heading-waiting (p ++ s) e, ◌>>=◌)
          (rw (lt→leb max_response_size (length (p ++ s)) small) refl)

  round-heading :
      (p s b : Bytes)
      → p ++ s ≡ message title fs b
      → round_within (waiting p) s fine
        ≡ done (turn_within (reading b) fine (compare_length (length b) (pos n)))
  unfolding round_within heading_turn judge
  round-heading p s b e =
      ap
        (λ k.
          read_heading (record (waiting (p ++ s)) { received = k })
          >>= (λ h. done (heading_turn (record (waiting (p ++ s)) { received = k }) fine h)))
        (sym (length-append p s))
      ∙ ap (λ u. read_heading (waiting u) >>= (λ h. done (heading_turn (waiting u) fine h))) e
      ∙ ap (λ o. o >>= (λ h. done (heading_turn (waiting (message title fs b)) fine h)))
          (heading-reading b)

  module _ (size : ℕ) (content : Bytes) (tail : List Answer) (full : length content ≡ n)
      (fits : length (message title fs content) ≤ size)
      (small : length (message title fs content) < max_response_size) where
    -- The whole of the response was read, and no more.
    abbrev Delivers : ℕ → Progress → List Bytes → Type 0
    Delivers fuel p segs =
        receive fuel size p (in_parts segs ++ tail) ≡ done (reading content, fine, false, tail)

    length-known :
        (b : Bytes) (rest : Bytes)
        → b ++ rest ≡ content
        → length (message title fs b) + length rest ≡ length (message title fs content)
    length-known b rest e = omega (
      arith,
      length-append b rest,
      ap length e,
      ap length (message-head title fs w.well_formed b),
      ap length (message-head title fs w.well_formed content),
      length-append (head title fs w.well_formed) b,
      length-append (head title fs w.well_formed) content,
    )

    one_round-part :
        (p : Progress) (s rest b : Bytes) (more : List Answer) (turn : Turn)
        → p.received + length s ≡ length (message title fs b)
        → b ++ rest ≡ content
        → s ≢ []
        → round_within p s fine ≡ done turn
        → one_round size p ((s, fine) ∷ more) ≡ done (turn, more)
    one_round-part p s rest b more turn size_b e ne round =
        one_round-fits size p s more (omega (arith, known, some_bytes s ne)) (omega (arith, known))
        ∙ ap (λ o. o >>= (λ t. done (t, more))) round
      where
        known : length (message title fs b) + length rest ≡ length (message title fs content)
        known = length-known b rest e

    -- A round that shows the headers and a part of the body.
    receive-turn :
        (fuel : ℕ) (p : Progress) (s b : Bytes) (segs : List Bytes)
        → p.received + length s ≡ length (message title fs b)
        → b ++ joined segs ≡ content
        → All (λ t. t ≢ []) segs
        → s ≢ []
        → round_within p s fine
          ≡ done (turn_within (reading b) fine (compare_length (length b) (pos n)))
        → (length b < n → Delivers fuel (reading b) segs)
        → Delivers (suc fuel) p (s ∷ segs)
    receive-turn fuel p s b segs size_b e ne some_more round next = elim (dec_lt (length b) n) [
      | yes below ↦
          receive-going fuel size p (reading b) ((s, fine) ∷ (in_parts segs ++ tail))
            (in_parts segs ++ tail)
            (one_round-part p s (joined segs) b _ _ size_b e some_more (
              round ∙ ap done (turn-below b below (omega (arith, length-known b (joined segs) e)))))
          ∙ next below
      | no above ↦ at_end above
    ]
      where
        at_end : ¬ (length b < n) → Delivers (suc fuel) p (s ∷ segs)
        at_end above =
            let nothing : length (joined segs) ≡ 0 =
              omega (arith, full, length-append b (joined segs), ap length e) in
            let last : segs ≡ [] = none_left segs ne nothing in
            let whole_body : b ≡ content =
              sym (append-nil b) ∙ ap (λ u. b ++ joined u) (sym last) ∙ e in
            receive-ended fuel size p (reading b) fine false ((s, fine) ∷ (in_parts segs ++ tail))
              (in_parts segs ++ tail)
              (one_round-part p s (joined segs) b _ _ size_b e some_more (
                round
                ∙ ap done (
                    turn-full b (omega (arith, full, length-append b (joined segs), ap length e)))))
            ∙ ap₂ (λ u v. done (reading u, fine, false, in_parts v ++ tail)) whole_body last

    receive-reading :
        (fuel : ℕ) (b : Bytes) (segs : List Bytes)
        → b ++ joined segs ≡ content
        → All (λ t. t ≢ []) segs
        → length b < n
        → length segs ≤ fuel
        → Delivers fuel (reading b) segs
    receive-reading fuel b [] e ne below h =
        absurd (omega (arith, full, ap length e, length-append b []))
    receive-reading zero b (s ∷ segs) e ne below h = absurd (omega arith)
    receive-reading (suc fuel) b (s ∷ segs) e ne below h =
        receive-turn fuel (reading b) s (b ++ s) segs
          (sym (length-append (message title fs b) s) ∙ ap length (message-more b s)) shifted ne.1
          ne.0 (round-reading b s)
          (λ more. receive-reading fuel (b ++ s) segs shifted ne.1 more (omega arith))
      where
        shifted : (b ++ s) ++ joined segs ≡ content
        shifted = append_assoc b s (joined segs) ∙ e

    pub receive-waiting :
        (fuel : ℕ) (p : Bytes) (segs : List Bytes)
        → p ++ joined segs ≡ message title fs content
        → All (λ t. t ≢ []) segs
        → length p < length (head title fs w.well_formed)
        → length segs ≤ fuel
        → Delivers fuel (waiting p) segs
    receive-waiting fuel p [] e ne short h = absurd (
        omega (
          arith,
          ap length e,
          length-append p [],
          ap length (message-head title fs w.well_formed content),
          length-append (head title fs w.well_formed) content,
        ))
    receive-waiting zero p (s ∷ segs) e ne short h = absurd (omega arith)
    receive-waiting (suc fuel) p (s ∷ segs) e ne short h =
        elim (dec_lt (length (p ++ s)) (length (head title fs w.well_formed))) [
          | yes still ↦
              receive-going fuel size (waiting p) (waiting (p ++ s))
                ((s, fine) ∷ (in_parts segs ++ tail)) (in_parts segs ++ tail)
                (one_round-fits size (waiting p) s (in_parts segs ++ tail)
                    (omega (arith, part, some_bytes s ne.0)) (omega (arith, part))
                  ∙ ap (λ o. o >>= (λ t. done (t, in_parts segs ++ tail)))
                      (round-waiting p s
                        (index-part title fs w.well_formed (p ++ s) (joined segs) content shifted
                          still)
                        (omega (arith, part, length-append p s))))
              ∙ receive-waiting fuel (p ++ s) segs shifted ne.1 still (omega arith)
          | no shown ↦
              (let (b, same, rest) =
                  part-message title fs w.well_formed (p ++ s) (joined segs) content shifted
                    (omega arith) in
                receive-turn fuel (waiting p) s b segs (sym (length-append p s) ∙ ap length same)
                  rest ne.1 ne.0 (round-heading p s b same)
                  (λ below. receive-reading fuel b segs rest ne.1 below (omega arith)))
        ]
      where
        shifted : (p ++ s) ++ joined segs ≡ message title fs content
        shifted = append_assoc p s (joined segs) ∙ e

        part : length p + length s + length (joined segs) ≡ length (message title fs content)
        part =
            omega
              (arith, ap length shifted, length-append (p ++ s) (joined segs), length-append p s)
