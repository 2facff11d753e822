-- ===== src/RawInput/Reads.antt =====
-- The record that a request becomes.
use goreplay.Base.{
  ℕ, ◌+◌, ◌-◌, ◌≤◌, ◌<◌, ◌≡◌, refl, ap, ap₂, ◌∙◌, zero, suc, Bool, true, not, ◌&&◌, Bytes, Outcome,
  done, ◌>>=◌, List, [], ◌∷◌, ◌++◌, length, take, lt→ltb, arith, if◌then◌else◌,
}
use goreplay.Text.Ints.{pos, sub_ℕ}
use goreplay.Text.Decimal.{format_int}
use goreplay.Modifier.{is_nil}
use goreplay.Proto.Headers.{set_header}
use goreplay.Proto.Headers.Fields.{Field, message, set_field}
use goreplay.Proto.Headers.Refine.{IsMessage}
use goreplay.Proto.Headers.Edits.{set_header-message}
use goreplay.Tcp.Message.{Message, uuid}
use goreplay.Protocol.{
  payload_header, payload_meta, payload_body, request_payload, response_payload,
}
use goreplay.Protocol.Records.{IsWord, meta-header}
use goreplay.RawInput.{with_real_ip, header_of, copied, read_raw}

take-whole {ℓ} : {A : Type ℓ} (n : ℕ) (xs : List A) → length xs ≤ n → take n xs ≡ xs
take-whole zero [] h = refl
take-whole zero (x ∷ xs) h = absurd (omega arith)
take-whole (suc n) [] h = refl
take-whole (suc n) (x ∷ xs) h = ap (◌∷◌ x) (take-whole n xs (omega arith))

copied-room :
    (n : ℕ) (head payload : Bytes)
    → length head < n
    → length head + length payload ≤ n
    → copied n head payload ≡ head ++ payload
unfolding copied
copied-room n head payload room h = rw (lt→ltb (length head) n room) (
    ap₂ (λ a b. a ++ b) (take-whole n head (omega arith))
      (take-whole (n - length head) payload (omega arith)))

-- A request in the pool whose bytes are a well-formed payload becomes a record with its type, its
-- identifier (a word) and its times, and that payload with the text of its source, which is address
-- and port, in the header that the options name, if there is room for the record in the buffer and a
-- byte is left.
pub read_raw-message :
    (digest : Bytes → Bytes) (c : ℕ) (real_ip : Bytes) (capacity : ℕ) (m : Message) (title : Bytes)
    (fs : List Field) (body : Bytes)
    → m.is_incoming ≡ true
    → m.content ≡ message title fs body
    → IsMessage title fs
    → IsWord (uuid digest m)
    → length (header_of digest m)
        + length (message title (set_field (c ∷ real_ip) m.src_addr fs) body)
      < capacity
    → (text : Bytes) × (read_raw digest (c ∷ real_ip) capacity m ≡ done text)
      × (payload_meta text
          ≡ (request_payload ∷ [])
            ∷ uuid digest m
            ∷ format_int (pos m.start_time)
            ∷ format_int (sub_ℕ m.end_time m.start_time)
            ∷ [])
      × (payload_body text ≡ message title (set_field (c ∷ real_ip) m.src_addr fs) body)
unfolding read_raw with_real_ip
read_raw-message digest c real_ip capacity m title fs body incoming is w word room =
    let payload : Bytes = message title (set_field (c ∷ real_ip) m.src_addr fs) body in
    let set : with_real_ip (c ∷ real_ip) m ≡ done payload =
      ap₂ (real_ip_of (c ∷ real_ip) m.src_addr) incoming is
      ∙ set_header-message title fs body w (c ∷ real_ip) m.src_addr in
    let whole : copied capacity (header_of digest m) payload ≡ header_of digest m ++ payload =
      copied-room capacity (header_of digest m) payload (omega arith) (omega arith) in
    let shape : header_of digest m
        ≡ payload_header request_payload (uuid digest m) (pos m.start_time)
            (sub_ℕ m.end_time m.start_time) =
      unfold header_of in
      ap
        (λ b.
          payload_header (if b then request_payload else response_payload) (uuid digest m)
            (pos m.start_time) (sub_ℕ m.end_time m.start_time))
        incoming in
    let read =
      meta-header request_payload (uuid digest m) (pos m.start_time) (sub_ℕ m.end_time m.start_time)
        payload ((λ e. omega arith), (λ e. omega arith)) word in
    (
      header_of digest m ++ payload,
      ap (λ o. o >>= (λ p. done (copied capacity (header_of digest m) p))) set ∙ ap done whole,
      ap (λ u. payload_meta (u ++ payload)) shape ∙ read.0,
      ap (λ u. payload_body (u ++ payload)) shape ∙ read.1,
    )
  where
    real_ip_of : Bytes → Bytes → Bool → Bytes → Outcome Bytes
    real_ip_of name addr incoming content =
        if incoming && not (is_nil name) then set_header content name addr else done content
