-- ===== src/Tcp/Message/Laws.antt =====
-- What a message holds is what its packets carry.
use goreplay.Base.{
  ℕ, ◌+◌, ◌≡◌, true, false, refl, sym, ap, ap₂, ◌∙◌, Bytes, List, [], ◌∷◌, ◌++◌, length,
  length-append, append_assoc, append-nil, arith,
}
use goreplay.Tcp.Message.{Packet, Message, add, new_message, uuid}

abbrev pub payloads : List Packet → Bytes
payloads [] = []
payloads (p ∷ ps) = p.payload ++ payloads ps

pub payloads-append : (ps qs : List Packet) → payloads (ps ++ qs) ≡ payloads ps ++ payloads qs
payloads-append [] qs = refl
payloads-append (p ∷ ps) qs =
    ap (◌++◌ p.payload) (payloads-append ps qs) ∙ sym (append_assoc p.payload _ _)

abbrev pub losses : List Packet → ℕ
losses [] = 0
losses (p ∷ ps) = p.lost + losses ps

losses-append : (ps qs : List Packet) → losses (ps ++ qs) ≡ losses ps + losses qs
losses-append [] qs = omega arith
losses-append (p ∷ ps) qs = omega (arith, losses-append ps qs)

-- A message that stands for its packets: their payloads one behind the other, with the size and the
-- loss that belong to them.
pub record IsWhole (m : Message) : Type 0 where
  pub content_joined : m.content ≡ payloads m.packets
  pub size_counted : m.size ≡ length m.content
  pub lost_counted : m.lost_data ≡ losses m.packets

pub new_message-IsWhole : (src dst : Bytes) (version : ℕ) → IsWhole (new_message src dst version)
unfolding new_message
new_message-IsWhole src dst version = record {
  content_joined = refl;
  size_counted = refl;
  lost_counted = refl;
}

pub add-IsWhole : (m : Message) (p : Packet) → IsWhole m → IsWhole (add m p)
unfolding add
add-IsWhole m p w = record {
  content_joined =
      ap (λ d. d ++ p.payload) w.content_joined
      ∙ ap (λ d. payloads m.packets ++ d) (sym (append-nil p.payload))
      ∙ sym (payloads-append m.packets (p ∷ []));
  size_counted = omega (arith, w.size_counted, length-append m.content p.payload);
  lost_counted = omega (arith, w.lost_counted, losses-append m.packets (p ∷ []));
}

-- A request and its response have the same identifier, which is a digest of the client's address in
-- front of the server's: it does not depend on the direction.
pub uuid-direction :
    (digest : Bytes → Bytes) (request response : Message)
    → request.is_incoming ≡ true
    → response.is_incoming ≡ false
    → request.src_addr ≡ response.dst_addr
    → request.dst_addr ≡ response.src_addr
    → (uuid digest request ≡ uuid digest response)
      × (uuid digest request ≡ digest (request.src_addr ++ request.dst_addr))
unfolding uuid
uuid-direction digest request response inward outward client server =
    let asked : uuid digest request ≡ digest (request.src_addr ++ request.dst_addr) = simp inward in
    let answered : uuid digest response ≡ digest (response.dst_addr ++ response.src_addr) =
      simp outward in
    (asked ∙ ap₂ (λ a b. digest (a ++ b)) client server ∙ sym answered, asked)
