-- ===== src/Tcp/Pool/Conversation.antt =====
-- `MessagePool`: one incoming message from its first packet to its last.
use goreplay.Base.{
  ℕ, ◌+◌, ◌≤◌, ◌<◌, ◌≡◌, refl, sym, ap, ◌∙◌, Bool, true, false, ◌||◌, Bytes, done, ◌>>=◌, Option,
  none, some, List, [], ◌∷◌, ◌++◌, length, length-append, append_assoc, append-nil, arith, ltb,
  le→ltb, lt→leb, if◌then◌else◌,
}
use goreplay.Tcp.Message.{Packet, Message, new_message, add}
use goreplay.Tcp.Message.Laws.{IsWhole, add-IsWhole, payloads}
use goreplay.Tcp.Store.{lookup, delete, store, modify, equal_refl}
use goreplay.Tcp.Pool.{
  waiting, Caller, idle, offering, Pool, Reach, here, next, arrives, handle, find, admit,
  open_message, add_packet, fill, is_last, hint_end, new_pool, added, StartHint, EndHint,
}
use goreplay.Tcp.Pool.Invariant.{opened, opened-IsFit}
use goreplay.Tcp.Pool.Delivery.{offering-delivered}

pub Reach-trans : {p q r : Pool} → Reach p q → Reach q r → Reach p r
Reach-trans a here = a
Reach-trans a (next b s) = next (Reach-trans a b) s

abbrev add_all : Message → List Packet → Message
add_all m [] = m
add_all m (p ∷ ps) = add_all (added m p p) ps

added-IsWhole : (m : Message) (p : Packet) → IsWhole m → IsWhole (added m p p)
added-IsWhole m p w =
    let joined = add-IsWhole m p w in
    record {
      content_joined = joined.content_joined;
      size_counted = joined.size_counted;
      lost_counted = joined.lost_counted;
    }

add_all-IsWhole :
    (m : Message) (ps : List Packet)
    → IsWhole m
    → IsWhole (add_all m ps) × ((add_all m ps).packets ≡ m.packets ++ ps)
unfolding add
add_all-IsWhole m [] w = (w, sym (append-nil m.packets))
add_all-IsWhole m (p ∷ ps) w =
    let (whole, same) = add_all-IsWhole (added m p p) ps (added-IsWhole m p w) in
    (whole, same ∙ append_assoc m.packets (p ∷ []) ps)

-- The packets of a connection in one direction.
pub record IsFrom (src dst : Bytes) (p : Packet) : Type 0 where
  pub from_src : p.src ≡ src
  pub to_dst : p.dst ≡ dst
  pub no_reset : p.rst ≡ false

-- The hint for the end and the flag say whether the message ends with this packet, which it holds.
pub record Ends (end : Option EndHint) (b : Bool) (m : Message) (p : Packet) : Type 0 where
  pub hinted : Bool
  pub asked : hint_end end m ≡ done hinted
  pub decides : (hinted || p.fin) ≡ b

-- Packets of a connection behind a message, with none of which it ends.
abbrev pub GoesOn : Option EndHint → Bytes → Bytes → Message → List Packet → Type 0
GoesOn end src dst m [] = Unit
GoesOn end src dst m (p ∷ ps) =
    IsFrom src dst p × Ends end false (added m p p) p × GoesOn end src dst (added m p p) ps

module _ (max_size message_expire : ℕ) (start : Option StartHint) (end : Option EndHint)
    (src dst : Bytes) where
  -- The pool with one message of the connection.
  abbrev talking : Caller → Message → Pool
  talking caller m = record {
    max_size = max_size;
    message_expire = message_expire;
    start = start;
    end = end;
    pool = (src, 0) ∷ [];
    slots = record { key = src; message = m; phase = waiting } ∷ [];
    caller = caller;
    handled = [];
  }

  found :
      (m : Message) (p : Packet)
      → IsFrom src dst p
      → find (talking idle m).pool p.src p.dst ≡ some 0
  unfolding find lookup
  found m p w = rw w.from_src (rw (equal_refl src, find) refl)

  fill-room :
      (m : Message) (p : Packet)
      → m.size + length p.payload ≤ max_size
      → fill max_size m p ≡ done (added m p p)
  unfolding fill
  fill-room m p h = rw (le→ltb max_size (m.size + length p.payload) h) refl

  is_last-room :
      (caller : Caller) (m m' : Message) (p : Packet) (b : Bool)
      → Ends end b m' p
      → m.size + length p.payload < max_size
      → is_last (talking caller m) m m' p ≡ done b
  unfolding is_last
  is_last-room caller m m' p b w h =
      rw (lt→leb max_size (m.size + length p.payload) h) (rw (w.asked, ◌>>=◌) (ap done w.decides))

  handle-next :
      (m : Message) (p : Packet) (b : Bool)
      → IsFrom src dst p
      → Ends end b (added m p p) p
      → m.size + length p.payload < max_size
      → handle (talking idle m) p ≡ done (talking (if b then offering 0 else idle) (added m p p))
  unfolding handle add_packet modify
  handle-next m p b w ends h = simp (
    w.no_reset,
    found m p w,
    fill-room m p (omega arith),
    is_last-room idle m (added m p p) p b ends h,
  )

  middle-Reach :
      (m : Message) (ps : List Packet)
      → GoesOn end src dst m ps
      → m.size + length (payloads ps) < max_size
      → Reach (talking idle m) (talking idle (add_all m ps))
        × ((add_all m ps).size ≡ m.size + length (payloads ps))
  unfolding add
  middle-Reach m [] w h = (here, omega arith)
  middle-Reach m (p ∷ ps) (wp, on, w) h =
      let both = length-append p.payload (payloads ps) in
      let (r, size) = middle-Reach (added m p p) ps w (omega (arith, both)) in
      (
        Reach-trans (next here (arrives p refl (handle-next m p false wp on (omega (arith, both)))))
            r,
        omega (arith, size, both),
      )

abbrev expire_of : ℕ → ℕ
expire_of t = if ltb 100000000 t then t else 100000000

-- A packet that starts an incoming message, with which this does not end.
pub record IsOpening (start : Option StartHint) (end : Option EndHint) (p : Packet) : Type 0 where
  pub admitted : admit start p ≡ done (some true)
  pub no_reset : p.rst ≡ false
  pub goes_on : Ends end false (added (opened p true) p p) p

module _ (max_size t : ℕ) (start : Option StartHint) (end : Option EndHint) where
  abbrev fresh : Pool
  fresh = record {
    max_size = max_size;
    message_expire = expire_of t;
    start = start;
    end = end;
    pool = [];
    slots = [];
    caller = idle;
    handled = [];
  }

  new_pool-fresh : 0 < max_size → new_pool max_size t start end ≡ fresh
  unfolding new_pool
  new_pool-fresh h = rw (le→ltb max_size 1 (omega arith)) refl

  abbrev begun : Packet → Pool
  begun p = talking max_size (expire_of t) start end p.src p.dst idle (added (opened p true) p p)

  open_message-opening :
      (p : Packet)
      → IsOpening start end p
      → length p.payload < max_size
      → open_message fresh p true ≡ done (begun p)
  unfolding open_message add_packet modify store delete new_message
  open_message-opening p w h =
      let room : (opened p true).size + length p.payload < max_size = omega arith in
      simp (
        fill-room max_size (expire_of t) start end p.src p.dst (opened p true) p (omega arith),
        is_last-room max_size (expire_of t) start end p.src p.dst idle (opened p true)
            (added (opened p true) p p) p false w.goes_on room,
      )

  handle-opening :
      (p : Packet)
      → IsOpening start end p
      → length p.payload < max_size
      → handle (new_pool max_size t start end) p ≡ done (begun p)
  unfolding handle find lookup
  handle-opening p w h =
      ap (λ u. handle u p) (new_pool-fresh (omega arith))
      ∙ simp w.no_reset (rw (w.admitted, ◌>>=◌) (open_message-opening p w h))

length-payloads :
    (ps : List Packet) (last : Packet)
    → length (payloads (ps ++ (last ∷ []))) ≡ length (payloads ps) + length last.payload
length-payloads [] last = omega (arith, length-append last.payload [])
length-payloads (p ∷ ps) last = omega (
  arith,
  length-payloads ps last,
  length-append p.payload (payloads (ps ++ (last ∷ []))),
  length-append p.payload (payloads ps),
)

-- A connection that opens with a packet that starts an incoming message (by the hint, or by SYN
-- without ACK where there is none), sends packets in one direction and ends with one that the hint for
-- the end or the flag FIN takes for the last, of a size below the maximum, can run to the end with no
-- timeout: the handler is given one message, which holds these packets and the payloads of all of them
-- in order, and the pool is empty of its key.
pub conversation :
    (max_size t : ℕ) (start : Option StartHint) (end : Option EndHint) (first last : Packet)
    (ps : List Packet)
    → IsOpening start end first
    → GoesOn end first.src first.dst (added (opened first true) first first) ps
    → IsFrom first.src first.dst last
    → Ends end true (added (add_all (opened first true) (first ∷ ps)) last last) last
    → length (payloads (first ∷ (ps ++ (last ∷ [])))) < max_size
    → (q : Pool) × (m : Message) × Reach (new_pool max_size t start end) q
      × (q.caller ≡ idle)
      × (q.handled ≡ m ∷ [])
      × (lookup q.pool first.src ≡ none)
      × (m.packets ≡ first ∷ (ps ++ (last ∷ [])))
      × (m.content ≡ payloads (first ∷ (ps ++ (last ∷ []))))
unfolding add new_message new_pool
conversation max_size t start end first last ps opens middle from ends fits =
    let opened_fits = (opened-IsFit max_size first true).whole in
    let all = length-append first.payload (payloads (ps ++ (last ∷ []))) in
    let behind = length-payloads ps last in
    let m₁ : Message = added (opened first true) first first in
    let e₁ = handle-opening max_size t start end first opens (omega (arith, all)) in
    let (r, size) =
      middle-Reach max_size (expire_of t) start end first.src first.dst m₁ ps middle
        (omega (arith, all, behind)) in
    let m₂ : Message = add_all m₁ ps in
    let e₃ =
      handle-next max_size (expire_of t) start end first.src first.dst m₂ last true from ends
        (omega (arith, all, behind, size)) in
    let m₃ : Message = added m₂ last last in
    let (q, delivered, free, handled, gone) =
      offering-delivered
        (talking max_size (expire_of t) start end first.src first.dst (offering 0) m₃) 0
        (record { key = first.src; message = m₃; phase = waiting }) refl refl refl in
    let (whole, packets) =
      add_all-IsWhole m₁ ps (added-IsWhole (opened first true) first opened_fits) in
    let whole₃ : IsWhole m₃ = added-IsWhole m₂ last whole in
    let packets₃ : m₃.packets ≡ first ∷ (ps ++ (last ∷ [])) = ap (λ u. u ++ (last ∷ [])) packets in
    (
      q,
      m₃,
      Reach-trans (next (Reach-trans (next here (arrives first refl e₁)) r) (arrives last refl e₃))
          delivered,
      free,
      handled,
      gone,
      packets₃,
      whole₃.content_joined ∙ ap payloads packets₃,
    )
