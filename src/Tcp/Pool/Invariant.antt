-- ===== src/Tcp/Pool/Invariant.antt =====
-- `MessagePool`: what every reachable state of the pool satisfies.
use mathlib.Core.Option.{some-injective}
use goreplay.Base.{
  done-injective, bind-done, take-onto, take-all, take-nil, Option, ◌||◌, leb, ap, ap₂, append-nil,
  ℕ, zero, suc, ◌+◌, ◌-◌, ◌≤◌, ◌<◌, ◌≡◌, ◌≢◌, ◌⊎◌, inl, inr, refl, sym, ◌∙◌, subst, Bool, true,
  false, Bytes, done, ◌>>=◌, some, List, [], ◌∷◌, ◌++◌, All, length, length-append, length-take,
  get_elem?, take, lt→ltb, le→ltb, le→leb, if◌then◌else◌, arith, dec_lt, Bool-cases, equal,
}
use goreplay.Tcp.Message.{Packet, Message, new_message, add}
use goreplay.Tcp.Message.Laws.{IsWhole, add-IsWhole, payloads, payloads-append}
use goreplay.Tcp.Store.{
  lookup, store, modify, length-modify, get_elem?-modify, get_elem?-snoc, lookup-delete-some,
}
use goreplay.Tcp.Pool.{
  Phase, waiting, received, replying, Caller, idle, offering, taking, Slot, Pool, EndHint, added,
  hint_end, fill, is_last, add_packet, open_message, with_message, key_of,
}

-- Packets without their payloads.
abbrev pub headers : List Packet → List Packet
headers [] = []
headers (p ∷ ps) = record p { payload = [] } ∷ headers ps

headers-snoc :
    (ps : List Packet) (p : Packet) → headers (ps ++ (p ∷ [])) ≡ headers ps ++ headers (p ∷ [])
headers-snoc [] p = refl
headers-snoc (q ∷ ps) p = ap (λ rest. record q { payload = [] } ∷ rest) (headers-snoc ps p)

-- A message of its packets that keeps to the maximum size: the packets are those that came, in the
-- order in which they came, and the content is what they brought, cut at the maximum size.
pub record IsFit (max_size : ℕ) (m : Message) : Type 0 where
  pub whole : IsWhole m
  pub fits : m.size ≤ max_size
  pub kept : headers m.packets ≡ headers m.arrived
  pub in_order : m.content ≡ take max_size (payloads m.arrived)

-- Between the receive and the reply of `dispatch`.
abbrev pub serving : Phase → Bool
serving received = true
serving replying = true
serving _ = false

abbrev pub IsSlot : ℕ → Caller → ℕ → Slot → Type 0
IsSlot max_size caller id s =
    IsFit max_size s.message × ((serving s.phase ≡ false) ⊎ (caller ≡ taking id))

pub record IsSafe (p : Pool) : Type 0 where
  pub slots_fit :
      (id : ℕ) (s : Slot) → get_elem? p.slots id ≡ some s → IsSlot p.max_size p.caller id s
  pub entries : (k : Bytes) (id : ℕ) → lookup p.pool k ≡ some id → id < length p.slots
  pub handled_fit : All (IsFit p.max_size) p.handled

-- A pool none of whose goroutines holds the caller.
pub record IsQuiet (p : Pool) : Type 0 where
  pub slots_fit :
      (id : ℕ) (s : Slot)
      → get_elem? p.slots id ≡ some s
      → IsFit p.max_size s.message × (serving s.phase ≡ false)
  pub entries : (k : Bytes) (id : ℕ) → lookup p.pool k ≡ some id → id < length p.slots
  pub handled_fit : All (IsFit p.max_size) p.handled

pub quiet-IsSafe : (p : Pool) (c : Caller) → IsQuiet p → IsSafe (record p { caller = c })
quiet-IsSafe p c w = record {
  slots_fit = λ id s e. ((w.slots_fit id s e).0, inl (w.slots_fit id s e).1);
  entries = w.entries;
  handled_fit = w.handled_fit;
}

pub idle-IsQuiet : (p : Pool) → p.caller ≡ idle → IsSafe p → IsQuiet p
idle-IsQuiet p free w = record {
  slots_fit = λ id s e. (
    (w.slots_fit id s e).0,
    elim (w.slots_fit id s e).1 [
      | inl h ↦ h
      | inr h ↦ (let no : idle ≡ taking id = sym free ∙ h in cc)
    ],
  );
  entries = w.entries;
  handled_fit = w.handled_fit;
}

-- A predicate on every cell, behind a change of one.
pub modify_all :
    (P Q : ℕ → Slot → Type 0) (id : ℕ) (f : Slot → Slot) (xs : List Slot)
    → ((j : ℕ) (s : Slot) → get_elem? xs j ≡ some s → P j s)
    → ((j : ℕ) (s : Slot) → id ≢ j → P j s → Q j s)
    → ((s : Slot) → get_elem? xs id ≡ some s → P id s → Q id (f s))
    → (j : ℕ) (s : Slot) → get_elem? (modify id f xs) j ≡ some s
    → Q j s
modify_all P Q id f xs all others own j s e = elim (get_elem?-modify id f xs j s e) [
  | inl (x, same, found, is) ↦
      subst (λ i. Q i s) same
        (subst (Q id) (sym is) (
          own x (subst (λ i. get_elem? xs i ≡ some x) (sym same) found)
            (subst (λ i. P i x) (sym same) (all j x found))))
  | inr (other, found) ↦ others j s other (all j s found)
]

get_elem?-below : (xs : List Slot) (i : ℕ) → i < length xs → (s : Slot) × (get_elem? xs i ≡ some s)
get_elem?-below [] i h = absurd (omega arith)
get_elem?-below (x ∷ xs) zero h = (x, refl)
get_elem?-below (x ∷ xs) (suc i) h = get_elem?-below xs i (omega arith)

-- A message with the part of a packet's payload that has room in it.
added-IsFit :
    (max_size : ℕ) (m : Message) (p : Packet) (cut : Bytes)
    → IsFit max_size m
    → cut ≡ take (max_size - m.size) p.payload
    → IsFit max_size (added m p (record p { payload = cut }))
unfolding add
added-IsFit max_size m p cut w is = record {
  whole =
      (let joined = add-IsWhole m (record p { payload = cut }) w.whole in
        record {
          content_joined = joined.content_joined;
          size_counted = joined.size_counted;
          lost_counted = joined.lost_counted;
        });
  fits = omega (arith, w.fits, length-take (max_size - m.size) p.payload, ap length is);
  kept =
      headers-snoc m.packets (record p { payload = cut })
      ∙ ap (λ ps. ps ++ headers (p ∷ [])) w.kept
      ∙ sym (headers-snoc m.arrived p);
  in_order =
      ap₂ ◌++◌ w.in_order
        (is ∙ ap (λ n. take (max_size - n) p.payload) (w.whole.size_counted ∙ ap length w.in_order))
      ∙ take-onto max_size (payloads m.arrived) p.payload
      ∙ ap (λ d. take max_size (payloads m.arrived ++ d)) (sym (append-nil p.payload))
      ∙ sym (ap (take max_size) (payloads-append m.arrived (p ∷ [])));
}

-- A message with a packet is fit again, and the cut of the payload is in range.
fill-IsFit :
    (max_size : ℕ) (m : Message) (p : Packet)
    → IsFit max_size m
    → (m' : Message) × (fill max_size m p ≡ done m') × IsFit max_size m'
unfolding fill
fill-IsFit max_size m p w = elim (dec_lt max_size (m.size + length p.payload)) [
  | yes over ↦ (
    added (record m { truncated = true }) p (record p { payload = cut }),
    rw (lt→ltb max_size (m.size + length p.payload) over) (
        rw (le→ltb max_size m.size w.fits)
          (rw (le→leb (max_size - m.size) (length p.payload) (omega (arith, w.fits))) refl)),
    added-IsFit max_size (record m { truncated = true }) p cut
        (record {
          whole = record {
            content_joined = w.whole.content_joined;
            size_counted = w.whole.size_counted;
            lost_counted = w.whole.lost_counted;
          };
          fits = w.fits;
          kept = w.kept;
          in_order = w.in_order;
        })
        refl,
  )
  | no room ↦ (
    added m p p,
    rw (le→ltb max_size (m.size + length p.payload) (omega arith)) refl,
    added-IsFit max_size m p p.payload w
        (sym (take-all (max_size - m.size) p.payload (omega (arith, room)))),
  )
]
  where
    cut : Bytes
    cut = take (max_size - m.size) p.payload

-- The hint of a pool returns on every message.
abbrev pub EndReturns : Option EndHint → Type 0
EndReturns end = (m : Message) → (b : Bool) × (hint_end end m ≡ done b)

is_last-done :
    (p : Pool) (before after : Message) (packet : Packet)
    → EndReturns p.end
    → (last : Bool) × (is_last p before after packet ≡ done last)
unfolding is_last
is_last-done p before after packet hint =
    let (b, hinted) = hint after in
    elim (Bool-cases (leb p.max_size (before.size + length packet.payload))) [
      | inl full ↦ (true, rw (full, is_last) refl)
      | inr room ↦ (b || packet.fin, rw (room, is_last) (rw (hinted, ◌>>=◌) refl))
    ]

-- A packet that has been added to a message of a quiet pool leaves a safe pool.
with_packet-IsSafe :
    (p : Pool) (id : ℕ) (m : Message) (c : Caller)
    → IsQuiet p
    → IsFit p.max_size m
    → IsSafe (record p { slots = modify id (with_message (λ old. m)) p.slots; caller = c })
with_packet-IsSafe p id m c w fits =
    quiet-IsSafe (record p { slots = modify id (with_message (λ old. m)) p.slots }) c
      (record {
        slots_fit =
            modify_all (λ j x. IsFit p.max_size x.message × (serving x.phase ≡ false))
              (λ j x. IsFit p.max_size x.message × (serving x.phase ≡ false)) id
              (with_message (λ old. m)) p.slots w.slots_fit (λ j x other h. h)
              (λ x e h. (fits, h.1));
        entries = λ k i e.
            omega (arith, w.entries k i e, length-modify id (with_message (λ old. m)) p.slots);
        handled_fit = w.handled_fit;
      })

-- Adding a packet to a message of a quiet pool does what its hint does: it succeeds when this
-- returns.
pub add_packet-run :
    (p : Pool) (id : ℕ) (packet : Packet)
    → IsQuiet p
    → id < length p.slots
    → (before after : Message) × (c : Bool → Caller) × (add_packet p id packet ≡ (do
      last ← is_last p before after packet
      done (record p { slots = modify id (with_message (λ old. after)) p.slots; caller = c last })))
      × IsFit p.max_size after
unfolding add_packet
add_packet-run p id packet w below =
    let (s, found) = get_elem?-below p.slots id below in
    let (m, filled, fits) = fill-IsFit p.max_size s.message packet (w.slots_fit id s found).0 in
    (
      s.message,
      m,
      (λ last. if last then offering id else idle),
      rw (found, add_packet) (rw (filled, ◌>>=◌) refl),
      fits,
    )

pub add_packet-IsSafe :
    (p : Pool) (id : ℕ) (packet : Packet)
    → IsQuiet p
    → id < length p.slots
    → EndReturns p.end
    → (q : Pool) × (add_packet p id packet ≡ done q) × IsSafe q
add_packet-IsSafe p id packet w below hint =
    let (before, after, c, run, fits) = add_packet-run p id packet w below in
    let (last, decided) = is_last-done p before after packet hint in
    (
      record p { slots = modify id (with_message (λ old. after)) p.slots; caller = c last },
      run ∙ (rw (decided, ◌>>=◌) refl),
      with_packet-IsSafe p id after (c last) w fits,
    )

-- A result of it is safe, whatever the hints are.
pub add_packet-result :
    (p q : Pool) (id : ℕ) (packet : Packet)
    → IsQuiet p
    → id < length p.slots
    → add_packet p id packet ≡ done q
    → IsSafe q
add_packet-result p q id packet w below e =
    let (before, after, c, run, fits) = add_packet-run p id packet w below in
    let (last, decided, is) = bind-done (is_last p before after packet) _ q (sym run ∙ e) in
    subst IsSafe (done-injective _ q is) (with_packet-IsSafe p id after (c last) w fits)

abbrev pub opened : Packet → Bool → Message
opened packet incoming =
    let fresh = new_message packet.src packet.dst packet.version in
    record fresh { is_incoming = incoming; start_time = packet.timestamp }

pub opened-IsFit :
    (max_size : ℕ) (packet : Packet) (incoming : Bool) → IsFit max_size (opened packet incoming)
unfolding new_message
opened-IsFit max_size packet incoming = record {
  whole = record { content_joined = refl; size_counted = refl; lost_counted = refl };
  fits = omega arith;
  kept = refl;
  in_order = sym (take-nil max_size);
}

lookup-store :
    (p : Pool) (k : Bytes) (n : ℕ)
    → ((k' : Bytes) (id : ℕ) → lookup p.pool k' ≡ some id → id < n)
    → (k' : Bytes) (id : ℕ) → lookup (store p.pool k n) k' ≡ some id
    → id < n + 1
unfolding lookup store
lookup-store p k n old k' id e = elim (Bool-cases (equal k k')) [
  | inl h ↦ omega (arith, some-injective n id (rw h at e))
  | inr h ↦ omega (arith, old k' id (lookup-delete-some p.pool k k' id (rw h at e)))
]

-- A pool with a new message, in front of its first packet.
abbrev opened_pool : Pool → Packet → Bool → Pool
opened_pool p packet incoming = record p {
  pool = store p.pool (key_of packet incoming) (length p.slots);
  slots =
      p.slots
      ++ (record { key = key_of packet incoming; message = opened packet incoming; phase = waiting }
          ∷ []);
}

opened_pool-IsQuiet :
    (p : Pool) (packet : Packet) (incoming : Bool)
    → IsQuiet p
    → IsQuiet (opened_pool p packet incoming)
      × (length p.slots < length (opened_pool p packet incoming).slots)
opened_pool-IsQuiet p packet incoming w = (
  record {
    slots_fit = λ id s e. elim (get_elem?-snoc p.slots slot id s e) [
      | inl (last, is) ↦
          subst (λ x. IsFit p.max_size x.message × (serving x.phase ≡ false)) (sym is)
            (opened-IsFit p.max_size packet incoming, refl)
      | inr found ↦ w.slots_fit id s found
    ];
    entries = λ k id e. omega (
      arith,
      lookup-store p (key_of packet incoming) (length p.slots) w.entries k id e,
      length-append p.slots (slot ∷ []),
    );
    handled_fit = w.handled_fit;
  },
  omega (arith, length-append p.slots (slot ∷ [])),
)
  where
    slot : Slot
    slot = record {
      key = key_of packet incoming;
      message = opened packet incoming;
      phase = waiting;
    }

pub open_message-IsSafe :
    (p : Pool) (packet : Packet) (incoming : Bool)
    → IsQuiet p
    → EndReturns p.end
    → (q : Pool) × (open_message p packet incoming ≡ done q) × IsSafe q
unfolding open_message
open_message-IsSafe p packet incoming w hint =
    let (quiet, below) = opened_pool-IsQuiet p packet incoming w in
    add_packet-IsSafe (opened_pool p packet incoming) (length p.slots) packet quiet below hint

pub open_message-result :
    (p q : Pool) (packet : Packet) (incoming : Bool)
    → IsQuiet p
    → open_message p packet incoming ≡ done q
    → IsSafe q
unfolding open_message
open_message-result p q packet incoming w e =
    let (quiet, below) = opened_pool-IsQuiet p packet incoming w in
    add_packet-result (opened_pool p packet incoming) q (length p.slots) packet quiet below e
