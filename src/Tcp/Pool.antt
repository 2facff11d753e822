-- ===== src/Tcp/Pool.antt =====
-- tcp/tcp_message.go: `MessagePool`, with the goroutine that calls `Handler` and one goroutine
-- `dispatch` for each message. `pool.Lock` is held from the start of `Handler` to its end, and in
-- `dispatch` behind its timer. `m.done` has no buffer: a send and a receive happen together, in one
-- step of both goroutines, and a goroutine that finds no partner waits.
pub mod Invariant
pub mod Safety
pub mod Blocked
pub mod Delivery
pub mod Conversation
use goreplay.Base.{
  ℕ, ◌+◌, ◌-◌, ◌<◌, ◌≡◌, Bool, true, false, not, ◌&&◌, ◌||◌, Bytes, Outcome, done, panic, ◌>>=◌,
  Option, none, some, List, [], ◌∷◌, ◌++◌, length, get_elem?, slice_to, ltb, leb, if◌then◌else◌,
}
use goreplay.Tcp.Message.{Packet, Message, new_message, add}
use goreplay.Tcp.Store.{Map, lookup, delete, store, modify}

-- `dispatch`: in its `select`; behind the timer, in front of `pool.Lock`; behind the receive; in
-- front of the send of its deferred function; returned.
pub data Phase : Type 0 where
  waiting expired received replying ended : Phase

-- The goroutine of `Handler`: outside of it; at the send and at the receive at the end of
-- `addPacket`; at the first and at the second receive for a packet with RST.
pub data Caller : Type 0 where
  idle : Caller
  offering taking : ℕ → Caller
  resetting : ℕ → Packet → Caller
  resetting_peer : ℕ → Caller

-- A message in the heap, with its goroutine and the key that this has.
pub record Slot : Type 0 where
  pub key : Bytes
  pub message : Message
  pub phase : Phase

-- The hints; one that panics or does not return makes `Handler` do the same.
abbrev pub StartHint : Type 0
StartHint = Packet → Outcome (Bool × Bool)

abbrev pub EndHint : Type 0
EndHint = Message → Outcome Bool

-- `handled` lists the calls of `pool.handler`.
pub record Pool : Type 0 where
  pub max_size : ℕ
  pub message_expire : ℕ
  pub start : Option StartHint
  pub end : Option EndHint
  pub pool : Map
  pub slots : List Slot
  pub caller : Caller
  pub handled : List Message

-- `NewMessagePool` and the hints; a time is in nanoseconds, and a negative size or time is 0 here.
unfoldable pub new_pool : ℕ → ℕ → Option StartHint → Option EndHint → Pool
new_pool max_size message_expire start end = record {
  max_size = if ltb max_size 1 then 5242880 else max_size;
  message_expire = if ltb 100000000 message_expire then message_expire else 100000000;
  start = start;
  end = end;
  pool = [];
  slots = [];
  caller = idle;
  handled = [];
}

abbrev pub with_message : (Message → Message) → Slot → Slot
with_message f s = record s { message = f s.message }

abbrev pub with_phase : Phase → Slot → Slot
with_phase p s = record s { phase = p }

unfoldable pub hint_end : Option EndHint → Message → Outcome Bool
hint_end none m = done false
hint_end (some f) m = f m

-- The message with a packet, which came as `p`.
abbrev pub added : Message → Packet → Packet → Message
added m p kept = record (add m kept) { arrived = m.arrived ++ (p ∷ []) }

-- `addPacket` up to its `switch`: the message with the packet, cut to the room that is left.
unfoldable pub fill : ℕ → Message → Packet → Outcome Message
fill max_size m p =
    if ltb max_size (m.size + length p.payload)
    then (if ltb max_size m.size then panic else (do
      payload ← slice_to p.payload (max_size - m.size)
      done (added (record m { truncated = true }) p (record p { payload = payload }))))
    else done (added m p p)

-- Its `switch`: whether the message ends with this packet.
unfoldable pub is_last : Pool → Message → Message → Packet → Outcome Bool
is_last pool before after p =
    if leb pool.max_size (before.size + length p.payload)
    then done true
    else (do hinted ← hint_end pool.end after; done (hinted || p.fin))

unfoldable pub add_packet : Pool → ℕ → Packet → Outcome Pool
add_packet pool id p = elim (get_elem? pool.slots id) [
  | none ↦ panic
  | some s ↦ do
    m ← fill pool.max_size s.message p
    last ← is_last pool s.message m p
    done (record pool {
      slots = modify id (with_message (λ old. m)) pool.slots;
      caller = if last then offering id else idle;
    })
]

abbrev pub src_dst : Bytes → Bytes → Bytes
src_dst src dst = src ++ (b'=' ∷ dst)

-- The message of a source and a destination: `pool.pool[src]`, or else `pool.pool[src+"="+dst]`.
unfoldable pub find : Map → Bytes → Bytes → Option ℕ
find m src dst = elim (lookup m src) [ some id ↦ some id | none ↦ lookup m (src_dst src dst) ]

-- A packet with RST, behind the message of its own direction.
unfoldable pub reset_peer : Pool → Packet → Pool
reset_peer pool p = elim (find pool.pool p.dst p.src) [
  | none ↦ record pool { caller = idle }
  | some id ↦ record pool { caller = resetting_peer id }
]

-- Whether a packet of no message starts one, and whether that is incoming.
unfoldable pub admit : Option StartHint → Packet → Outcome (Option Bool)
admit none p = done (if p.syn then some (not p.ack) else none)
admit (some f) p = do r ← f p; done (if r.0 || r.1 then some r.0 else none)

abbrev pub key_of : Packet → Bool → Bytes
key_of p true = p.src
key_of p false = src_dst p.src p.dst

-- The end of `Handler`: a new message, its goroutine and its first packet.
unfoldable pub open_message : Pool → Packet → Bool → Outcome Pool
open_message pool p incoming =
    let fresh = new_message p.src p.dst p.version in
    let m : Message = record fresh { is_incoming = incoming; start_time = p.timestamp } in
    let key = key_of p incoming in
    add_packet
      (record pool {
        pool = store pool.pool key (length pool.slots);
        slots = pool.slots ++ (record { key = key; message = m; phase = waiting } ∷ []);
      })
      (length pool.slots) p

-- `Handler` behind `ParsePacket`, up to its return or the first operation on a channel.
unfoldable pub handle : Pool → Packet → Outcome Pool
handle pool p =
    if p.rst
    then done (elim (find pool.pool p.src p.dst) [
      | some id ↦ record pool { caller = resetting id p }
      | none ↦ reset_peer pool p
    ])
    else elim (find pool.pool p.src p.dst) [
      | some id ↦ add_packet pool id p
      | none ↦ do
        admitted ← admit pool.start p
        elim admitted [ none ↦ done pool | some incoming ↦ open_message pool p incoming ]
    ]

abbrev pub set_phase : Pool → ℕ → Phase → Pool
set_phase pool id phase = record pool { slots = modify id (with_phase phase) pool.slots }

-- `delete(pool.pool, key)` and `pool.handler(m)`.
abbrev pub hand_over : Pool → Slot → Message → Pool
hand_over pool s m = record pool {
  pool = delete pool.pool s.key;
  handled = pool.handled ++ (m ∷ []);
}

unfoldable pub deliver : Pool → ℕ → Slot → Pool
deliver pool id s = hand_over (set_phase pool id replying) s s.message

-- `dispatch` behind its timer, with the lock.
unfoldable pub time_out : Pool → ℕ → Slot → Pool
time_out pool id s =
    let late : Message = record (s.message) { timed_out = true } in
    let marked = record pool { slots = modify id (with_message (λ m. late)) pool.slots } in
    hand_over (set_phase marked id ended) s late

-- One step of the pool and its goroutines.
pub data Step (p q : Pool) : Type 0 where
  arrives : (packet : Packet) → p.caller ≡ idle → handle p packet ≡ done q → Step p q
  fires :
      (id : ℕ) (s : Slot)
      → get_elem? p.slots id ≡ some s
      → s.phase ≡ waiting
      → q ≡ set_phase p id expired
      → Step p q
  meets :
      (id : ℕ) (s : Slot)
      → get_elem? p.slots id ≡ some s
      → s.phase ≡ waiting
      → p.caller ≡ offering id
      → q ≡ record (set_phase p id received) { caller = taking id }
      → Step p q
  delivers :
      (id : ℕ) (s : Slot)
      → get_elem? p.slots id ≡ some s
      → s.phase ≡ received
      → q ≡ deliver p id s
      → Step p q
  replies :
      (id : ℕ) (s : Slot)
      → get_elem? p.slots id ≡ some s
      → s.phase ≡ replying
      → p.caller ≡ taking id
      → q ≡ record (set_phase p id ended) { caller = idle }
      → Step p q
  replies_reset :
      (id : ℕ) (s : Slot) (packet : Packet)
      → get_elem? p.slots id ≡ some s
      → s.phase ≡ replying
      → p.caller ≡ resetting id packet
      → q ≡ reset_peer (set_phase p id ended) packet
      → Step p q
  replies_peer :
      (id : ℕ) (s : Slot)
      → get_elem? p.slots id ≡ some s
      → s.phase ≡ replying
      → p.caller ≡ resetting_peer id
      → q ≡ record (set_phase p id ended) { caller = idle }
      → Step p q
  times_out :
      (id : ℕ) (s : Slot)
      → get_elem? p.slots id ≡ some s
      → s.phase ≡ expired
      → p.caller ≡ idle
      → q ≡ time_out p id s
      → Step p q

pub data Reach (p : Pool) : Pool → Type 0 where
  here : Reach p p
  next : {q r : Pool} → Reach p q → Step q r → Reach p r
