-- ===== src/Tcp/Examples.antt =====
-- Runs of the message pool, and its theorems at concrete packets.
use goreplay.Base.{
  ◌-◌, ◌≡◌, refl, Bool, true, false, Bytes, Outcome, panic, length, take, ltb, leb, some,
  if◌then◌else◌, codes, done, none, List, [], ◌∷◌, equal, arith,
}
use goreplay.Tcp.Message.{Packet, Message, new_message, add}
use goreplay.Tcp.Message.Laws.{payloads}
use goreplay.Tcp.Segment.{ipv4, total_length, lost, lost_missing}
use goreplay.Tcp.Store.{lookup, delete, store, modify}
use goreplay.Tcp.Pool.{
  Phase, waiting, expired, Caller, idle, offering, resetting, Pool, Reach, here, next, arrives,
  fires, new_pool, fill, hint_end, is_last, add_packet, find, admit, open_message, handle,
  set_phase,
}
use goreplay.Tcp.Pool.Invariant.{IsSafe}
use goreplay.Tcp.Pool.Safety.{handle-IsSafe, Reach-IsSafe}
use goreplay.Tcp.Pool.Blocked.{handle-reset_blocks, late_timer_blocks}
use goreplay.Tcp.Pool.Delivery.{offering-delivered}
use goreplay.Tcp.Pool.Conversation.{conversation}

abbrev plain : Bytes → Packet
plain text = record {
  src = codes "c:1";
  dst = codes "s:80";
  version = 4;
  seq = 1;
  syn = false;
  ack = true;
  fin = false;
  rst = false;
  payload = text;
  lost = 0;
  timestamp = 7;
}

abbrev opening : Packet
opening = record (plain (codes "GET ")) { syn = true; ack = false }

abbrev closing : Packet
closing = record (plain (codes "/")) { fin = true }

abbrev reset : Packet
reset = record (plain []) { rst = true }

abbrev empty_pool : Pool
empty_pool = new_pool 100 0 none none

abbrev one_message : Message
one_message = record {
  packets = opening ∷ [];
  content = codes "GET ";
  lost_data = 0;
  size = 4;
  start_time = 7;
  end_time = 7;
  src_addr = codes "c:1";
  dst_addr = codes "s:80";
  is_incoming = true;
  timed_out = false;
  truncated = false;
  ip_version = 4;
  arrived = opening ∷ [];
}

abbrev with_slot : Message → Phase → Caller → Pool
with_slot m phase caller = record {
  max_size = 100;
  message_expire = 100000000;
  start = none;
  end = none;
  pool = (codes "c:1", 0) ∷ [];
  slots = record { key = codes "c:1"; message = m; phase = phase } ∷ [];
  caller = caller;
  handled = [];
}

abbrev open_pool : Pool
open_pool = with_slot one_message waiting idle

opens : handle empty_pool opening ≡ done open_pool
unfolding handle find lookup equal admit open_message add_packet fill is_last hint_end modify store
    delete new_message new_pool add
opens = refl

open_pool-Reach : Reach empty_pool open_pool
unfolding new_pool
open_pool-Reach = next here (arrives opening refl opens)

open_pool-IsSafe : IsSafe open_pool
open_pool-IsSafe = Reach-IsSafe 100 0 none none open_pool-Reach

Reach-IsSafe_example : IsSafe open_pool
Reach-IsSafe_example = Reach-IsSafe 100 0 none none open_pool-Reach

-- Hints on the text: a request begins with `GET`, and ends when it holds three packets.
abbrev starts_with_get : Packet → Outcome (Bool × Bool)
starts_with_get p =
    if ltb (length p.payload) 3 then panic else done (equal (take 3 p.payload) (codes "GET"), false)

abbrev ends : Message → Bool
ends m = leb 3 (length m.packets)

abbrev hinted_pool : Pool
hinted_pool = new_pool 100 0 (some starts_with_get) (some (λ m. done (ends m)))

hinted_pool-IsSafe : IsSafe hinted_pool
hinted_pool-IsSafe = Reach-IsSafe 100 0 (some starts_with_get) (some (λ m. done (ends m))) here

handle-IsSafe_example : (q : Pool) × (handle hinted_pool opening ≡ done q) × IsSafe q
unfolding new_pool admit equal hint_end
handle-IsSafe_example =
    handle-IsSafe hinted_pool opening hinted_pool-IsSafe refl (some true, refl)
      (λ m. (ends m, refl))

abbrev reset_pool : Pool
reset_pool = with_slot one_message waiting (resetting 0 reset)

resets : handle open_pool reset ≡ done reset_pool
unfolding handle find lookup equal
resets = refl

handle-reset_blocks_example :
    ((set_phase reset_pool 0 expired).caller ≡ resetting 0 reset)
    × ((set_phase reset_pool 0 expired).handled ≡ [])
unfolding find lookup equal
handle-reset_blocks_example =
    handle-reset_blocks open_pool reset_pool (set_phase reset_pool 0 expired) reset 0
      open_pool-IsSafe refl refl refl resets
      (next here (
        fires 0 (record { key = codes "c:1"; message = one_message; phase = waiting }) refl refl
          refl))

abbrev late_pool : Pool
late_pool = with_slot one_message expired idle

abbrev full_message : Message
full_message = record one_message {
  packets = opening ∷ closing ∷ [];
  arrived = opening ∷ closing ∷ [];
  content = codes "GET /";
  size = 5;
}

abbrev stuck_pool : Pool
stuck_pool = with_slot full_message expired (offering 0)

closes_late : handle late_pool closing ≡ done stuck_pool
unfolding handle find lookup equal add_packet fill is_last hint_end modify add
closes_late = refl

stuck_pool-Reach : Reach empty_pool stuck_pool
unfolding modify
stuck_pool-Reach =
    next
      (next open_pool-Reach (
        fires 0 (record { key = codes "c:1"; message = one_message; phase = waiting }) refl refl
          refl))
      (arrives closing refl closes_late)

late_timer_blocks_example : (stuck_pool.caller ≡ offering 0) × (stuck_pool.handled ≡ [])
late_timer_blocks_example =
    late_timer_blocks stuck_pool stuck_pool 0
      (record { key = codes "c:1"; message = full_message; phase = expired })
      (Reach-IsSafe 100 0 none none stuck_pool-Reach) refl refl refl here

offering-delivered_example :
    (q : Pool) × Reach (with_slot full_message waiting (offering 0)) q
    × (q.caller ≡ idle)
    × (q.handled ≡ full_message ∷ [])
    × (lookup q.pool (codes "c:1") ≡ none)
offering-delivered_example =
    offering-delivered (with_slot full_message waiting (offering 0)) 0
      (record { key = codes "c:1"; message = full_message; phase = waiting }) refl refl refl

abbrev exchange : List Packet
exchange = opening ∷ plain (codes "/a") ∷ plain (codes "b") ∷ []

conversation_example :
    (q : Pool) × (m : Message) × Reach hinted_pool q
    × (q.caller ≡ idle)
    × (q.handled ≡ m ∷ [])
    × (lookup q.pool (codes "c:1") ≡ none)
    × (m.packets ≡ exchange)
    × (m.content ≡ payloads exchange)
unfolding admit hint_end equal add new_message
conversation_example =
    conversation 100 0 (some starts_with_get) (some (λ m. done (ends m))) opening
      (plain (codes "b")) (plain (codes "/a") ∷ [])
      (record {
        admitted = refl;
        no_reset = refl;
        goes_on = record { hinted = false; asked = refl; decides = refl };
      })
      (
        record { from_src = refl; to_dst = refl; no_reset = refl },
        record { hinted = false; asked = refl; decides = refl },
        tt,
      )
      (record { from_src = refl; to_dst = refl; no_reset = refl })
      (record { hinted = true; asked = refl; decides = refl }) (omega arith)

-- An IPv4 packet of 100 bytes with two headers of 20 bytes, of which 50 bytes of data were captured.
lost_missing_example : lost (ipv4 5 100) 5 50 ≡ 60 - 50
unfolding total_length
lost_missing_example =
    lost_missing (ipv4 5 100) 5 60 50 (omega arith, refl) (omega arith) (omega arith) (omega arith)
