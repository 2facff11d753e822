-- ===== src/Tcp/Pool/Safety.antt =====
-- `MessagePool`: the handler does not panic, and every step keeps the pool safe.
use goreplay.Base.{
  done-injective, bind-done, ℕ, ◌<◌, ◌≡◌, ◌≢◌, inl, inr, refl, sym, ap, ◌∙◌, subst, Bool, true,
  Bytes, done, Option, some, [], ◌∷◌, All-append, length, get_elem?, arith, Option-cases,
  Bool-cases,
}
use goreplay.Tcp.Message.{Packet, Message}
use goreplay.Tcp.Store.{lookup, modify, length-modify, lookup-delete-some}
use goreplay.Tcp.Pool.{
  expired, received, replying, ended, Caller, idle, offering, taking, resetting, resetting_peer,
  StartHint, EndHint, Slot, Pool, Step, Reach, here, next, find, reset_peer, admit, handle,
  set_phase, hand_over, deliver, time_out, arrives, fires, meets, delivers, replies, replies_reset,
  replies_peer, times_out, new_pool, with_phase, with_message, src_dst,
}
use goreplay.Tcp.Pool.Invariant.{
  IsFit, IsSlot, IsSafe, IsQuiet, serving, quiet-IsSafe, idle-IsQuiet, modify_all,
  add_packet-IsSafe, open_message-IsSafe, EndReturns, add_packet-result, open_message-result,
}

find_below :
    (p : Pool) (src dst : Bytes) (id : ℕ)
    → ((k : Bytes) (i : ℕ) → lookup p.pool k ≡ some i → i < length p.slots)
    → find p.pool src dst ≡ some id
    → id < length p.slots
unfolding find
find_below p src dst id entries e = elim (Option-cases (lookup p.pool src)) [
  | inl missing ↦ entries (src_dst src dst) id (rw (missing, find) at e)
  | inr (i, found) ↦ entries src id (found ∙ (rw (found, find) at e))
]

reset_peer-IsSafe : (p : Pool) (packet : Packet) → IsQuiet p → IsSafe (reset_peer p packet)
unfolding reset_peer
reset_peer-IsSafe p packet w = elim (Option-cases (find p.pool packet.dst packet.src)) [
  | inl missing ↦ rw (missing, reset_peer) (quiet-IsSafe p idle w)
  | inr (id, found) ↦ rw (found, reset_peer) (quiet-IsSafe p (resetting_peer id) w)
]

-- In a safe state with a free lock `Handler` runs, without a panic, on every packet on which the
-- hint for the start returns, when the hint for the end returns on every message, and it leaves a
-- safe state.
pub handle-IsSafe :
    (p : Pool) (packet : Packet)
    → IsSafe p
    → p.caller ≡ idle
    → ((r : Option Bool) × (admit p.start packet ≡ done r))
    → EndReturns p.end
    → (q : Pool) × (handle p packet ≡ done q) × IsSafe q
unfolding handle
handle-IsSafe p packet w free (starts, asked) hint = elim (Bool-cases packet.rst) [
  | inl reset ↦ (elim (Option-cases (find p.pool packet.src packet.dst)) [
    | inl missing ↦ (reset_peer p packet, simp (reset, missing), reset_peer-IsSafe p packet quiet)
    | inr (id, found) ↦ (
      record p { caller = resetting id packet },
      simp (reset, found),
      quiet-IsSafe p (resetting id packet) quiet,
    )
  ])
  | inr no_reset ↦ elim (Option-cases (find p.pool packet.src packet.dst)) [
    | inr (id, found) ↦
        (let (q, e, s) =
            add_packet-IsSafe p id packet quiet
              (find_below p packet.src packet.dst id w.entries found) hint in
          (q, simp (no_reset, found) e, s))
    | inl missing ↦ elim (Option-cases starts) [
      | inl refused ↦ (p, simp (no_reset, missing, asked, refused), w)
      | inr (incoming, admitted) ↦
          (let (q, e, s) = open_message-IsSafe p packet incoming quiet hint in
            (q, simp (no_reset, missing, asked, admitted) e, s))
    ]
  ]
]
  where
    quiet : IsQuiet p
    quiet = idle-IsQuiet p free w

-- When `Handler` returns, the state is safe, whatever the hints are.
pub handle-result :
    (p q : Pool) (packet : Packet)
    → IsSafe p
    → p.caller ≡ idle
    → handle p packet ≡ done q
    → IsSafe q
unfolding handle
handle-result p q packet w free e = elim (Bool-cases packet.rst) [
  | inl reset ↦ (elim (Option-cases (find p.pool packet.src packet.dst)) [
    | inl missing ↦
        subst IsSafe (done-injective _ q (simp (reset, missing) at e))
          (reset_peer-IsSafe p packet quiet)
    | inr (id, found) ↦
        subst IsSafe (done-injective _ q (simp (reset, found) at e))
          (quiet-IsSafe p (resetting id packet) quiet)
  ])
  | inr no_reset ↦ elim (Option-cases (find p.pool packet.src packet.dst)) [
    | inr (id, found) ↦
        add_packet-result p q id packet quiet
          (find_below p packet.src packet.dst id w.entries found) (simp (no_reset, found) at e)
    | inl missing ↦
        (let (starts, asked, run) =
            bind-done (admit p.start packet) _ q (simp (no_reset, missing) at e) in
          elim (Option-cases starts) [
            | inl refused ↦ subst IsSafe (done-injective p q (simp refused at run)) w
            | inr (incoming, admitted) ↦
                open_message-result p q packet incoming quiet (simp admitted at run)
          ])
  ]
]
  where
    quiet : IsQuiet p
    quiet = idle-IsQuiet p free w

changed-IsSafe :
    (p : Pool) (id : ℕ) (f : Slot → Slot) (c : Caller)
    → IsSafe p
    → ((j : ℕ) (s : Slot) → id ≢ j → IsSlot p.max_size p.caller j s → IsSlot p.max_size c j s)
    → ((s : Slot)
        → get_elem? p.slots id ≡ some s
        → IsSlot p.max_size p.caller id s
        → IsSlot p.max_size c id (f s))
    → IsSafe (record p { slots = modify id f p.slots; caller = c })
changed-IsSafe p id f c w others own = record {
  slots_fit =
      modify_all (IsSlot p.max_size p.caller) (IsSlot p.max_size c) id f p.slots w.slots_fit others
        own;
  entries = λ k i e. omega (arith, w.entries k i e, length-modify id f p.slots);
  handled_fit = w.handled_fit;
}

hand_over-IsSafe :
    (p : Pool) (s : Slot) (m : Message) → IsSafe p → IsFit p.max_size m → IsSafe (hand_over p s m)
hand_over-IsSafe p s m w fits = record {
  slots_fit = w.slots_fit;
  entries = λ k id e. w.entries k id (lookup-delete-some p.pool s.key k id e);
  handled_fit = All-append (IsFit p.max_size) p.handled (m ∷ []) w.handled_fit (fits, tt);
}

-- A goroutine between its receive and its reply has the caller to itself.
pub serving-taking :
    (p : Pool) (id : ℕ) (s : Slot)
    → IsSafe p
    → get_elem? p.slots id ≡ some s
    → serving s.phase ≡ true
    → p.caller ≡ taking id
serving-taking p id s w found busy = elim (w.slots_fit id s found).1 [ inl h ↦ cc | inr h ↦ h ]

deliver-IsSafe :
    (p : Pool) (id : ℕ) (s : Slot)
    → IsSafe p
    → get_elem? p.slots id ≡ some s
    → s.phase ≡ received
    → IsSafe (deliver p id s)
unfolding deliver
deliver-IsSafe p id s w found phase =
    hand_over-IsSafe (set_phase p id replying) s s.message
      (changed-IsSafe p id (with_phase replying) p.caller w (λ j x other h. h)
        (λ x e h. (h.0, inr (serving-taking p id s w found (ap serving phase)))))
      (w.slots_fit id s found).0

time_out-IsSafe :
    (p : Pool) (id : ℕ) (s : Slot)
    → IsSafe p
    → get_elem? p.slots id ≡ some s
    → p.caller ≡ idle
    → IsSafe (time_out p id s)
unfolding time_out
time_out-IsSafe p id s w found free =
    hand_over-IsSafe (set_phase marked id ended) s late
      (changed-IsSafe marked id (with_phase ended) p.caller
        (changed-IsSafe p id (with_message (λ m. late)) p.caller w (λ j x other h. h)
          (λ x e h. (late_fits, h.1)))
        (λ j x other h. h) (λ x e h. (h.0, inl refl)))
      late_fits
  where
    late : Message
    late = record (s.message) { timed_out = true }

    late_fits : IsFit p.max_size late
    late_fits =
        let w' = (w.slots_fit id s found).0 in
        record {
          whole = record {
            content_joined = w'.whole.content_joined;
            size_counted = w'.whole.size_counted;
            lost_counted = w'.whole.lost_counted;
          };
          fits = w'.fits;
          kept = w'.kept;
          in_order = w'.in_order;
        }

    marked : Pool
    marked = record p { slots = modify id (with_message (λ m. late)) p.slots }

pub Step-IsSafe : {p q : Pool} → Step p q → IsSafe p → IsSafe q
Step-IsSafe {p = p} {q = q} (arrives packet free e) w = handle-result p q packet w free e
Step-IsSafe {p = p} (fires id s found phase e) w = subst IsSafe (sym e) (
    changed-IsSafe p id (with_phase expired) p.caller w (λ j x other h. h)
      (λ x e' h. (h.0, inl refl)))
Step-IsSafe {p = p} (meets id s found phase offered e) w = subst IsSafe (sym e) (
    changed-IsSafe p id (with_phase received) (taking id) w
      (λ j x other h. (
        h.0,
        elim h.1 [
          | inl quiet ↦ inl quiet
          | inr busy ↦ (let no : offering id ≡ taking j = sym offered ∙ busy in cc)
        ],
      ))
      (λ x e' h. (h.0, inr refl)))
Step-IsSafe {p = p} (delivers id s found phase e) w =
    subst IsSafe (sym e) (deliver-IsSafe p id s w found phase)
Step-IsSafe {p = p} (replies id s found phase taken e) w = subst IsSafe (sym e) (
    changed-IsSafe p id (with_phase ended) idle w
      (λ j x other h. (
        h.0,
        elim h.1 [
          | inl quiet ↦ inl quiet
          | inr busy ↦
              (let same : taking id ≡ taking j = sym taken ∙ busy in
                absurd (other (taking-injective id j same)))
        ],
      ))
      (λ x e' h. (h.0, inl refl)))
  where
    taking-injective : (i j : ℕ) → taking i ≡ taking j → i ≡ j
    taking-injective i j e' = cc
Step-IsSafe {p = p} (replies_reset id s packet found phase waits e) w =
    let busy : p.caller ≡ taking id = serving-taking p id s w found (ap serving phase) in
    let no : resetting id packet ≡ taking id = sym waits ∙ busy in cc
Step-IsSafe {p = p} (replies_peer id s found phase waits e) w =
    let busy : p.caller ≡ taking id = serving-taking p id s w found (ap serving phase) in
    let no : resetting_peer id ≡ taking id = sym waits ∙ busy in cc
Step-IsSafe {p = p} (times_out id s found phase free e) w =
    subst IsSafe (sym e) (time_out-IsSafe p id s w found free)

-- In every state that a pool reaches from its start, with any hints, each message in it and each
-- message that the handler was given keeps to the maximum size: its content is what the packets that
-- came for it brought, in the order of their arrival, cut at that size; its packets are these, in that
-- order and with their headers; and its size and loss are those of its packets.
pub Reach-IsSafe :
    (max_size message_expire : ℕ) (start : Option StartHint) (end : Option EndHint) {q : Pool}
    → Reach (new_pool max_size message_expire start end) q
    → IsSafe q
unfolding new_pool lookup
Reach-IsSafe max_size message_expire start end here = record {
  slots_fit = λ id s e. cc;
  entries = λ k id e. cc;
  handled_fit = tt;
}
Reach-IsSafe max_size message_expire start end (next r s) =
    Step-IsSafe s (Reach-IsSafe max_size message_expire start end r)
