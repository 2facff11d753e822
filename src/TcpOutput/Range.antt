-- ===== src/TcpOutput/Range.antt =====
-- Records find their queue.
use goreplay.Base.{
  ℕ, zero, suc, ◌%◌, ◌<◌, ◌≡◌, refl, ◌∙◌, Bool, true, false, Bool-cases, ◌⊎◌, inl, inr, Bytes, done,
  ◌>>=◌, none, some, List, [], ◌∷◌, ◌++◌, length, get_elem?, leb, arith,
}
use goreplay.Tcp.Store.{modify, length-modify}
use goreplay.Protocol.{payload_meta}
use goreplay.TcpOutput.{Queues, new_queues, id_of, get_buffer_index, enqueue, write_origin}

-- As many queues as `NewTCPOutput` makes.
abbrev pub IsWhole : Queues → Type 0
IsWhole q = length q.buffers ≡ length (new_queues q.sticky).buffers

get_elem?-below {ℓ} :
    {A : Type ℓ} (xs : List A) (i : ℕ) → i < length xs → (x : A) × (get_elem? xs i ≡ some x)
get_elem?-below [] i h = absurd (omega arith)
get_elem?-below (x ∷ xs) zero h = (x, refl)
get_elem?-below (x ∷ xs) (suc i) h = get_elem?-below xs i (omega (arith, h))

index-below :
    (hash : Bytes → ℕ) (b : Bool) (payload id : Bytes)
    → id_of (payload_meta payload) ≡ done id
    → (i : ℕ) × (get_buffer_index hash b payload ≡ done i) × (i < length (new_queues b).buffers)
unfolding get_buffer_index new_queues
index-below hash false payload id e = (0, refl, omega arith)
index-below hash true payload id e = (hash id % 10, rw (e, ◌>>=◌) refl, omega arith)

enqueue-IsWhole :
    (q : Queues) (i : ℕ) (payload : Bytes)
    → IsWhole q
    → i < length q.buffers
    → (enqueue q i payload ≡ done none)
      ⊎ ((p : Queues) × (enqueue q i payload ≡ done (some p)) × IsWhole p)
unfolding enqueue
enqueue-IsWhole q i payload w h =
    let (waiting, found) = get_elem?-below q.buffers i h in
    elim (Bool-cases (leb q.room (length waiting))) [
      | inl full ↦ inl (rw (found, enqueue) (rw full refl))
      | inr room ↦ inr (
        record q { buffers = modify i (λ old. waiting ++ (payload ∷ [])) q.buffers },
        rw (found, enqueue) (rw room refl),
        length-modify i (λ old. waiting ++ (payload ∷ [])) q.buffers ∙ w,
      )
    ]

-- A record with an identifier is queued without a panic, whatever the hash is, unless the queue is
-- full and the writer waits.
pub write_origin-IsWhole :
    (hash : Bytes → ℕ) (q : Queues) (payload id : Bytes)
    → IsWhole q
    → id_of (payload_meta payload) ≡ done id
    → (write_origin hash q payload ≡ done none)
      ⊎ ((p : Queues) × (write_origin hash q payload ≡ done (some p)) × IsWhole p)
unfolding write_origin
write_origin-IsWhole hash q payload id w e =
    let (i, index, below) = index-below hash q.sticky payload id e in
    rw (index, write_origin) (enqueue-IsWhole q i payload w (omega (arith, below, w)))
