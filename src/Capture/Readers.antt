-- ===== src/Capture/Readers.antt =====
-- capture/capture.go: `Listen`, the goroutines that `read` starts, one of each handle, and `closeHandles`,
-- with the channels between them. A handle is in `Handles` until its goroutine is over.
pub mod Safety
pub mod Order
pub mod Ends
pub mod Stopping
use goreplay.Base.{
  ℕ, zero, suc, ◌+◌, ◌<◌, ◌≡◌, Bool, true, false, ◌||◌, Bytes, some, List, [], ◌∷◌, ◌++◌, length,
  get_elem?, replicate, ◌==◌, if◌then◌else◌,
}
use goreplay.Tcp.Store.{modify}

-- A packet knows the interface that it was captured on.
pub record Captured : Type 0 where
  pub interface : ℕ
  pub data_of : Bytes

-- A goroutine: at its `select`, with a packet for the channel, at its deferred call, or over.
pub data Goroutine : Type 0 where
  selecting : Goroutine
  sending : Captured → Goroutine
  closing : Goroutine
  over : Goroutine

-- `taken` and `handled` list what the goroutines took and what the handler got.
pub record Run : Type 0 where
  pub readers : List Goroutine
  pub packets : List Captured
  pub packets_closed : Bool
  pub quit : Bool
  pub returned : Bool
  pub panicked : Bool
  pub taken : List Captured
  pub handled : List Captured

-- The capacity of `l.packets`.
abbrev pub capacity : ℕ
capacity = 1000

abbrev pub has_handle : Goroutine → ℕ
has_handle over = 0
has_handle _ = 1

-- `len(l.Handles)`
unfoldable pub handles : List Goroutine → ℕ
handles [] = 0
handles (r ∷ rs) = has_handle r + handles rs

unfoldable pub set_reader : Run → ℕ → Goroutine → Run
set_reader s i r = record s { readers = modify i (λ old. r) s.readers }

-- Behind `read`, with that number of handles.
unfoldable pub reading_from : ℕ → Run
reading_from n = record {
  readers = replicate n selecting;
  packets = [];
  packets_closed = false;
  quit = false;
  returned = false;
  panicked = false;
  taken = [];
  handled = [];
}

-- `closeHandles`: behind the last handle the channel is closed; closing it again would panic.
unfoldable pub close_handles : Run → ℕ → Run
close_handles s i =
    let closed = set_reader s i over in
    if handles closed.readers == 0
    then record closed { packets_closed = true; panicked = s.panicked || s.packets_closed }
    else closed

pub data Step (s q : Run) : Type 0 where
  takes :
      (i : ℕ) (p : Captured)
      → get_elem? s.readers i ≡ some selecting
      → p.interface ≡ i
      → q ≡ record (set_reader s i (sending p)) { taken = s.taken ++ (p ∷ []) }
      → Step s q
  ends : (i : ℕ) → get_elem? s.readers i ≡ some selecting → q ≡ set_reader s i closing → Step s q
  quits :
      (i : ℕ)
      → get_elem? s.readers i ≡ some selecting
      → s.quit ≡ true
      → q ≡ set_reader s i closing
      → Step s q
  sends :
      (i : ℕ) (p : Captured)
      → get_elem? s.readers i ≡ some (sending p)
      → s.packets_closed ≡ false
      → length s.packets < capacity
      → q ≡ record (set_reader s i selecting) { packets = s.packets ++ (p ∷ []) }
      → Step s q
  sends_on_closed :
      (i : ℕ) (p : Captured)
      → get_elem? s.readers i ≡ some (sending p)
      → s.packets_closed ≡ true
      → q ≡ record s { panicked = true }
      → Step s q
  closes : (i : ℕ) → get_elem? s.readers i ≡ some closing → q ≡ close_handles s i → Step s q
  cancels : s.returned ≡ false → s.quit ≡ false → q ≡ record s { quit = true } → Step s q
  handles_packet :
      (p : Captured) (rest : List Captured)
      → s.returned ≡ false
      → s.packets ≡ p ∷ rest
      → q ≡ record s { packets = rest; handled = s.handled ++ (p ∷ []) }
      → Step s q
  returns :
      s.returned ≡ false
      → s.packets ≡ []
      → s.packets_closed ≡ true
      → q ≡ record s { returned = true }
      → Step s q

pub data Reach (s : Run) : Run → Type 0 where
  here : Reach s s
  next : {p q : Run} → Reach s p → Step p q → Reach s q
