-- ===== src/Socket/Write/Order.antt =====
-- socket.c: what `svz_sock_write` leaves in the buffer and has sent.
use serveez.Base.{Bool, List, Option, [], length, none, some, true, ℕ, ◌++◌, ◌^◌, ◌≡◌, ◌≤◌, ◌⊎◌}
use serveez.Socket.Buffer.{Buffer, filled}
use serveez.Socket.Write.{Sender}

-- The data lies inside the buffer, of at most 2 ^ 30 bytes.
abbrev pub Fits : Sender → Type 0
Fits s = (s.buffer.fill ≤ length s.buffer.cells) × (length s.buffer.cells ≤ 2 ^ 30)

module _ {W : Type 0} (sent : W → List ℕ) where
  -- What was sent and what waits in the buffer, in order.
  abbrev pub stream_of : W → Sender → List ℕ
  stream_of w s = sent w ++ filled s.buffer

  -- A callback that loses and adds nothing: what it takes from the buffer has been sent.
  abbrev pub Same : W → Sender → W → Sender → Type 0
  Same w s v t = Fits t × (stream_of v t ≡ stream_of w s)

  abbrev pub Sends : Option (W → Sender → Bool × W × Sender) → Type 0
  Sends none = Unit
  Sends (some write) = (w : W) (s : Sender) → Fits s → Same w s (write w s).1 (write w s).2

  -- Some of the data follows what was there before; all of it unless the return value is not 0.
  abbrev pub Written : W → Sender → List ℕ → Bool × W × Sender → Type 0
  Written w s buf r =
      (front : List ℕ) × (back : List ℕ) × (buf ≡ front ++ back)
      × Fits r.2
      × (stream_of r.1 r.2 ≡ stream_of w s ++ front)
      × ((r.0 ≡ true) ⊎ (back ≡ []))
