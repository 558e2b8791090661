-- ===== src/Socket/Write.antt =====
-- libserveez/socket.c: `svz_sock_write`, which puts data into the send buffer and sends what is
-- there. `W` is what the callbacks act on beside the socket; the callbacks are parameters.
pub mod Order
use serveez.Base.{
  Bool, List, Option, [], drop, false, if◌then◌else◌, leb, length, ltb, none, not, some, suc, take,
  true, zero, ℕ, ◌&&◌, ◌++◌, ◌+◌, ◌-◌, ◌==◌, ◌^◌, ◌||◌, ◌∷◌,
}
use serveez.Socket.Buffer.{Buffer}

-- What the function reads and writes of a socket; the size of the send buffer is its number of
-- cells.
pub record Sender : Type 0 where
  pub buffer : Buffer
  pub killed : Bool
  pub connected : Bool
  pub unavailable : Bool
  pub final_write : Bool

-- `send_buffer_fill + len < send_buffer_size` for `int`s: a sum from 2 ^ 31 on wraps below 0.
abbrev pub seems_to_fit : Buffer → ℕ → Bool
seems_to_fit b len = leb (2 ^ 31) (b.fill + len) || ltb (b.fill + len) (length b.cells)

-- The bytes that are copied.
abbrev pub room : Buffer → ℕ → ℕ
room b len = if seems_to_fit b len then len else length b.cells - b.fill

-- `memcpy` of the first `n` bytes behind the data.
unfoldable pub append_data : ℕ → List ℕ → Buffer → Buffer
append_data n buf b = record {
  cells = take b.fill b.cells ++ (take n buf ++ drop (b.fill + n) b.cells);
  fill = b.fill + n;
}

-- `write_socket` may be NULL; `tcp` tells whether it is `svz_tcp_write_socket`.
module _ {W : Type 0} (write_socket : Option (W → Sender → Bool × W × Sender)) (tcp : Bool)
    (kicked_socket : W → Sender → W × Sender) where
  abbrev pub may_flush : Sender → Bool
  may_flush s = not s.unavailable && (s.connected && not (s.buffer.fill == 0))

  -- While an earlier write is flushed the final write is inhibited; `first` tells whether nothing
  -- of the data is in the buffer yet. `true` stands for a return value that is not 0.
  unfoldable pub flush : Bool → W → Sender → Bool × W × Sender
  flush first w s = elim write_socket [
    | none ↦ (false, w, s)
    | some write ↦
        let inhibit = s.final_write && (tcp && first) in
        let r = write w (if inhibit then record s { final_write = false } else s) in
        if may_flush s
        then (r.0, r.1, if not r.0 && inhibit then record r.2 { final_write = true } else r.2)
        else (false, w, s)
  ]

  -- A full buffer.
  abbrev pub overflow : W → Sender → Bool × W × Sender
  overflow w s = let r = kicked_socket w s in (true, r.0, r.1)

  -- The loop, for the rest of the data; `none` without enough fuel.
  unfoldable pub write_loop : ℕ → ℕ → W → Sender → List ℕ → Option (Bool × W × Sender)
  write_loop zero orig_len w s buf = none
  write_loop (suc fuel) orig_len w s [] = some (false, w, s)
  write_loop (suc fuel) orig_len w s (c ∷ cs) =
      let len = length (c ∷ cs) in
      let f = flush (orig_len == len) w s in
      let b = f.2.buffer in
      let n = room b len in
      let rest =
        write_loop fuel orig_len f.1 (record f.2 { buffer = append_data n (c ∷ cs) b })
          (drop n (c ∷ cs)) in
      if f.0 then some f else if leb (length b.cells) b.fill then some (overflow f.1 f.2) else rest

  unfoldable pub svz_sock_write : W → Sender → List ℕ → Option (Bool × W × Sender)
  svz_sock_write w s buf =
      if s.killed then some (false, w, s) else write_loop (length buf + 1) (length buf) w s buf
