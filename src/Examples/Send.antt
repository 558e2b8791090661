-- ===== src/Examples/Send.antt =====
-- socket.c: the theorem on `svz_sock_write` at a concrete socket.
use serveez.Base.{Bool, List, [], false, take, true, ℕ, ◌++◌, ◌∷◌}
use serveez.Socket.Buffer.{filled, reduce}
use serveez.Socket.Write.{Sender}

-- A connection that takes one byte of the buffer; what it has is the list of those.
abbrev send_one : List ℕ → Sender → Bool × List ℕ × Sender
send_one w s = (false, w ++ take 1 (filled s.buffer), record s { buffer = reduce 1 s.buffer })

abbrev two_cells : Sender
two_cells = record {
  buffer = record { cells = 7 ∷ 0 ∷ []; fill = 1 };
  killed = false;
  connected = true;
  unavailable = false;
  final_write = true;
}

abbrev leave : List ℕ → Sender → List ℕ × Sender
leave w s = (w, s)
